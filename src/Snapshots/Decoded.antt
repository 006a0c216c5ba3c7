-- ===== src/Snapshots/Decoded.antt =====
-- A snapshot is read from the data that it was written to.
use muscle.Prelude.{
  ◌≡◌, refl, ap, ◌∙◌, List, [], ◌∷◌, Option, none, some, ok, ◌>>=◌, ℤ, if◌then◌else◌, ◌==◌, list_eq,
  nat_eq,
}
use muscle.Prelude.Dict.{Dict, lookup, insert, lookup-insert}
use muscle.Identity.{Text}
use muscle.Communicator.{Message}
use muscle.Checkpoints.Manager.{Cause}
use muscle.Snapshots.{Snapshot}
use muscle.Snapshots.Encoding.{
  trigger_items, count_items, count_entries, message_data, to_data, find, field, triggers_of,
  counts_of, port_counts_of, message_of, from_data,
}

-- For each port the same counts; a std::unordered_map has no order.
abbrev pub HasSame : Dict Text (List ℤ) → Dict Text (List ℤ) → Type 0
HasSame a b = (name : Text) → lookup name a ≡ lookup name b

module _ (T S D : Type 0) where
  triggers_of-trigger_items :
      (cs : List Cause) → triggers_of (trigger_items {T = T} {S = S} {D = D} cs) ≡ ok cs
  unfolding triggers_of trigger_items
  triggers_of-trigger_items [] = refl
  triggers_of-trigger_items (c ∷ cs) =
      ap (λ r. r >>= λ z. ok (c ∷ z)) (triggers_of-trigger_items cs)

  counts_of-count_items : (ns : List ℤ) → counts_of (count_items {T = T} {S = S} {D = D} ns) ≡ ok ns
  unfolding counts_of count_items
  counts_of-count_items [] = refl
  counts_of-count_items (n ∷ ns) = ap (λ r. r >>= λ z. ok (n ∷ z)) (counts_of-count_items ns)

  port_counts_of-count_entries :
      (counts : Dict Text (List ℤ))
      → (counts' : Dict Text (List ℤ)) × (port_counts_of
            (count_entries {T = T} {S = S} {D = D} counts)
          ≡ ok counts')
        × HasSame counts' counts
  unfolding port_counts_of count_entries
  port_counts_of-count_entries [] = ([], refl, λ name. refl)
  port_counts_of-count_entries ((first, ns) ∷ counts) =
      let (counts', e, f) = port_counts_of-count_entries counts in
      (
        insert first ns counts',
        ap
              (λ r. r >>= λ items.
                port_counts_of (count_entries {T = T} {S = S} {D = D} counts) >>= λ z.
                ok (insert first items z))
              (counts_of-count_items ns)
            ∙ ap (λ r. r >>= λ z. ok (insert first ns z)) e,
        λ name.
            lookup-insert first name ns counts'
            ∙ ap (λ o. if first == name then some ns else o) (f name)
            ∙ unfold lookup in refl,
      )

module _ {T S D : Type 0} where
  message_of-message_data : (o : Option (Message T S D)) → message_of (message_data o) ≡ ok o
  message_of-message_data none = refl
  message_of-message_data (some msg) = refl

  -- What was made of a snapshot gives it again, with the same counts for each port.
  pub from_data-to_data :
      (s : Snapshot T S D)
      → (counts : Dict Text (List ℤ)) × (from_data (to_data s)
          ≡ ok (record s { port_message_counts = counts }))
        × HasSame counts s.port_message_counts
  unfolding from_data to_data field find
  from_data-to_data s =
      let (counts, e, f) = port_counts_of-count_entries T S D s.port_message_counts in
      (
        counts,
        rw (triggers_of-trigger_items T S D s.triggers, e, message_of-message_data s.message) refl,
        f,
      )
