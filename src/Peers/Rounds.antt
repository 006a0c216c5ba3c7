-- ===== src/Peers/Rounds.antt =====
-- What one round of the loop in the constructor of PeerManager records.
use muscle.Prelude.{
  ◌≡◌, refl, ap, ◌∙◌, Bool, true, false, List, [], ◌∷◌, ◌++◌, Result, ok, err, Error, runtime_error,
  arith, ◌==◌, eq_iff, list_eq, Option, none, some, if◌then◌else◌, Bool-cases, Option-cases, inl,
  inr, ◌&&◌,
}
use mathlib.Core.List.{append_assoc, append-nil}
use muscle.Prelude.Dict.{Dict, lookup, insert, contains, lookup-insert}
use muscle.Identity.{Reference, part_eq}
use muscle.Model.{Conduit, sending_component, receiving_component}
use muscle.Peers.{add_receiver, add_conduit}

module _ (kernel key : Reference) where
  -- The receivers of the kernel's conduits that start at the port, in order.
  unfoldable pub receivers_from : List Conduit → List Reference
  receivers_from [] = []
  receivers_from (c ∷ cs) =
      let rest = receivers_from cs in
      if sending_component c == kernel && c.sender == key then c.receiver ∷ rest else rest

  -- The senders of the kernel's conduits that end at the port, in order.
  unfoldable pub senders_to : List Conduit → List Reference
  senders_to [] = []
  senders_to (c ∷ cs) =
      let rest = senders_to cs in
      if receiving_component c == kernel && c.receiver == key then c.sender ∷ rest else rest

-- An entry with more peers behind it; no entry where there are none.
abbrev pub extend : Option (List Reference) → List Reference → Option (List Reference)
extend none [] = none
extend none (r ∷ rs) = some (r ∷ rs)
extend (some ps) rs = some (ps ++ rs)

pub lookup-add_receiver :
    (key : Reference) (c : Conduit) (peers : Dict Reference (List Reference))
    → lookup key (add_receiver c peers) ≡ (
        if c.sender == key
        then extend (lookup c.sender peers) (c.receiver ∷ [])
        else lookup key peers)
unfolding add_receiver
lookup-add_receiver key c peers = elim (Option-cases (lookup c.sender peers)) [
  | inl e ↦ rw (e, add_receiver) (lookup-insert c.sender key (c.receiver ∷ []) peers)
  | inr (rs, e) ↦ rw (e, add_receiver) (lookup-insert c.sender key (rs ++ c.receiver ∷ []) peers)
]

pub lookup-add_receiver_here :
    (key : Reference) (c : Conduit) (peers : Dict Reference (List Reference))
    → (c.sender == key) ≡ true
    → lookup key (add_receiver c peers) ≡ extend (lookup key peers) (c.receiver ∷ [])
lookup-add_receiver_here key c peers h =
    let same : c.sender ≡ key = (eq_iff c.sender key).0 h in
    lookup-add_receiver key c peers
    ∙ rw h (ap (λ k. extend (lookup k peers) (c.receiver ∷ [])) same)

pub lookup-add_receiver_else :
    (key : Reference) (c : Conduit) (peers : Dict Reference (List Reference))
    → (c.sender == key) ≡ false
    → lookup key (add_receiver c peers) ≡ lookup key peers
lookup-add_receiver_else key c peers h = lookup-add_receiver key c peers ∙ rw h

pub contains-some :
    (key : Reference) (peers : Dict Reference (List Reference)) (v : List Reference)
    → lookup key peers ≡ some v
    → contains key peers ≡ true
unfolding contains
contains-some key peers v h = rw (h, contains)

pub contains-lookup :
    (key : Reference) (peers : Dict Reference (List Reference))
    → contains key peers ≡ false
    → lookup key peers ≡ none
contains-lookup key peers h = elim (Option-cases (lookup key peers)) [
  | inl e ↦ e
  | inr (v, e) ↦ cc (contains-some key peers v e)
]

-- The second half of a round, from the entries that the first half leaves.
abbrev pub add_sender :
    Reference
    → Conduit
    → Dict Reference (List Reference)
    → Result Error (Dict Reference (List Reference))
add_sender kernel c after =
    if receiving_component c == kernel
    then (if contains c.receiver after
        then err runtime_error
        else ok (insert c.receiver (c.sender ∷ []) after))
    else ok after

module _ (kernel key : Reference) (c : Conduit) (after peers' : Dict Reference (List Reference))
    (added : add_sender kernel c after ≡ ok peers') where
  pub add_sender-else :
      (receiving_component c == kernel && c.receiver == key) ≡ false
      → lookup key peers' ≡ lookup key after
  add_sender-else h = ground (arith, lookup-insert c.receiver key (c.sender ∷ []) after)

  pub add_sender-here :
      (receiving_component c == kernel && c.receiver == key) ≡ true
      → (lookup key after ≡ none) × (lookup key peers' ≡ some (c.sender ∷ []))
  add_sender-here h = ground (
    arith,
    lookup-insert c.receiver key (c.sender ∷ []) after,
    contains-lookup c.receiver after,
    eq_iff c.receiver key,
  )

abbrev pub add_receiving :
    Reference → Conduit → Dict Reference (List Reference) → Dict Reference (List Reference)
add_receiving kernel c peers = if sending_component c == kernel then add_receiver c peers else peers

pub add_conduit-halves :
    (kernel : Reference) (c : Conduit) (peers : Dict Reference (List Reference))
    → add_conduit kernel c peers ≡ add_sender kernel c (add_receiving kernel c peers)
unfolding add_conduit
add_conduit-halves kernel c peers = refl

pub add_receiving-here :
    (kernel key : Reference) (c : Conduit) (peers : Dict Reference (List Reference))
    → (sending_component c == kernel && c.sender == key) ≡ true
    → lookup key (add_receiving kernel c peers) ≡ extend (lookup key peers) (c.receiver ∷ [])
add_receiving-here kernel key c peers h = ground (arith, lookup-add_receiver_here key c peers)

pub add_receiving-else :
    (kernel key : Reference) (c : Conduit) (peers : Dict Reference (List Reference))
    → (sending_component c == kernel && c.sender == key) ≡ false
    → lookup key (add_receiving kernel c peers) ≡ lookup key peers
add_receiving-else kernel key c peers h = ground (arith, lookup-add_receiver_else key c peers)

pub extend-cons :
    (o : Option (List Reference)) (r : Reference) (rs : List Reference)
    → extend (extend o (r ∷ [])) rs ≡ extend o (r ∷ rs)
extend-cons none r rs = refl
extend-cons (some ps) r rs = ap some (append_assoc ps (r ∷ []) rs)

pub extend-nil : (o : Option (List Reference)) → extend o [] ≡ o
extend-nil none = refl
extend-nil (some ps) = ap some (append-nil ps)

abbrev pub ends_at : Reference → Reference → Conduit → Bool
ends_at kernel key c = receiving_component c == kernel && c.receiver == key

abbrev pub starts_at : Reference → Reference → Conduit → Bool
starts_at kernel key c = sending_component c == kernel && c.sender == key

pub senders_to-nil :
    (kernel key : Reference) (c : Conduit) (cs : List Conduit)
    → senders_to kernel key (c ∷ cs) ≡ []
    → (ends_at kernel key c ≡ false) × (senders_to kernel key cs ≡ [])
unfolding senders_to
senders_to-nil kernel key c cs h = ground arith

pub receivers_from-nil :
    (kernel key : Reference) (c : Conduit) (cs : List Conduit)
    → receivers_from kernel key (c ∷ cs) ≡ []
    → (starts_at kernel key c ≡ false) × (receivers_from kernel key cs ≡ [])
unfolding receivers_from
receivers_from-nil kernel key c cs h = ground arith

-- After the first half of a round, the rest of the conduits add what the round leaves.
pub receivers_from-step :
    (kernel key : Reference) (c : Conduit) (cs : List Conduit)
    (peers : Dict Reference (List Reference))
    → extend (lookup key (add_receiving kernel c peers)) (receivers_from kernel key cs)
      ≡ extend (lookup key peers) (receivers_from kernel key (c ∷ cs))
unfolding receivers_from
receivers_from-step kernel key c cs peers = elim (Bool-cases (starts_at kernel key c)) [
  | inl t ↦
      rw (add_receiving-here kernel key c peers t, t)
        (extend-cons (lookup key peers) c.receiver (receivers_from kernel key cs))
  | inr t ↦ rw (add_receiving-else kernel key c peers t, t)
]
