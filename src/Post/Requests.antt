-- ===== src/Post/Requests.antt =====
-- Requests as they come over the network, with the receiver as a text.
use muscle.Prelude.{
  ◌≡◌, refl, ap, sym, ◌∙◌, false, List, ◌∷◌, Option, ok, ◌>>=◌, ◌==◌, list_eq, if◌then◌else◌,
  Bool-cases, inl, inr,
}
use muscle.Identity.{Reference, part_eq}
use muscle.Identity.Parse.{parts_to_string}
use muscle.Identity.Wellformed.{IsReference, string_to_parts-parts_to_string}
use muscle.Post.{
  Pipe, PostOffice, get_next_message, handle_request, serve, get_outbox, is_empty, store, ready,
}
use muscle.Post.Queue.{retrieve-cons, is_empty-nil}
use muscle.Post.Calls.{queued}
use muscle.Post.Serve.{queued-insert, waiting-get_outbox, serve-cons}

module _ {M : Type 0} where
  has_messages :
      (r : Reference) (s : PostOffice M) (m : M) (rest : List M)
      → queued s r ≡ m ∷ rest
      → is_empty (get_outbox r s) ≡ false
  has_messages r s m rest h = elim (Bool-cases (is_empty (get_outbox r s))) [
    | inl t ↦
        absurd (cc (sym h ∙ sym (waiting-get_outbox s s r refl) ∙ is_empty-nil (get_outbox r s) t))
    | inr t ↦ t
  ]

  serve-oldest :
      (r : Reference) (fresh : Option Pipe) (s : PostOffice M) (m : M) (rest : List M)
      → queued s r ≡ m ∷ rest
      → (s' : PostOffice M) × (serve r fresh s ≡ ok (ready m, s'))
        × ((k : Reference) → queued s' k ≡ (if r == k then rest else queued s k))
  serve-oldest r fresh s m rest h =
      let (o, e, left) =
        retrieve-cons (get_outbox r s) m rest (waiting-get_outbox s s r refl ∙ h) in
      (
        store r o s,
        serve-cons r fresh s m o (has_messages r s m rest h) e,
        λ k.
            queued-insert r k o s (store r o s) refl
            ∙ ap (λ w. if r == k then w else queued s k) left,
      )

  -- When messages wait for a receiver, a request that names it the way its reference is printed, where
  -- that begins with an identifier, has valid identifiers and indices below 2^31, is answered with the
  -- oldest of them. After it the others wait, and what waits for other receivers is as it was.
  pub handle_request-parts_to_string :
      (r : Reference) (fresh : Option Pipe) (s : PostOffice M) (m : M) (rest : List M)
      → IsReference r
      → queued s r ≡ m ∷ rest
      → (s' : PostOffice M) × (handle_request (get_next_message (parts_to_string r)) fresh s
          ≡ ok (ready m, s'))
        × ((k : Reference) → queued s' k ≡ (if r == k then rest else queued s k))
  unfolding handle_request
  handle_request-parts_to_string r fresh s m rest i h =
      let (s', e, f) = serve-oldest r fresh s m rest h in
      (
        s',
        ap (λ p. p >>= λ receiver. serve receiver fresh s) (string_to_parts-parts_to_string r i)
            ∙ e,
        f,
      )
