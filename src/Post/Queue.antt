-- ===== src/Post/Queue.antt =====
-- An outbox is a first-in first-out queue.
use muscle.Prelude.{
  ◌≡◌, refl, ap, sym, ◌∙◌, true, false, List, [], ◌∷◌, ◌++◌, ok, err, runtime_error,
  get_last?-append, drop_last-append,
}
use mathlib.Core.List.{reverse, reverse-cons, reverse-reverse}
use muscle.Post.{Outbox, new_outbox, is_empty, put, retrieve}

module _ {M : Type 0} where
  -- The messages in an outbox, the oldest first.
  unfoldable pub waiting : Outbox M → List M
  waiting o = reverse o.queue

  pub waiting-put : (m : M) (o : Outbox M) → waiting (put m o).0 ≡ waiting o ++ m ∷ []
  unfolding waiting put
  waiting-put m o = reverse-cons m o.queue

  queue-eq :
      (o : Outbox M) (m : M) (ms : List M) → waiting o ≡ m ∷ ms → o.queue ≡ reverse ms ++ m ∷ []
  unfolding waiting
  queue-eq o m ms h = sym (reverse-reverse o.queue) ∙ ap reverse h ∙ reverse-cons m ms

  queue-nil : (o : Outbox M) → waiting o ≡ [] → o.queue ≡ []
  unfolding waiting
  queue-nil o h = sym (reverse-reverse o.queue) ∙ ap reverse h

  snoc_front : (xs : List M) (m : M) → (x : M) × (rest : List M) × (xs ++ m ∷ [] ≡ x ∷ rest)
  snoc_front [] m = (m, [], refl)
  snoc_front (x ∷ xs) m = (x, xs ++ m ∷ [], refl)

  retrieve-append :
      (o : Outbox M) (front : List M) (m : M)
      → retrieve (record o { queue = front ++ m ∷ [] }) ≡ ok (m, record o { queue = front })
  unfolding retrieve
  retrieve-append o front m = rw (retrieve, get_last?-append front m, drop_last-append front m)

  -- The oldest message is taken out, if there is one.
  pub retrieve-cons :
      (o : Outbox M) (m : M) (ms : List M)
      → waiting o ≡ m ∷ ms
      → (o' : Outbox M) × (retrieve o ≡ ok (m, o')) × (waiting o' ≡ ms)
  retrieve-cons o m ms h =
      let e = queue-eq o m ms h in
      (
        record o { queue = reverse ms },
        ap (λ q. retrieve (record o { queue = q })) e ∙ retrieve-append o (reverse ms) m,
        unfold waiting in reverse-reverse ms,
      )

  pub retrieve-nil : (o : Outbox M) → waiting o ≡ [] → retrieve o ≡ err runtime_error
  retrieve-nil o h =
      ap (λ q. retrieve (record o { queue = q })) (queue-nil o h) ∙ unfold retrieve in refl

  pub is_empty-nil : (o : Outbox M) → is_empty o ≡ true → waiting o ≡ []
  unfolding is_empty waiting
  is_empty-nil o h = by_queue o.queue h
    where
      by_queue : (q : List M) → (elim q [ [] ↦ true | m ∷ ms ↦ false ]) ≡ true → reverse q ≡ []
      by_queue [] h = refl
      by_queue (m ∷ ms) h = cc

  pub is_empty-cons :
      (o : Outbox M) → is_empty o ≡ false → (m : M) × (ms : List M) × (waiting o ≡ m ∷ ms)
  unfolding is_empty waiting
  is_empty-cons o h = by_queue o.queue h
    where
      by_queue :
          (q : List M)
          → (elim q [ [] ↦ true | m ∷ ms ↦ false ]) ≡ false
          → (m : M) × (ms : List M) × (reverse q ≡ m ∷ ms)
      by_queue [] h = cc
      by_queue (m ∷ q) h =
          let (x, xs, e) = snoc_front (reverse q) m in (x, xs, reverse-cons m q ∙ e)

pub waiting-new : {M : Type 0} → waiting (new_outbox {M = M}) ≡ []
unfolding waiting new_outbox
waiting-new = refl
