-- ===== src/Post/Answers.antt =====
-- What get_response does: the receiver that was noted for the fd is given its oldest message.
use muscle.Prelude.{
  ◌≡◌, refl, ap, sym, subst, ◌∙◌, List, [], ◌∷◌, ◌++◌, some, Result, ok, ◌>>=◌, >>=-eq-ok, or_throw,
  Error, undefined, ℤ, ◌==◌, list_eq, if◌then◌else◌, or_throw-some, ok_pair,
}
use muscle.Prelude.Dict.{erase, lookup}
use muscle.Identity.{Reference, part_eq}
use muscle.Post.{
  return_pipe, Outbox, Pipe, PostOffice, retrieve, get_outbox, store, get_response, int_eq,
  return_notification_fd,
}
use muscle.Post.Queue.{retrieve-nil, waiting, retrieve-cons}
use muscle.Post.Calls.{given_to, queued}
use muscle.Post.Serve.{queued-insert, waiting-get_outbox, handed_one, waiting-return_fd}

module _ {M : Type 0} where
  abbrev answered :
      PostOffice M → ℤ → Reference → ℤ → M × Outbox M → Result Error (M × PostOffice M)
  answered s1 fd r sending_fd (m, o) =
      ok (m, return_pipe (record { sending_fd = sending_fd; receiving_fd = fd }) (store r o s1))

  abbrev without_pending : ℤ → PostOffice M → PostOffice M
  without_pending fd s = record s { pending_outboxes = erase fd s.pending_outboxes }

  abbrev pub waiter : ℤ → Reference → PostOffice M → ℤ × Outbox M
  waiter fd r s = return_notification_fd (get_outbox r (without_pending fd s))

  abbrev pub answer : PostOffice M → ℤ → Reference → Result Error (M × PostOffice M)
  answer s fd r =
      retrieve (waiter fd r s).1 >>= answered (without_pending fd s) fd r (waiter fd r s).0

  waiting-waiter :
      (fd : ℤ) (r : Reference) (s : PostOffice M) → waiting (waiter fd r s).1 ≡ queued s r
  waiting-waiter fd r s =
      waiting-return_fd (get_outbox r (without_pending fd s))
      ∙ waiting-get_outbox s (without_pending fd s) r refl

  pub answer-given :
      (k : Reference) (fd : ℤ) (r : Reference) (s s' : PostOffice M) (m : M) (w : List M)
      → waiting (waiter fd r s).1 ≡ w
      → answer s fd r ≡ ok (m, s')
      → given_to k ((r, m) ∷ []) ++ queued s' k ≡ queued s k
  answer-given k fd r s s' m [] h e = cc (
      ap (λ x. x >>= answered (without_pending fd s) fd r (waiter fd r s).0)
        (retrieve-nil (waiter fd r s).1 h))
  answer-given k fd r s s' m (first ∷ rest) h e =
      let (o, e1, e2) = retrieve-cons (waiter fd r s).1 first rest h in
      let (x, y) =
        ok_pair
          (sym (ap (λ x. x >>= answered (without_pending fd s) fd r (waiter fd r s).0) e1) ∙ e) in
      let s2 =
        return_pipe (record { sending_fd = (waiter fd r s).0; receiving_fd = fd })
          (store r o (without_pending fd s)) in
      subst (λ z. given_to k ((r, z) ∷ []) ++ queued s' k ≡ queued s k) x
        (subst (λ z. given_to k ((r, first) ∷ []) ++ queued z k ≡ queued s k) y
          (handed_one k r first rest s s2 (sym (waiting-waiter fd r s) ∙ h) (
            queued-insert r k o s s2 (unfold return_pipe in refl)
            ∙ ap (λ v. if r == k then v else queued s k) e2)))

  return_pipe-pending :
      (p : Pipe) (s : PostOffice M) → (return_pipe p s).pending_outboxes ≡ s.pending_outboxes
  unfolding return_pipe
  return_pipe-pending p s = refl

  -- A response is for the receiver that was noted, which is noted no more.
  pub get_response-pending :
      (fd : ℤ) (s s' : PostOffice M) (m : M)
      → get_response fd s ≡ ok (m, s')
      → (r : Reference) × (lookup fd s.pending_outboxes ≡ some r)
        × (answer s fd r ≡ ok (m, s'))
        × (s'.pending_outboxes ≡ erase fd s.pending_outboxes)
  unfolding get_response
  get_response-pending fd s s' m h =
      let (r, e0, e1) =
        >>=-eq-ok (or_throw (lookup fd s.pending_outboxes) undefined) (answer s fd) h in
      let ((m', o), e2, e3) =
        >>=-eq-ok (retrieve (waiter fd r s).1)
          (answered (without_pending fd s) fd r (waiter fd r s).0) e1 in
      let (x, y) = ok_pair e3 in
      (
        r,
        or_throw-some (lookup fd s.pending_outboxes) undefined r e0,
        e1,
        ap (λ (z : PostOffice M). z.pending_outboxes) (sym y)
            ∙ return_pipe-pending (record { sending_fd = (waiter fd r s).0; receiving_fd = fd })
                (store r o (without_pending fd s)),
      )
