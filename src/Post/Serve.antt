-- ===== src/Post/Serve.antt =====
-- What a request does to the messages that wait: one of them is given out, or none is.
use muscle.Prelude.{
  ◌≡◌, refl, ap, sym, subst, ◌∙◌, Bool, true, false, List, [], ◌∷◌, ◌++◌, Option, none, some,
  get_last?, drop_last, Result, ok, ◌>>=◌, >>=-eq-ok, or_throw, Error, runtime_error, ℤ, ◌==◌,
  list_eq, eq_iff, if◌then◌else◌, Bool-cases, inl, inr, ok_pair,
}
use muscle.Prelude.Dict.{lookup, insert, lookup-insert}
use muscle.Identity.{Reference, part_eq}
use muscle.Post.{
  Outbox, Pipe, PostOffice, Response, ready, wait_on, new_outbox, is_empty, retrieve, get_outbox,
  store, get_pipe, register, serve, int_eq, set_notification_fd, return_notification_fd,
}
use muscle.Post.Queue.{waiting, waiting-new, retrieve-cons, is_empty-cons}
use muscle.Post.Calls.{given, noted, given_to, queued}

module _ {M : Type 0} where
  -- The outboxes alone decide what waits for a receiver.
  abbrev pub of_entry : Option (Outbox M) → List M
  of_entry none = []
  of_entry (some o) = waiting o

  pub queued-entry :
      (s : PostOffice M) (r : Reference) → queued s r ≡ of_entry (lookup r s.outboxes)
  unfolding queued
  queued-entry s r = by_entry (lookup r s.outboxes)
    where
      by_entry :
          (e : Option (Outbox M)) → waiting (elim e [ none ↦ new_outbox | some o ↦ o ]) ≡ of_entry e
      by_entry none = waiting-new
      by_entry (some o) = refl

  pub queued-insert :
      (r k : Reference) (o : Outbox M) (s s' : PostOffice M)
      → s'.outboxes ≡ insert r o s.outboxes
      → queued s' k ≡ (if r == k then waiting o else queued s k)
  queued-insert r k o s s' h =
      queued-entry s' k
      ∙ ap (λ os. of_entry (lookup k os)) h
      ∙ ap of_entry (lookup-insert r k o s.outboxes)
      ∙ by_test (r == k)
    where
      by_test :
          (b : Bool)
          → of_entry (if b then some o else lookup k s.outboxes)
            ≡ (if b then waiting o else queued s k)
      by_test true = refl
      by_test false = sym (queued-entry s k)

  pub waiting-get_outbox :
      (s s' : PostOffice M) (r : Reference)
      → s'.outboxes ≡ s.outboxes
      → waiting (get_outbox r s') ≡ queued s r
  waiting-get_outbox s s' r h =
      shut s' r ∙ queued-entry s' r ∙ ap (λ os. of_entry (lookup r os)) h ∙ sym (queued-entry s r)
    where
      shut : (s : PostOffice M) (r : Reference) → waiting (get_outbox r s) ≡ queued s r
      shut s r = unfold queued in refl

  -- A receiver is given the first message, or none, and the rest stays; nothing else changes.
  pub handed_one :
      (k r : Reference) (m : M) (rest : List M) (s s' : PostOffice M)
      → queued s r ≡ m ∷ rest
      → queued s' k ≡ (if r == k then rest else queued s k)
      → given_to k ((r, m) ∷ []) ++ queued s' k ≡ queued s k
  unfolding given_to
  handed_one k r m rest s s' h e = elim (Bool-cases (r == k)) [
    | inl t ↦
        let same : r ≡ k = (eq_iff r k).0 t in
        rw t (ap (◌∷◌ m) (e ∙ rw t) ∙ sym h ∙ ap (queued s) same)
    | inr t ↦ rw t (e ∙ rw t)
  ]

  pub handed_none :
      (k r : Reference) (s s' : PostOffice M)
      → queued s' k ≡ (if r == k then queued s r else queued s k)
      → queued s' k ≡ queued s k
  handed_none k r s s' e = elim (Bool-cases (r == k)) [
    | inl t ↦ e ∙ rw t (ap (queued s) ((eq_iff r k).0 t))
    | inr t ↦ e ∙ rw t
  ]

  get_pipe-outboxes :
      (fresh : Option Pipe) (s s' : PostOffice M) (p : Pipe)
      → get_pipe fresh s ≡ ok (p, s')
      → s'.outboxes ≡ s.outboxes
  unfolding get_pipe
  get_pipe-outboxes fresh s s' p h = by_pipe (get_last? s.pipes) fresh h
    where
      by_pipe :
          (o f : Option Pipe)
          → ◌≡◌ {A = Result Error (Pipe × PostOffice M)}
              (elim o [
                | none ↦ or_throw f runtime_error >>= λ p. ok (p, s)
                | some p ↦ ok (p, record s { pipes = drop_last s.pipes })
              ])
              (ok (p, s'))
          → s'.outboxes ≡ s.outboxes
      by_pipe none none h = cc
      by_pipe none (some f) h =
          let (q, e) = ok_pair h in ap (λ (x : PostOffice M). x.outboxes) (sym e)
      by_pipe (some q) f h = let (q, e) = ok_pair h in ap (λ (x : PostOffice M). x.outboxes) (sym e)

  waiting-set_fd : (fd : ℤ) (o : Outbox M) → waiting (set_notification_fd fd o) ≡ waiting o
  unfolding waiting set_notification_fd
  waiting-set_fd fd o = refl

  pub waiting-return_fd : (o : Outbox M) → waiting (return_notification_fd o).1 ≡ waiting o
  unfolding waiting return_notification_fd
  waiting-return_fd o = refl

  register-outboxes :
      (r : Reference) (p : Pipe) (s : PostOffice M)
      → (register r p s).outboxes
        ≡ insert r (set_notification_fd p.sending_fd (get_outbox r s)) s.outboxes
  unfolding register
  register-outboxes r p s = refl

  register-queued :
      (k r : Reference) (p : Pipe) (s s1 : PostOffice M)
      → s1.outboxes ≡ s.outboxes
      → queued (register r p s1) k ≡ queued s k
  register-queued k r p s s1 h = handed_none k r s (register r p s1) (
      queued-insert r k (set_notification_fd p.sending_fd (get_outbox r s1)) s1 (register r p s1)
        (register-outboxes r p s1)
      ∙ ap (λ w. if r == k then w else queued s1 k)
          (waiting-set_fd p.sending_fd (get_outbox r s1) ∙ waiting-get_outbox s s1 r h)
      ∙ ap (λ w. if r == k then queued s r else w)
          (queued-entry s1 k ∙ ap (λ os. of_entry (lookup k os)) h ∙ sym (queued-entry s k)))

  abbrev registered : Reference → Pipe × PostOffice M → Result Error (Response M × PostOffice M)
  registered r (pipe, s) = ok (wait_on pipe.receiving_fd, register r pipe s)

  abbrev handed : Reference → PostOffice M → M × Outbox M → Result Error (Response M × PostOffice M)
  handed r s (m, o) = ok (ready m, store r o s)

  serve-empty :
      (r : Reference) (fresh : Option Pipe) (s : PostOffice M)
      → is_empty (get_outbox r s) ≡ true
      → serve r fresh s ≡ (get_pipe fresh s >>= registered r)
  serve-empty r fresh s h =
      unfold serve in
      ap
        (λ b.
          if b
          then get_pipe fresh s >>= registered r
          else (retrieve (get_outbox r s) >>= handed r s))
        h

  pub serve-cons :
      (r : Reference) (fresh : Option Pipe) (s : PostOffice M) (m : M) (o' : Outbox M)
      → is_empty (get_outbox r s) ≡ false
      → retrieve (get_outbox r s) ≡ ok (m, o')
      → serve r fresh s ≡ ok (ready m, store r o' s)
  serve-cons r fresh s m o' h k =
      unfold serve in
      (ap
          (λ b.
            if b
            then get_pipe fresh s >>= registered r
            else (retrieve (get_outbox r s) >>= handed r s))
          h
        ∙ ap (λ x. x >>= handed r s) k)

  register-pending :
      (r : Reference) (p : Pipe) (s : PostOffice M)
      → (register r p s).pending_outboxes ≡ insert p.receiving_fd r s.pending_outboxes
  unfolding register
  register-pending r p s = refl

  get_pipe-pending :
      (fresh : Option Pipe) (s s' : PostOffice M) (p : Pipe)
      → get_pipe fresh s ≡ ok (p, s')
      → s'.pending_outboxes ≡ s.pending_outboxes
  unfolding get_pipe
  get_pipe-pending fresh s s' p h = by_pipe (get_last? s.pipes) fresh h
    where
      by_pipe :
          (o f : Option Pipe)
          → ◌≡◌ {A = Result Error (Pipe × PostOffice M)}
              (elim o [
                | none ↦ or_throw f runtime_error >>= λ p. ok (p, s)
                | some p ↦ ok (p, record s { pipes = drop_last s.pipes })
              ])
              (ok (p, s'))
          → s'.pending_outboxes ≡ s.pending_outboxes
      by_pipe none none h = cc
      by_pipe none (some f) h =
          let (q, e) = ok_pair h in ap (λ (x : PostOffice M). x.pending_outboxes) (sym e)
      by_pipe (some q) f h =
          let (q, e) = ok_pair h in ap (λ (x : PostOffice M). x.pending_outboxes) (sym e)

  -- The post office notes who waits as the connections do.
  pub serve-pending :
      (r : Reference) (fresh : Option Pipe) (s s' : PostOffice M) (response : Response M)
      → serve r fresh s ≡ ok (response, s')
      → s'.pending_outboxes ≡ noted r response s.pending_outboxes
  serve-pending r fresh s s' response h = elim (Bool-cases (is_empty (get_outbox r s))) [
    | inl t ↦
        let ((pipe, s1), e1, e2) =
          >>=-eq-ok (get_pipe fresh s) (registered r) (sym (serve-empty r fresh s t) ∙ h) in
        let (x, y) = ok_pair e2 in
        ap (λ (z : PostOffice M). z.pending_outboxes) (sym y)
        ∙ register-pending r pipe s1
        ∙ ap (insert pipe.receiving_fd r) (get_pipe-pending fresh s s1 pipe e1)
        ∙ ap (λ z. noted r z s.pending_outboxes) x
    | inr t ↦
        let (m, rest, e1) = is_empty-cons (get_outbox r s) t in
        let (o', e2, e3) = retrieve-cons (get_outbox r s) m rest e1 in
        let (x, y) = ok_pair (sym (serve-cons r fresh s m o' t e2) ∙ h) in
        ap (λ (z : PostOffice M). z.pending_outboxes) (sym y)
        ∙ ap (λ z. noted r z s.pending_outboxes) x
  ]

  pub serve-given :
      (k r : Reference) (fresh : Option Pipe) (s s' : PostOffice M) (response : Response M)
      → serve r fresh s ≡ ok (response, s')
      → given_to k (given r response) ++ queued s' k ≡ queued s k
  serve-given k r fresh s s' response h = elim (Bool-cases (is_empty (get_outbox r s))) [
    | inl t ↦
        let ((pipe, s1), e1, e2) =
          >>=-eq-ok (get_pipe fresh s) (registered r) (sym (serve-empty r fresh s t) ∙ h) in
        let (x, y) = ok_pair e2 in
        subst (λ z. given_to k (given r z) ++ queued s' k ≡ queued s k) x
          (unfold given_to in
            subst (λ z. queued z k ≡ queued s k) y
              (register-queued k r pipe s s1 (get_pipe-outboxes fresh s s1 pipe e1)))
    | inr t ↦
        let (m, rest, e1) = is_empty-cons (get_outbox r s) t in
        let (o', e2, e3) = retrieve-cons (get_outbox r s) m rest e1 in
        let (x, y) = ok_pair (sym (serve-cons r fresh s m o' t e2) ∙ h) in
        subst (λ z. given_to k (given r z) ++ queued s' k ≡ queued s k) x
          (subst (λ z. given_to k ((r, m) ∷ []) ++ queued z k ≡ queued s k) y
            (handed_one k r m rest s (store r o' s) (sym (waiting-get_outbox s s r refl) ∙ e1) (
              queued-insert r k o' s (store r o' s) refl
              ∙ ap (λ w. if r == k then w else queued s k) e3)))
  ]
