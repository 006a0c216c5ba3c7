-- ===== src/Post/Delivery.antt =====
-- Whatever the calls, each receiver is given the messages that were deposited for it, each once and
-- in the order of the deposits.
use mathlib.Core.List.{append_assoc, append-nil}
use muscle.Prelude.{
  ◌≡◌, refl, ap, sym, subst, ◌∙◌, Bool, true, false, List, [], ◌∷◌, ◌++◌, Option, none, some,
  Result, ok, ◌>>=◌, >>=-eq-ok, or_throw, Error, undefined, ℤ, ◌==◌, list_eq, eq_iff, if◌then◌else◌,
  Bool-cases, inl, inr, or_throw-some,
}
use muscle.Prelude.Dict.{Dict, erase, lookup, lookup-insert, lookup-erase}
use muscle.Identity.{Reference, part_eq}
use muscle.Post.{
  put, Pipe, PostOffice, Response, ready, wait_on, get_outbox, serve, get_response, deposit, int_eq,
}
use muscle.Post.Queue.{waiting-put, waiting}
use muscle.Post.Calls.{
  Call, After, deposits, requests, responds, given, noted, step, run, given_to, deposited_for,
  queued,
}
use muscle.Post.Serve.{queued-insert, waiting-get_outbox, serve-given, serve-pending}
use muscle.Post.Answers.{waiter, answer-given, get_response-pending}

module _ {M : Type 0} where
  given_to-append :
      (k : Reference) (xs ys : List (Reference × M))
      → given_to k (xs ++ ys) ≡ given_to k xs ++ given_to k ys
  unfolding given_to
  given_to-append k [] ys = refl
  given_to-append k ((r, m) ∷ xs) ys = elim (Bool-cases (r == k)) [
    | inl t ↦ rw t (ap (◌∷◌ m) (given_to-append k xs ys))
    | inr t ↦ rw t (given_to-append k xs ys)
  ]

  -- A deposit is put behind what waits for its receiver, and for no other.
  pub queued-deposit :
      (r k : Reference) (m : M) (s : PostOffice M)
      → queued (deposit r m s).0 k ≡ (if r == k then queued s k ++ m ∷ [] else queued s k)
  queued-deposit r k m s =
      queued-insert r k (put m (get_outbox r s)).0 s (deposit r m s).0 (unfold deposit in refl)
      ∙ by_test (r == k) (λ t. (eq_iff r k).0 t)
    where
      by_test :
          (b : Bool)
          → (b ≡ true → r ≡ k)
          → (if b then waiting (put m (get_outbox r s)).0 else queued s k)
            ≡ (if b then queued s k ++ m ∷ [] else queued s k)
      by_test true h =
          waiting-put m (get_outbox r s)
          ∙ ap (λ w. w ++ m ∷ []) (waiting-get_outbox s s r refl ∙ ap (queued s) (h refl))
      by_test false h = refl

  Given : Reference → Call M → PostOffice M → After M → Type 0
  Given k c s (s', asked', out) =
      given_to k out ++ queued s' k ≡ queued s k ++ deposited_for k (c ∷ [])

  -- Who the post office has noted to wait is who waits.
  abbrev pub Agree : PostOffice M → Dict ℤ Reference → Type 0
  Agree s asked =
      (fd : ℤ) (r : Reference) → lookup fd s.pending_outboxes ≡ some r → lookup fd asked ≡ some r

  abbrev AgreeAfter : After M → Type 0
  AgreeAfter (s, asked, out) = Agree s asked

  Agree-noted :
      (r : Reference) (response : Response M) (s s' : PostOffice M) (asked : Dict ℤ Reference)
      → s'.pending_outboxes ≡ noted r response s.pending_outboxes
      → Agree s asked
      → Agree s' (noted r response asked)
  Agree-noted r (ready m) s s' asked e g fd k h = g fd k (ap (lookup fd) (sym e) ∙ h)
  Agree-noted r (wait_on new) s s' asked e g fd k h =
      lookup-insert new fd r asked
      ∙ by_test (new == fd)
          (sym (lookup-insert new fd r s.pending_outboxes) ∙ ap (lookup fd) (sym e) ∙ h)
    where
      by_test :
          (b : Bool)
          → (if b then some r else lookup fd s.pending_outboxes) ≡ some k
          → (if b then some r else lookup fd asked) ≡ some k
      by_test true q = q
      by_test false q = g fd k q

  Agree-erase :
      (gone : ℤ) (s s' : PostOffice M) (asked : Dict ℤ Reference)
      → s'.pending_outboxes ≡ erase gone s.pending_outboxes
      → Agree s asked
      → Agree s' asked
  Agree-erase gone s s' asked e g fd k h =
      by_test (gone == fd)
        (sym (lookup-erase gone fd s.pending_outboxes) ∙ ap (lookup fd) (sym e) ∙ h)
    where
      by_test :
          (b : Bool)
          → (if b then none else lookup fd s.pending_outboxes) ≡ some k
          → lookup fd asked ≡ some k
      by_test true q = cc
      by_test false q = g fd k q

  step-deposits :
      (r : Reference) (m : M) (s : PostOffice M) (asked : Dict ℤ Reference)
      → step (deposits r m) s asked ≡ ok ((deposit r m s).0, asked, [])
  unfolding step
  step-deposits r m s asked = refl

  abbrev served : Reference → Dict ℤ Reference → Response M × PostOffice M → Result Error (After M)
  served r asked (response, s) = ok (s, noted r response asked, given r response)

  step-requests :
      (r : Reference) (fresh : Option Pipe) (s : PostOffice M) (asked : Dict ℤ Reference)
      → step (requests r fresh) s asked ≡ (serve r fresh s >>= served r asked)
  unfolding step
  step-requests r fresh s asked = refl

  abbrev responded : Dict ℤ Reference → Reference → M × PostOffice M → Result Error (After M)
  responded asked r (m, s) = ok (s, asked, (r, m) ∷ [])

  step-responds :
      (fd : ℤ) (s : PostOffice M) (asked : Dict ℤ Reference)
      → step (responds fd) s asked
        ≡ (or_throw (lookup fd asked) undefined >>= λ r. get_response fd s >>= responded asked r)
  unfolding step
  step-responds fd s asked = refl

  deposits-Given :
      (r k : Reference) (m : M) (s : PostOffice M) (asked : Dict ℤ Reference)
      → Given k (deposits r m) s ((deposit r m s).0, asked, [])
  unfolding Given given_to deposited_for
  deposits-Given r k m s asked = elim (Bool-cases (r == k)) [
    | inl t ↦ queued-deposit r k m s ∙ rw t
    | inr t ↦ queued-deposit r k m s ∙ rw t (sym (append-nil (queued s k)))
  ]

  deposits-Agree :
      (r : Reference) (m : M) (s : PostOffice M) (asked : Dict ℤ Reference)
      → Agree s asked
      → Agree (deposit r m s).0 asked
  unfolding deposit
  deposits-Agree r m s asked g = g

  unchanged-Given :
      (k : Reference) (c : Call M) (s s' : PostOffice M) (asked' : Dict ℤ Reference)
      (out : List (Reference × M))
      → deposited_for k (c ∷ []) ≡ []
      → given_to k out ++ queued s' k ≡ queued s k
      → Given k c s (s', asked', out)
  unfolding Given
  unchanged-Given k c s s' asked' out h e =
      e ∙ sym (ap (λ l. queued s k ++ l) h ∙ append-nil (queued s k))

  after_eq : (x y : After M) → ◌≡◌ {A = Result Error (After M)} (ok x) (ok y) → x ≡ y
  after_eq x y h = cc

  abbrev Goes : Reference → Call M → PostOffice M → After M → Type 0
  Goes k c s x = Given k c s x × AgreeAfter x

  step-Goes :
      (c : Call M) (k : Reference) (s : PostOffice M) (asked : Dict ℤ Reference) (x : After M)
      → Agree s asked
      → step c s asked ≡ ok x
      → Goes k c s x
  step-Goes (deposits r m) k s asked x g h =
      subst (Goes k (deposits r m) s)
        (after_eq ((deposit r m s).0, asked, []) x (sym (step-deposits r m s asked) ∙ h))
        (deposits-Given r k m s asked, deposits-Agree r m s asked g)
  step-Goes (requests r fresh) k s asked x g h =
      let ((response, s1), e1, e2) =
        >>=-eq-ok (serve r fresh s) (served r asked) (sym (step-requests r fresh s asked) ∙ h) in
      subst (Goes k (requests r fresh) s)
        (after_eq (s1, noted r response asked, given r response) x e2)
        (
          unchanged-Given k (requests r fresh) s s1 (noted r response asked) (given r response)
              (unfold deposited_for in refl) (serve-given k r fresh s s1 response e1),
          Agree-noted r response s s1 asked (serve-pending r fresh s s1 response e1) g,
        )
  step-Goes (responds fd) k s asked x g h =
      let (r, e0, e1) =
        >>=-eq-ok (or_throw (lookup fd asked) undefined)
          (λ r. get_response fd s >>= responded asked r) (sym (step-responds fd s asked) ∙ h) in
      let ((m, s1), e2, e3) = >>=-eq-ok (get_response fd s) (responded asked r) e1 in
      let (noted_r, pending, answers, erased) = get_response-pending fd s s1 m e2 in
      let same : noted_r ≡ r =
        some_eq noted_r r
          (sym (g fd noted_r pending) ∙ or_throw-some (lookup fd asked) undefined r e0) in
      subst (Goes k (responds fd) s) (after_eq (s1, asked, (r, m) ∷ []) x e3) (
        unchanged-Given k (responds fd) s s1 asked ((r, m) ∷ []) (unfold deposited_for in refl) (
            subst (λ z. given_to k ((z, m) ∷ []) ++ queued s1 k ≡ queued s k) same
              (answer-given k fd noted_r s s1 m (waiting (waiter fd noted_r s).1) refl answers)),
        Agree-erase fd s s1 asked erased g,
      )
    where
      some_eq : (a b : Reference) → ◌≡◌ {A = Option Reference} (some a) (some b) → a ≡ b
      some_eq a b q = cc

  deposited_for-cons :
      (k : Reference) (c : Call M) (cs : List (Call M))
      → deposited_for k (c ∷ cs) ≡ deposited_for k (c ∷ []) ++ deposited_for k cs
  unfolding deposited_for
  deposited_for-cons k (deposits r m) cs = elim (Bool-cases (r == k)) [
    | inl t ↦ rw t
    | inr t ↦ rw t
  ]
  deposited_for-cons k (requests r fresh) cs = refl
  deposited_for-cons k (responds fd) cs = refl

  regroup :
      (a b c d e f : List M) (g : List M)
      → b ++ c ≡ d ++ e
      → a ++ d ≡ f ++ g
      → (a ++ b) ++ c ≡ f ++ (g ++ e)
  regroup a b c d e f g h k =
      append_assoc a b c
      ∙ ap (λ l. a ++ l) h
      ∙ sym (append_assoc a d e)
      ∙ ap (λ l. l ++ e) k
      ∙ append_assoc f g e

  Given-eq :
      (k : Reference) (c : Call M) (s s' : PostOffice M) (asked' : Dict ℤ Reference)
      (out : List (Reference × M))
      → Given k c s (s', asked', out)
      → given_to k out ++ queued s' k ≡ queued s k ++ deposited_for k (c ∷ [])
  unfolding Given
  Given-eq k c s s' asked' out h = h

  abbrev joined : List (Reference × M) → After M → Result Error (After M)
  joined out (s, asked, more) = ok (s, asked, out ++ more)

  abbrev run_rest : List (Call M) → After M → Result Error (After M)
  run_rest cs (s, asked, out) = run cs s asked >>= joined out

  run-nil : (s : PostOffice M) (asked : Dict ℤ Reference) → run [] s asked ≡ ok (s, asked, [])
  unfolding run
  run-nil s asked = refl

  run-cons :
      (c : Call M) (cs : List (Call M)) (s : PostOffice M) (asked : Dict ℤ Reference)
      → run (c ∷ cs) s asked ≡ (step c s asked >>= run_rest cs)
  unfolding run
  run-cons c cs s asked = refl

  AllGiven : Reference → List (Call M) → PostOffice M → After M → Type 0
  AllGiven k cs s (s', asked', out) =
      given_to k out ++ queued s' k ≡ queued s k ++ deposited_for k cs

  run-AllGiven :
      (cs : List (Call M)) (k : Reference) (s : PostOffice M) (asked : Dict ℤ Reference)
      (x : After M)
      → Agree s asked
      → run cs s asked ≡ ok x
      → AllGiven k cs s x
  unfolding AllGiven
  run-AllGiven [] k s asked x g h =
      subst (AllGiven k [] s) (after_eq (s, asked, []) x (sym (run-nil s asked) ∙ h))
        (unfold given_to deposited_for in sym (append-nil (queued s k)))
  run-AllGiven (c ∷ cs) k s asked x g h =
      let ((s1, asked1, out1), e1, e2) =
        >>=-eq-ok (step c s asked) (run_rest cs) (sym (run-cons c cs s asked) ∙ h) in
      let ((s2, asked2, more), e3, e4) = >>=-eq-ok (run cs s1 asked1) (joined out1) e2 in
      let (given_, g1) = step-Goes c k s asked (s1, asked1, out1) g e1 in
      subst (AllGiven k (c ∷ cs) s) (after_eq (s2, asked2, out1 ++ more) x e4) (
        ap (λ l. l ++ queued s2 k) (given_to-append k out1 more)
        ∙ regroup (given_to k out1) (given_to k more) (queued s2 k) (queued s1 k)
            (deposited_for k cs) (queued s k) (deposited_for k (c ∷ []))
            (run-AllGiven cs k s1 asked1 (s2, asked2, more) g1 e3)
            (Given-eq k c s s1 asked1 out1 given_)
        ∙ ap (λ l. queued s k ++ l) (sym (deposited_for-cons k c cs)))

  -- Whatever the deposits, requests and responses, in whatever order, where the post office has noted at
  -- first whom the connections wait for: what a receiver was given, at once or on the connection that
  -- has asked for it, and then what still waits for it, is what waited for it at first and then what was
  -- deposited for it. So nothing is lost, repeated, reordered, or given to another receiver.
  pub run-given :
      (cs : List (Call M)) (k : Reference) (s s' : PostOffice M) (asked asked' : Dict ℤ Reference)
      (out : List (Reference × M))
      → Agree s asked
      → run cs s asked ≡ ok (s', asked', out)
      → given_to k out ++ queued s' k ≡ queued s k ++ deposited_for k cs
  unfolding AllGiven
  run-given cs k s s' asked asked' out g h = run-AllGiven cs k s asked (s', asked', out) g h
