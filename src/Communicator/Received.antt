-- ===== src/Communicator/Received.antt =====
-- Which of the messages that come is returned by a receive, and which one may be discarded.
use muscle.Prelude.{
  ◌≡◌, refl, ap, sym, subst, ◌∙◌, Bool, true, false, Option, none, some, Result, ok, err, ◌>>=◌,
  >>=-eq-ok, ok_pair, Error, runtime_error, ℤ, suc_ℤ, pred_ℤ, eqb_ℤ, eqb_ℤ_iff, if◌then◌else◌,
  Bool-cases, inl, inr, ◌⊎◌,
}
use muscle.Port.{Port, set_length, set_closed, is_resuming, set_resumed, increment_num_messages}
use muscle.Port.Reach.{unless_thrown}
use muscle.Port.Slots.{
  HasCount, increment-HasCount, set_resumed-HasCount, set_closed-HasCount, set_length-HasCount,
}
use muscle.Communicator.{Payload, Message, MppMessage, is_close_port}
use muscle.Communicator.Receiving.{follow_length, follow_close, discard, received, accept}

unless_thrown-pair :
    (x : Result Error (Unit {0}) × Port) (q : Port) → unless_thrown x ≡ ok q → x ≡ (ok tt, q)
unless_thrown-pair (ok tt, p) q h = let e : p ≡ q = cc in ap (λ y. (ok tt, y)) e
unless_thrown-pair (err e, p) q h = cc

pub follow_length-HasCount :
    (len : Option ℤ) (slot : Option ℤ) (p q : Port) (n : ℤ) (b : Bool)
    → follow_length len p ≡ ok q
    → HasCount slot p n b
    → HasCount slot q n b
unfolding follow_length
follow_length-HasCount none slot p q n b h c =
    let e : p ≡ q = cc in subst (λ x. HasCount slot x n b) e c
follow_length-HasCount (some len) slot p q n b h c = elim (Bool-cases p.is_resizable) [
  | inl t ↦
      set_length-HasCount len slot p q n b
        (unless_thrown-pair (set_length len p) q
          (sym (ap (λ r. if r then unless_thrown (set_length len p) else ok p) t) ∙ h))
        c
  | inr t ↦
      let e : p ≡ q =
        cc (sym (ap (λ r. if r then unless_thrown (set_length len p) else ok p) t) ∙ h) in
      subst (λ x. HasCount slot x n b) e c
]

follow_close-HasCount :
    {D : Type 0} (data_ : Payload D) (slot : Option ℤ) (p q : Port) (n : ℤ) (b : Bool)
    → follow_close data_ slot p ≡ ok q
    → HasCount slot p n b
    → HasCount slot q n b
unfolding follow_close
follow_close-HasCount data_ slot p q n b h c = by_sign (is_close_port data_) h
  where
    by_sign : (t : Bool) → (if t then set_closed slot p else ok p) ≡ ok q → HasCount slot q n b
    by_sign true h = set_closed-HasCount slot p q n b h c
    by_sign false h = let e : p ≡ q = cc in subst (λ x. HasCount slot x n b) e c

-- A discard needs a slot that is resuming, and the number before the expected one.
discard-HasCount :
    (slot : Option ℤ) (n number : ℤ) (p q : Port) (b : Bool)
    → HasCount slot p n b
    → discard slot n number p ≡ ok q
    → (b ≡ true) × (number ≡ pred_ℤ n) × HasCount slot q n false
unfolding discard
discard-HasCount slot n number p q b c h =
    by_number (eqb_ℤ (pred_ℤ n) number) (λ t. (eqb_ℤ_iff (pred_ℤ n) number).0 t) h
  where
    by_flag :
        (b : Bool)
        → HasCount slot p n b
        → (if b then set_resumed slot p else err runtime_error) ≡ ok q
        → (b ≡ true) × HasCount slot q n false
    by_flag true c h =
        let (q', e, c') = set_resumed-HasCount slot p n true c in
        let same : q' ≡ q = cc in (refl, subst (λ x. HasCount slot x n false) same c')
    by_flag false c h = cc

    by_number :
        (t : Bool)
        → (t ≡ true → pred_ℤ n ≡ number)
        → (if t
            then (is_resuming slot p >>= λ r. if r then set_resumed slot p else err runtime_error)
            else err runtime_error)
          ≡ ok q
        → (b ≡ true) × (number ≡ pred_ℤ n) × HasCount slot q n false
    by_number false same h = cc
    by_number true same h =
        let (t, c') = by_flag b c (
          sym (ap (λ x. x >>= λ r. if r then set_resumed slot p else err runtime_error) c.1) ∙ h) in
        (t, sym (same refl), c')

-- What becomes of a message that came, on a slot with the count `n`.
abbrev pub Verdict :
    {T S D : Type 0}
    → Option ℤ
    → MppMessage T S D
    → ℤ
    → Bool
    → Option (Message T S D)
    → Port
    → Type 0
Verdict slot m n b r q =
    ((m.message_number ≡ n) × (r ≡ some (received m)) × HasCount slot q (suc_ℤ n) false)
    ⊎ ((b ≡ true) × (m.message_number ≡ pred_ℤ n) × (r ≡ none) × HasCount slot q n false)

module _ {T S D : Type 0} where
  abbrev pub judged :
      Option ℤ → MppMessage T S D → Port → ℤ → Result Error (Option (Message T S D) × Port)
  judged slot m port expected =
      if eqb_ℤ expected m.message_number
      then (increment_num_messages slot port >>= λ port'. ok (some (received m), port'))
      else (discard slot expected m.message_number port >>= λ port'. ok (none, port'))

  judged-Verdict :
      (slot : Option ℤ) (m : MppMessage T S D) (port : Port) (n : ℤ) (b : Bool)
      (r : Option (Message T S D)) (q : Port)
      → HasCount slot port n b
      → judged slot m port n ≡ ok (r, q)
      → Verdict slot m n b r q
  judged-Verdict slot m port n b r q c h =
      by_number (eqb_ℤ n m.message_number) (λ t. (eqb_ℤ_iff n m.message_number).0 t) h
    where
      by_number :
          (t : Bool)
          → (t ≡ true → n ≡ m.message_number)
          → ◌≡◌ {A = Result Error (Option (Message T S D) × Port)}
              (if t
                then (increment_num_messages slot port >>= λ port'. ok (some (received m), port'))
                else (discard slot n m.message_number port >>= λ port'. ok (none, port')))
              (ok (r, q))
          → Verdict slot m n b r q
      by_number true same h =
          let (q', e, c') = increment-HasCount slot port n b c in
          let (x, y) =
            ok_pair {A = Option (Message T S D)} {B = Port}
              (sym (ap (λ w. w >>= λ port'. ok (some (received m), port')) e) ∙ h) in
          inl (sym (same refl), sym x, subst (λ p. HasCount slot p (suc_ℤ n) false) y c')
      by_number false same h =
          let (q', e, k) =
            >>=-eq-ok {B = Option (Message T S D) × Port} (discard slot n m.message_number port) _
              h in
          let (x, y) = ok_pair {A = Option (Message T S D)} {B = Port} k in
          let (t, number, c') = discard-HasCount slot n m.message_number port q' b c e in
          inr (t, number, sym x, subst (λ p. HasCount slot p n false) y c')

  pub accept-Verdict :
      (slot : Option ℤ) (m : MppMessage T S D) (port : Port) (n : ℤ) (b : Bool)
      (r : Option (Message T S D)) (q : Port)
      → HasCount slot port n b
      → accept slot m port ≡ ok (r, q)
      → Verdict slot m n b r q
  unfolding accept
  accept-Verdict slot m port n b r q c h =
      let (p1, e1, k1) =
        >>=-eq-ok {B = Option (Message T S D) × Port} (follow_length m.port_length port) _ h in
      let (p2, e2, k2) =
        >>=-eq-ok {B = Option (Message T S D) × Port} (follow_close m.data_ slot p1) _ k1 in
      let c2 =
        follow_close-HasCount m.data_ slot p1 p2 n b e2
          (follow_length-HasCount m.port_length slot port p1 n b e1 c) in
      judged-Verdict slot m p2 n b r q c2 (sym (ap (λ x. x >>= judged slot m p2) c2.0) ∙ k2)
