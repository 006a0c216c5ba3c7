-- ===== src/Communicator/Returns.antt =====
-- Receives do return: where the messages that come are in order, none of them throws.
use muscle.Prelude.{
  ℕ, ◌≡◌, refl, ap, sym, ◌∙◌, Bool, true, false, not, List, [], ◌∷◌, ◌++◌, map, Option, none, some,
  ok, err, ◌>>=◌, runtime_error, ℤ, pos, negsuc, suc_ℤ, eqb_ℤ, eqb_ℤ_iff, Bool-cases, inl, inr,
  length, if◌then◌else◌,
}
use muscle.Port.{Port, set_length, resize, set_closed, get_num_messages}
use muscle.Port.Reach.{unless_thrown}
use muscle.Port.Slots.{HasCount, increment-HasCount}
use muscle.Communicator.{MppMessage, is_close_port}
use muscle.Communicator.Receiving.{follow_length, follow_close, received, accept}
use muscle.Communicator.Received.{judged, follow_length-HasCount}
use muscle.Communicator.Sequence.{
  Numbered, carried, receive_next-cons, receive_times, receive_times-zero, receive_times-suc,
  times_rest, prepended,
}

-- A length that a port sends is not negative.
abbrev pub IsLength : Option ℤ → Type 0
IsLength none = Unit {0}
IsLength (some (pos n)) = Unit {0}
IsLength (some (negsuc n)) = ⊥

-- User data, with a length or without.
unfoldable pub AllUserData : {T S D : Type 0} → List (MppMessage T S D) → Type 0
AllUserData [] = Unit {0}
AllUserData (m ∷ ms) = (is_close_port m.data_ ≡ false) × IsLength m.port_length × AllUserData ms

set_length-returns :
    (n : ℕ) (p : Port) → p.is_resizable ≡ true → (q : Port) × (set_length (pos n) p ≡ (ok tt, q))
unfolding set_length resize
set_length-returns n p h = by_tests p.is_resizable (eqb_ℤ (pos n) p.length_) h
  where
    by_tests :
        (a b : Bool)
        → a ≡ true
        → (q : Port) × ((if not a
              then (err runtime_error, p)
              else (if b then (ok tt, p) else resize (pos n) p))
            ≡ (ok tt, q))
    by_tests false b h = cc
    by_tests true true h = (p, refl)
    by_tests true false h = ((resize (pos n) p).1, refl)

follow_length-returns :
    (len : Option ℤ) (p : Port) → IsLength len → (q : Port) × (follow_length len p ≡ ok q)
unfolding follow_length
follow_length-returns none p h = (p, refl)
follow_length-returns (some (negsuc n)) p h = absurd h
follow_length-returns (some (pos n)) p h = elim (Bool-cases p.is_resizable) [
  | inl t ↦
      let (q, e) = set_length-returns n p t in
      (q, ap (λ r. if r then unless_thrown (set_length (pos n) p) else ok p) t ∙ ap unless_thrown e)
  | inr t ↦ (p, ap (λ r. if r then unless_thrown (set_length (pos n) p) else ok p) t)
]

module _ {T S D : Type 0} where
  judged-returns :
      (slot : Option ℤ) (m : MppMessage T S D) (port : Port) (n : ℤ) (b : Bool)
      → m.message_number ≡ n
      → HasCount slot port n b
      → (q : Port) × (judged slot m port n ≡ ok (some (received m), q))
        × HasCount slot q (suc_ℤ n) false
  judged-returns slot m port n b number c =
      let (q, e, c') = increment-HasCount slot port n b c in
      (q, rw ((eqb_ℤ_iff n m.message_number).1 (sym number), e), c')

  accept-returns :
      (slot : Option ℤ) (m : MppMessage T S D) (port : Port) (n : ℤ) (b : Bool)
      → is_close_port m.data_ ≡ false
      → IsLength m.port_length
      → m.message_number ≡ n
      → HasCount slot port n b
      → (q : Port) × (accept slot m port ≡ ok (some (received m), q))
        × HasCount slot q (suc_ℤ n) false
  unfolding accept follow_close
  accept-returns slot m port n b user len number c =
      let (p1, e1) = follow_length-returns m.port_length port len in
      let c1 = follow_length-HasCount m.port_length slot port p1 n b e1 c in
      let (q, e2, c2) = judged-returns slot m p1 n b number c1 in
      (
        q,
        ap
              (λ w. w >>= λ (port1 : Port).
                (if is_close_port m.data_ then set_closed slot port1 else ok port1)
                >>= λ (port2 : Port). get_num_messages slot port2 >>= judged slot m port2)
              e1
            ∙ ap
                (λ t. (if t then set_closed slot p1 else ok p1) >>= λ (port2 : Port).
                  get_num_messages slot port2 >>= judged slot m port2)
                user
            ∙ ap (λ w. w >>= judged slot m p1) c1.0
            ∙ e2,
        c2,
      )

  -- Receives on a slot with the count `n` return all of the messages with the numbers from `n` on that
  -- come, if they are user data and no length in them is negative, in their order and without an
  -- exception, and leave what comes after them.
  pub receive_times-returns :
      (slot : Option ℤ) (n : ℤ) (b : Bool) (ms rest : List (MppMessage T S D)) (port : Port)
      → HasCount slot port n b
      → Numbered n ms
      → AllUserData ms
      → (q : Port) × (receive_times (length ms) slot (ms ++ rest) port
          ≡ ok (map received ms, rest, q))
  unfolding Numbered AllUserData
  receive_times-returns slot n b [] rest port c numbered user =
      (port, receive_times-zero slot rest port)
  receive_times-returns slot n b (m ∷ ms) rest port c (number, numbered) (data_, len, user) =
      let (q, e, c') = accept-returns slot m port n b data_ len number c in
      let (q', e') = receive_times-returns slot (suc_ℤ n) false ms rest q c' numbered user in
      (
        q',
        receive_times-suc (length ms) slot (m ∷ (ms ++ rest)) port
            ∙ ap (λ w. w >>= times_rest (length ms) slot)
                (receive_next-cons slot m (ms ++ rest) port
                  ∙ ap (λ w. w >>= carried slot (ms ++ rest)) e)
            ∙ ap (λ w. w >>= prepended (received m)) e',
      )
