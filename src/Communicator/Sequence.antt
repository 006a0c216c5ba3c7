-- ===== src/Communicator/Sequence.antt =====
-- Receives in a row on one slot: the messages that they return, in terms of those that came.
use muscle.Prelude.{
  ℕ, zero, suc, ◌≡◌, refl, ap, sym, subst, ◌∙◌, Bool, true, false, List, [], ◌∷◌, ◌++◌, map, Option,
  none, some, Result, ok, err, ◌>>=◌, >>=-eq-ok, ok_triple, Error, ℤ, suc_ℤ, pred_ℤ, inl, inr,
  length,
}
use muscle.Port.{Port}
use muscle.Port.Slots.{HasCount}
use muscle.Communicator.{Message, MppMessage}
use muscle.Communicator.Receiving.{received, accept, receive_next}
use muscle.Communicator.Received.{accept-Verdict}

-- Messages with the numbers from `n` on.
unfoldable pub Numbered : {T S D : Type 0} → ℤ → List (MppMessage T S D) → Type 0
Numbered n [] = Unit {0}
Numbered n (m ∷ ms) = (m.message_number ≡ n) × Numbered (suc_ℤ n) ms

-- What a receive may discard first: nothing, or on a resuming slot the message before.
abbrev pub Discardable : {T S D : Type 0} → ℤ → Bool → List (MppMessage T S D) → Type 0
Discardable n b [] = Unit {0}
Discardable n b (d ∷ []) = (b ≡ true) × (d.message_number ≡ pred_ℤ n)
Discardable n b (d ∷ (e ∷ ds)) = ⊥

-- What a receive gives: the message, what is still to come, and the port.
abbrev pub Taken : Type 0 → Type 0 → Type 0 → Type 0
Taken T S D = Message T S D × List (MppMessage T S D) × Port

module _ {T S D : Type 0} where
  abbrev pub Returned : Option ℤ → ℤ → Bool → List (MppMessage T S D) → Taken T S D → Type 0
  Returned slot n b incoming (message, rest, q) =
      (ds : List (MppMessage T S D)) × (m : MppMessage T S D) × (incoming ≡ ds ++ m ∷ rest)
      × Discardable n b ds
      × (m.message_number ≡ n)
      × (message ≡ received m)
      × HasCount slot q (suc_ℤ n) false

  abbrev pub carried :
      Option ℤ
      → List (MppMessage T S D)
      → Option (Message T S D) × Port
      → Result Error (Taken T S D)
  carried slot incoming (some message, port) = ok (message, incoming, port)
  carried slot incoming (none, port) = receive_next slot incoming port

  pub receive_next-cons :
      (slot : Option ℤ) (m : MppMessage T S D) (incoming : List (MppMessage T S D)) (port : Port)
      → receive_next slot (m ∷ incoming) port ≡ (accept slot m port >>= carried slot incoming)
  unfolding receive_next
  receive_next-cons slot m incoming port = by_result (accept slot m port)
    where
      by_result :
          (r : Result Error (Option (Message T S D) × Port))
          → (elim r [
            | err e ↦ err e
            | ok (some message, port') ↦ ok (message, incoming, port')
            | ok (none, port') ↦ receive_next slot incoming port'
          ])
            ≡ (r >>= carried slot incoming)
      by_result (err e) = refl
      by_result (ok (none, port')) = refl
      by_result (ok (some message, port')) = refl

  receive_next-nil :
      (slot : Option ℤ) (port : Port) (x : Taken T S D) → receive_next slot [] port ≡ ok x → ⊥
  unfolding receive_next
  receive_next-nil slot port x h = cc

  first_taken :
      (slot : Option ℤ) (n : ℤ) (b : Bool) (m : MppMessage T S D)
      (incoming : List (MppMessage T S D)) (q : Port) (x : Taken T S D)
      → m.message_number ≡ n
      → HasCount slot q (suc_ℤ n) false
      → ◌≡◌ {A = Result Error (Taken T S D)} (ok (received m, incoming, q)) (ok x)
      → Returned slot n b (m ∷ incoming) x
  first_taken slot n b m incoming q x number c h =
      subst (Returned slot n b (m ∷ incoming)) (of_ok h) ([], m, refl, tt, number, refl, c)
    where
      of_ok : {y z : Taken T S D} → ◌≡◌ {A = Result Error (Taken T S D)} (ok y) (ok z) → y ≡ z
      of_ok e = cc

  taken_after :
      (slot : Option ℤ) (n : ℤ) (b : Bool) (d : MppMessage T S D)
      (incoming : List (MppMessage T S D)) (x : Taken T S D)
      → b ≡ true
      → d.message_number ≡ pred_ℤ n
      → Returned slot n false incoming x
      → Returned slot n b (d ∷ incoming) x
  taken_after slot n b d incoming x t number ([], m, e, disc, number', same, c) =
      (d ∷ [], m, ap (◌∷◌ d) e, (t, number), number', same, c)
  taken_after slot n b d incoming x t number (y ∷ [], m, e, disc, number', same, c) = cc disc.0
  taken_after slot n b d incoming x t number (y ∷ (z ∷ zs), m, e, disc, number', same, c) =
      absurd disc

  -- A receive on a slot with the count `n` that returns a message returns the first that came, which
  -- has the number `n`; where the slot is resuming, one message with the number before may come first
  -- and is discarded. The slot then has the count n + 1 and is not resuming.
  pub receive_next-Returned :
      (slot : Option ℤ) (n : ℤ) (b : Bool) (incoming : List (MppMessage T S D)) (port : Port)
      (x : Taken T S D)
      → HasCount slot port n b
      → receive_next slot incoming port ≡ ok x
      → Returned slot n b incoming x
  receive_next-Returned slot n b [] port x c h = absurd (receive_next-nil slot port x h)
  receive_next-Returned slot n b (m ∷ incoming) port x c h =
      let ((r, q), e, k) =
        >>=-eq-ok (accept slot m port) (carried slot incoming)
          (sym (receive_next-cons slot m incoming port) ∙ h) in
      elim (accept-Verdict slot m port n b r q c e) [
        | inl (number, some_r, c') ↦
            first_taken slot n b m incoming q x number c'
              (sym (ap (λ o. carried slot incoming (o, q)) some_r) ∙ k)
        | inr (t, number, none_r, c') ↦ taken_after slot n b m incoming x t number (
            receive_next-Returned slot n false incoming q x c'
              (sym (ap (λ o. carried slot incoming (o, q)) none_r) ∙ k))
      ]

  -- `k` receives in a row, up to the first that throws.
  unfoldable pub receive_times :
      ℕ
      → Option ℤ
      → List (MppMessage T S D)
      → Port
      → Result Error (List (Message T S D) × List (MppMessage T S D) × Port)
  unfolding receive_next
  receive_times zero slot incoming port = ok ([], incoming, port)
  receive_times (suc k) slot incoming port =
      receive_next slot incoming port >>= λ (message, rest, port').
      receive_times k slot rest port' >>= λ (messages, rest', port'').
      ok (message ∷ messages, rest', port'')

  abbrev pub prepended :
      Message T S D
      → List (Message T S D) × List (MppMessage T S D) × Port
      → Result Error (List (Message T S D) × List (MppMessage T S D) × Port)
  prepended message (messages, rest, q) = ok (message ∷ messages, rest, q)

  abbrev pub times_rest :
      ℕ
      → Option ℤ
      → Taken T S D
      → Result Error (List (Message T S D) × List (MppMessage T S D) × Port)
  times_rest k slot (message, rest, q) = receive_times k slot rest q >>= prepended message

  pub receive_times-zero :
      (slot : Option ℤ) (incoming : List (MppMessage T S D)) (port : Port)
      → receive_times zero slot incoming port ≡ ok ([], incoming, port)
  unfolding receive_times
  receive_times-zero slot incoming port = refl

  pub receive_times-suc :
      (k : ℕ) (slot : Option ℤ) (incoming : List (MppMessage T S D)) (port : Port)
      → receive_times (suc k) slot incoming port
        ≡ (receive_next slot incoming port >>= times_rest k slot)
  unfolding receive_times
  receive_times-suc k slot incoming port = refl

  -- What came, in terms of the receives: perhaps one message that was discarded, then those that
  -- were returned, then those that are still to come.
  abbrev pub InOrder :
      ℕ
      → ℤ
      → Bool
      → List (MppMessage T S D)
      → List (Message T S D)
      → List (MppMessage T S D)
      → Type 0
  InOrder k n b incoming messages rest =
      (ds : List (MppMessage T S D)) × (ms : List (MppMessage T S D)) × (incoming
        ≡ ds ++ (ms ++ rest))
      × Discardable n b ds
      × Numbered n ms
      × (messages ≡ map received ms)
      × (length ms ≡ k)

  -- After a receive the slot is not resuming, so nothing more is discarded.
  InOrder-cons :
      (k : ℕ) (n : ℤ) (b : Bool) (incoming : List (MppMessage T S D)) (slot : Option ℤ)
      (x : Taken T S D) (messages : List (Message T S D)) (rest : List (MppMessage T S D))
      → Returned slot n b incoming x
      → InOrder k (suc_ℤ n) false x.1 messages rest
      → InOrder (suc k) n b incoming (x.0 ∷ messages) rest
  unfolding Numbered
  InOrder-cons k n b incoming slot x messages rest (ds, m, e, disc, number, same, c)
        ([], ms, e', disc', numbered, same', size) =
      (
        ds,
        m ∷ ms,
        e ∙ ap (λ l. ds ++ m ∷ l) e',
        disc,
        (number, numbered),
        ap (λ y. y ∷ messages) same ∙ ap (◌∷◌ (received m)) same',
        ap suc size,
      )
  InOrder-cons k n b incoming slot x messages rest returned
        (y ∷ [], ms, e', disc', numbered, same', size) =
      cc disc'.0
  InOrder-cons k n b incoming slot x messages rest returned
        (y ∷ (z ∷ zs), ms, e', disc', numbered, same', size) =
      absurd disc'

  -- `k` receives in a row on a slot with the count `n`, if they do not throw, return `k` messages, the
  -- first that came, in their order, with the numbers n, n + 1 and so on: none is lost or repeated.
  -- Only where the slot is resuming, one message with the number before them may come first and is
  -- discarded.
  pub receive_times-InOrder :
      (k : ℕ) (slot : Option ℤ) (n : ℤ) (b : Bool) (incoming rest : List (MppMessage T S D))
      (port q : Port) (messages : List (Message T S D))
      → HasCount slot port n b
      → receive_times k slot incoming port ≡ ok (messages, rest, q)
      → InOrder k n b incoming messages rest
  unfolding Numbered
  receive_times-InOrder zero slot n b incoming rest port q messages c h =
      let (e, e', e'') =
        ok_triple {A = List (Message T S D)} {B = List (MppMessage T S D)} {C = Port}
          (sym (receive_times-zero slot incoming port) ∙ h) in
      ([], [], e', tt, tt, sym e, refl)
  receive_times-InOrder (suc k) slot n b incoming rest port q messages c h =
      let (x, e1, k1) =
        >>=-eq-ok (receive_next slot incoming port) (times_rest k slot)
          (sym (receive_times-suc k slot incoming port) ∙ h) in
      let returned = receive_next-Returned slot n b incoming port x c e1 in
      let (ds, m, e, disc, number, same, c') = returned in
      let ((more, rest', q'), e2, k2) =
        >>=-eq-ok (receive_times k slot x.1 x.2) (prepended x.0) k1 in
      let (e3, e4, e5) =
        ok_triple {A = List (Message T S D)} {B = List (MppMessage T S D)} {C = Port} k2 in
      subst (λ l. InOrder (suc k) n b incoming l rest) e3
        (subst (λ l. InOrder (suc k) n b incoming (x.0 ∷ more) l) e4
          (InOrder-cons k n b incoming slot x more rest' returned
            (receive_times-InOrder k slot (suc_ℤ n) false x.1 rest' x.2 q' more c' e2)))
