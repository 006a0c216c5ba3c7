-- ===== src/Checkpoints/Range.antt =====
-- A range trigger finds the nearest of its whole periods after a time.
use muscle.Prelude.{
  ℕ, ◌≡◌, refl, sym, subst, ◌<◌, Bool, true, false, Option, none, some, ℤ, pos, ◌≤ℤ◌, suc_ℤ, arith,
  if◌then◌else◌,
}
use muscle.Prelude.Floor.{◌<ℤ◌, ◌+ℤ◌, ◌-ℤ◌, times, floor_div}
use muscle.Checkpoints.{or_zero, is_before, has_reached}
use muscle.Checkpoints.Exact.{exact_last, exact_next}
use muscle.Checkpoints.Rules.{InRange, IsOrdered, From, Until}
use muscle.Checkpoints.Grid.{grid_le, grid_lt, le_grid, lt_grid, on_start}

pub From-le : (start : Option ℤ) (cur t : ℤ) → is_before cur start ≡ false → cur ≤ℤ t → From start t
From-le none cur t e le = tt
From-le (some a) cur t e le = ground arith

-- The next time on the grid is not past the last one when that has not been reached.
next-Until :
    (start stop : Option ℤ) (n : ℕ) (cur : ℤ)
    → 0 < n
    → has_reached cur (exact_last start stop n) ≡ false
    → Until stop (or_zero start +ℤ times (suc_ℤ (floor_div (cur -ℤ or_zero start) n)) n)
unfolding exact_last
next-Until start none n cur h e = tt
next-Until start (some b) n cur h e =
    let lt : cur <ℤ (or_zero start +ℤ times (floor_div (b -ℤ or_zero start) n) n) = ground arith in
    let k = lt_grid (or_zero start) cur (floor_div (b -ℤ or_zero start) n) n h lt in
    let k' = grid_le (or_zero start) b n h in omega (arith, k, k')

start-Until : (a : ℤ) (stop : Option ℤ) → IsOrdered (some a) stop → Until stop a
start-Until a none o = tt
start-Until a (some b) o = o

pub next_range_sound :
    (start stop : Option ℤ) (n : ℕ) (cur t : ℤ)
    → 0 < n
    → IsOrdered start stop
    → exact_next start stop n cur ≡ some t
    → InRange start stop n t × (cur <ℤ t)
unfolding exact_next
next_range_sound start stop n cur t h o e =
    by_tests (is_before cur start) (has_reached cur (exact_last start stop n)) refl refl e
  where
    found : ℤ
    found = or_zero start +ℤ times (suc_ℤ (floor_div (cur -ℤ or_zero start) n)) n

    at_start :
        (start' : Option ℤ)
        → IsOrdered start' stop
        → is_before cur start' ≡ true
        → start' ≡ some t
        → InRange start' stop n t × (cur <ℤ t)
    at_start none o' b k = cc
    at_start (some a) o' b k =
        let same : a ≡ t = cc in
        subst (λ z. InRange (some a) stop n z × (cur <ℤ z)) same
          ((pos 0, on_start a n, omega arith, start-Until a stop o'), ground arith)

    by_tests :
        (b c : Bool)
        → is_before cur start ≡ b
        → has_reached cur (exact_last start stop n) ≡ c
        → ◌≡◌ {A = Option ℤ} (if b then start else (if c then none else some found)) (some t)
        → InRange start stop n t × (cur <ℤ t)
    by_tests true c b' c' k = at_start start o b' k
    by_tests false true b' c' k = cc
    by_tests false false b' c' k =
        let same : found ≡ t = cc in
        let lt = grid_lt (or_zero start) cur n h in
        subst (λ z. InRange start stop n z × (cur <ℤ z)) same
          (
            (
              suc_ℤ (floor_div (cur -ℤ or_zero start) n),
              refl,
              From-le start cur found b' (omega (arith, lt)),
              next-Until start stop n cur h c',
            ),
            lt,
          )

pub next_range_nearest :
    (start stop : Option ℤ) (n : ℕ) (cur u : ℤ)
    → 0 < n
    → InRange start stop n u
    → cur <ℤ u
    → (t : ℤ) × (exact_next start stop n cur ≡ some t) × (t ≤ℤ u)
unfolding exact_next exact_last
next_range_nearest start stop n cur u h (j, e, from, until) lt =
    by_tests (is_before cur start) (has_reached cur (exact_last start stop n)) refl refl
  where
    found : ℤ
    found = or_zero start +ℤ times (suc_ℤ (floor_div (cur -ℤ or_zero start) n)) n

    at_start :
        (start' : Option ℤ)
        → From start' u
        → is_before cur start' ≡ true
        → (t : ℤ) × (start' ≡ some t) × (t ≤ℤ u)
    at_start none from' k = cc
    at_start (some a) from' k = (a, refl, from')

    past_last :
        (stop' : Option ℤ) → Until stop' u → has_reached cur (exact_last start stop' n) ≡ true → ⊥
    past_last none until' k = cc
    past_last (some b) until' k =
        let le = le_grid (or_zero start) b j n h (subst (λ z. z ≤ℤ b) e until') in
        let le' =
          subst (λ z. z ≤ℤ (or_zero start +ℤ times (floor_div (b -ℤ or_zero start) n) n)) (sym e)
            le in
        ground arith

    by_tests :
        (b c : Bool)
        → is_before cur start ≡ b
        → has_reached cur (exact_last start stop n) ≡ c
        → (t : ℤ) × ((if b then start else (if c then none else some found)) ≡ some t) × (t ≤ℤ u)
    by_tests true c b' c' = at_start start from b'
    by_tests false true b' c' = absurd (past_last stop until c')
    by_tests false false b' c' =
        let le = lt_grid (or_zero start) cur j n h (subst (λ z. cur <ℤ z) e lt) in
        (found, refl, subst (λ z. found ≤ℤ z) (sym e) le)
