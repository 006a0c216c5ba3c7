-- ===== src/Checkpoints/RangeBack.antt =====
-- A range trigger finds the nearest of its whole periods before a time.
use muscle.Prelude.{
  ℕ, ◌≡◌, refl, sym, subst, ◌<◌, Bool, true, false, Option, none, some, ℤ, pos, ◌≤ℤ◌, arith,
  if◌then◌else◌,
}
use muscle.Prelude.Floor.{◌<ℤ◌, ◌+ℤ◌, ◌-ℤ◌, times, floor_div}
use muscle.Checkpoints.{or_zero, is_before, has_reached}
use muscle.Checkpoints.Exact.{exact_last, exact_previous}
use muscle.Checkpoints.Rules.{InRange, IsOrdered, From, Until}
use muscle.Checkpoints.Grid.{grid_le, le_grid, on_start}
use muscle.Checkpoints.Range.{From-le}

previous-Until :
    (start stop : Option ℤ) (n : ℕ) (cur : ℤ)
    → 0 < n
    → has_reached cur (exact_last start stop n) ≡ false
    → Until stop (or_zero start +ℤ times (floor_div (cur -ℤ or_zero start) n) n)
unfolding exact_last
previous-Until start none n cur h e = tt
previous-Until start (some b) n cur h e =
    let lt : cur <ℤ (or_zero start +ℤ times (floor_div (b -ℤ or_zero start) n) n) = ground arith in
    let k = grid_le (or_zero start) cur n h in
    let k' = grid_le (or_zero start) b n h in omega (arith, k, k', lt)

-- The start is on the grid, and so not past the last time on it that is at most c.
start-From :
    (start : Option ℤ) (n : ℕ) (c : ℤ)
    → 0 < n
    → From start c
    → From start (or_zero start +ℤ times (floor_div (c -ℤ or_zero start) n) n)
start-From none n c h from = tt
start-From (some a) n c h from =
    subst (λ z. z ≤ℤ (a +ℤ times (floor_div (c -ℤ a) n) n)) (sym (on_start a n))
      (le_grid a c (pos 0) n h (subst (λ z. z ≤ℤ c) (on_start a n) from))

From-ordered : (start : Option ℤ) (b : ℤ) → IsOrdered start (some b) → From start b
From-ordered none b o = tt
From-ordered (some a) b o = o

pub previous_range_sound :
    (start stop : Option ℤ) (n : ℕ) (cur t : ℤ)
    → 0 < n
    → IsOrdered start stop
    → exact_previous start stop n cur ≡ some t
    → InRange start stop n t × (t ≤ℤ cur)
unfolding exact_previous exact_last
previous_range_sound start stop n cur t h o e =
    by_tests (is_before cur start) (has_reached cur (exact_last start stop n)) refl refl e
  where
    found : ℤ
    found = or_zero start +ℤ times (floor_div (cur -ℤ or_zero start) n) n

    at_last :
        (stop' : Option ℤ)
        → IsOrdered start stop'
        → has_reached cur (exact_last start stop' n) ≡ true
        → exact_last start stop' n ≡ some t
        → InRange start stop' n t × (t ≤ℤ cur)
    at_last none o' c' k = cc
    at_last (some b) o' c' k =
        let same : (or_zero start +ℤ times (floor_div (b -ℤ or_zero start) n) n) ≡ t = cc in
        subst (λ z. InRange start (some b) n z × (z ≤ℤ cur)) same
          (
            (
              floor_div (b -ℤ or_zero start) n,
              refl,
              start-From start n b h (From-ordered start b o'),
              grid_le (or_zero start) b n h,
            ),
            ground arith,
          )

    by_tests :
        (b c : Bool)
        → is_before cur start ≡ b
        → has_reached cur (exact_last start stop n) ≡ c
        → ◌≡◌ {A = Option ℤ}
            (if b then none else (if c then exact_last start stop n else some found))
            (some t)
        → InRange start stop n t × (t ≤ℤ cur)
    by_tests true c b' c' k = cc
    by_tests false true b' c' k = at_last stop o c' k
    by_tests false false b' c' k =
        let same : found ≡ t = cc in
        let le = grid_le (or_zero start) cur n h in
        subst (λ z. InRange start stop n z × (z ≤ℤ cur)) same
          (
            (
              floor_div (cur -ℤ or_zero start) n,
              refl,
              start-From start n cur h (From-le start cur cur b' (omega arith)),
              previous-Until start stop n cur h c',
            ),
            le,
          )

pub previous_range_nearest :
    (start stop : Option ℤ) (n : ℕ) (cur u : ℤ)
    → 0 < n
    → InRange start stop n u
    → u ≤ℤ cur
    → (t : ℤ) × (exact_previous start stop n cur ≡ some t) × (u ≤ℤ t)
unfolding exact_previous exact_last
previous_range_nearest start stop n cur u h (j, e, from, until) le =
    by_tests (is_before cur start) (has_reached cur (exact_last start stop n)) refl refl
  where
    found : ℤ
    found = or_zero start +ℤ times (floor_div (cur -ℤ or_zero start) n) n

    early : (start' : Option ℤ) → From start' u → is_before cur start' ≡ true → ⊥
    early none from' k = cc
    early (some a) from' k = ground arith

    at_last :
        (stop' : Option ℤ)
        → Until stop' u
        → has_reached cur (exact_last start stop' n) ≡ true
        → (t : ℤ) × (exact_last start stop' n ≡ some t) × (u ≤ℤ t)
    at_last none until' k = cc
    at_last (some b) until' k = (
      or_zero start +ℤ times (floor_div (b -ℤ or_zero start) n) n,
      refl,
      subst (λ z. z ≤ℤ (or_zero start +ℤ times (floor_div (b -ℤ or_zero start) n) n)) (sym e)
          (le_grid (or_zero start) b j n h (subst (λ z. z ≤ℤ b) e until')),
    )

    by_tests :
        (b c : Bool)
        → is_before cur start ≡ b
        → has_reached cur (exact_last start stop n) ≡ c
        → (t : ℤ) × (◌≡◌ {A = Option ℤ}
            (if b then none else (if c then exact_last start stop n else some found))
            (some t))
          × (u ≤ℤ t)
    by_tests true c b' c' = absurd (early start from b')
    by_tests false true b' c' = at_last stop until c'
    by_tests false false b' c' = (
      found,
      refl,
      subst (λ z. z ≤ℤ found) (sym e)
          (le_grid (or_zero start) cur j n h (subst (λ z. z ≤ℤ cur) e le)),
    )
