-- ===== src/Checkpoints/Grid.antt =====
-- The times at whole periods from a start, and the nearest ones to a time.
use muscle.Prelude.{ℕ, ◌≡◌, ◌<◌, ℤ, pos, ◌≤ℤ◌, suc_ℤ, arith}
use muscle.Prelude.Floor.{
  ◌<ℤ◌, ◌+ℤ◌, ◌-ℤ◌, times, floor_div, sum_parts, difference_parts, times_parts, eq_of_differences,
  times_mono, floor_div-le, lt-floor_div, le-floor_div, floor_div-lt,
}

-- The grid of times a + k n.
pub grid_le : (a c : ℤ) (n : ℕ) → 0 < n → (a +ℤ times (floor_div (c -ℤ a) n) n) ≤ℤ c
grid_le a c n h = omega (
  arith,
  sum_parts a (times (floor_div (c -ℤ a) n) n),
  difference_parts c a,
  floor_div-le (c -ℤ a) n h,
)

pub grid_lt : (a c : ℤ) (n : ℕ) → 0 < n → c <ℤ (a +ℤ times (suc_ℤ (floor_div (c -ℤ a) n)) n)
grid_lt a c n h = omega (
  arith,
  sum_parts a (times (suc_ℤ (floor_div (c -ℤ a) n)) n),
  difference_parts c a,
  lt-floor_div (c -ℤ a) n h,
)

-- A time on the grid that is at most c is at most the last one that is.
pub le_grid :
    (a c j : ℤ) (n : ℕ)
    → 0 < n
    → (a +ℤ times j n) ≤ℤ c
    → (a +ℤ times j n) ≤ℤ (a +ℤ times (floor_div (c -ℤ a) n) n)
le_grid a c j n h k = omega (
  arith,
  sum_parts a (times j n),
  sum_parts a (times (floor_div (c -ℤ a) n) n),
  times_mono j (floor_div (c -ℤ a) n) n
      (le-floor_div j (c -ℤ a) n h (omega (arith, sum_parts a (times j n), difference_parts c a))),
)

pub lt_grid :
    (a c j : ℤ) (n : ℕ)
    → 0 < n
    → c <ℤ (a +ℤ times j n)
    → (a +ℤ times (suc_ℤ (floor_div (c -ℤ a) n)) n) ≤ℤ (a +ℤ times j n)
lt_grid a c j n h k = omega (
  arith,
  sum_parts a (times j n),
  sum_parts a (times (suc_ℤ (floor_div (c -ℤ a) n)) n),
  times_mono (suc_ℤ (floor_div (c -ℤ a) n)) j n
      (floor_div-lt j (c -ℤ a) n h (omega (arith, sum_parts a (times j n), difference_parts c a))),
)

pub on_start : (a : ℤ) (n : ℕ) → a ≡ a +ℤ times (pos 0) n
on_start a n =
    eq_of_differences a (a +ℤ times (pos 0) n)
      (omega (arith, sum_parts a (times (pos 0) n), times_parts (pos 0) n))
