-- ===== src/Prelude/Floor.antt =====
-- Sums, differences and multiples of integers, and division rounded down by a positive number.
use Prim.Native.Nat.{ℕ, zero, suc, ◌+◌, ◌-◌, ◌*◌, ◌/◌, ◌≤◌, ◌<◌}
use mathlib.Core.Path.{◌≡◌}
use native.Mathlib.Omega.{arith}
use native.Mathlib.Nat.{div-mul-le_self, lt-div-mul-add}
use muscle.Prelude.Tests.{leb, if◌then◌else◌}
use muscle.Prelude.Int.{ℤ, pos, negsuc, pos_part, neg_part, suc_ℤ, ◌≤ℤ◌}

-- The integer m - n.
abbrev from_difference : ℕ → ℕ → ℤ
from_difference m n = if leb n m then pos (m - n) else negsuc (n - m - 1)

infixl 65 ◌+ℤ◌ ◌-ℤ◌
infix 50 ◌<ℤ◌
unfoldable pub ◌+ℤ◌ : ℤ → ℤ → ℤ
x +ℤ y = from_difference (pos_part x + pos_part y) (neg_part x + neg_part y)

unfoldable pub ◌-ℤ◌ : ℤ → ℤ → ℤ
x -ℤ y = from_difference (pos_part x + neg_part y) (neg_part x + pos_part y)

abbrev pub ◌<ℤ◌ : ℤ → ℤ → Type 0
x <ℤ y = pos_part x + neg_part y < pos_part y + neg_part x

-- k * n
unfoldable pub times : ℤ → ℕ → ℤ
times k n = from_difference (pos_part k * n) (neg_part k * n)

-- floor(d / n)
unfoldable pub floor_div : ℤ → ℕ → ℤ
floor_div (pos d) n = pos (d / n)
floor_div (negsuc d) n = negsuc (d / n)

pub sum_parts :
    (x y : ℤ)
    → pos_part (x +ℤ y) + (neg_part x + neg_part y) ≡ neg_part (x +ℤ y) + (pos_part x + pos_part y)
unfolding ◌+ℤ◌
sum_parts x y = ground arith

pub difference_parts :
    (x y : ℤ)
    → pos_part (x -ℤ y) + (neg_part x + pos_part y) ≡ neg_part (x -ℤ y) + (pos_part x + neg_part y)
unfolding ◌-ℤ◌
difference_parts x y = ground arith

pub times_parts :
    (k : ℤ) (n : ℕ) → pos_part (times k n) + neg_part k * n ≡ neg_part (times k n) + pos_part k * n
unfolding times
times_parts k n = ground arith

pub suc_parts : (x : ℤ) → pos_part (suc_ℤ x) + neg_part x ≡ neg_part (suc_ℤ x) + suc (pos_part x)
suc_parts x = ground arith

-- Two integers with the same difference of parts are one.
pub eq_of_differences : (x y : ℤ) → pos_part x + neg_part y ≡ pos_part y + neg_part x → x ≡ y
eq_of_differences x y h = ground arith

pub le-antisymm_ℤ : (x y : ℤ) → x ≤ℤ y → y ≤ℤ x → x ≡ y
le-antisymm_ℤ x y h k = omega (arith, eq_of_differences)

mul_le : (a b n : ℕ) → a ≤ b → a * n ≤ b * n
mul_le a b n h = grind arith

mul_lt_cancel : (a b n : ℕ) → a * n < b * n → a < b
mul_lt_cancel a b n h = grind arith

pub times_mono : (j k : ℤ) (n : ℕ) → j ≤ℤ k → times j n ≤ℤ times k n
times_mono j k n h = omega (
  arith,
  times_parts j n,
  times_parts k n,
  mul_le (pos_part j + neg_part k) (pos_part k + neg_part j) n h,
)

times_law :
    (k : ℤ) (n : ℕ)
    → pos_part (times (suc_ℤ k) n) + neg_part (times k n +ℤ pos n)
      ≡ pos_part (times k n +ℤ pos n) + neg_part (times (suc_ℤ k) n)
times_law (pos m) n =
    omega (
      arith,
      times_parts (pos (suc m)) n,
      times_parts (pos m) n,
      sum_parts (times (pos m) n) (pos n),
    )
times_law (negsuc zero) n =
    omega (
      arith,
      times_parts (pos 0) n,
      times_parts (negsuc 0) n,
      sum_parts (times (negsuc 0) n) (pos n),
    )
times_law (negsuc (suc m)) n = omega (
  arith,
  times_parts (negsuc m) n,
  times_parts (negsuc (suc m)) n,
  sum_parts (times (negsuc (suc m)) n) (pos n),
)

pub times_suc : (k : ℤ) (n : ℕ) → times (suc_ℤ k) n ≡ times k n +ℤ pos n
times_suc k n = eq_of_differences (times (suc_ℤ k) n) (times k n +ℤ pos n) (times_law k n)

pub floor_div-le : (d : ℤ) (n : ℕ) → 0 < n → times (floor_div d n) n ≤ℤ d
unfolding floor_div
floor_div-le (pos d) n h = omega (arith, times_parts (pos (d / n)) n, div-mul-le_self d n)
floor_div-le (negsuc d) n h =
    omega (arith, times_parts (negsuc (d / n)) n, lt-div-mul-add {a = d} {b = n} h)

pub lt-floor_div : (d : ℤ) (n : ℕ) → 0 < n → d <ℤ times (suc_ℤ (floor_div d n)) n
unfolding floor_div
lt-floor_div (pos d) n h =
    omega (arith, times_parts (pos (suc (d / n))) n, lt-div-mul-add {a = d} {b = n} h)
lt-floor_div (negsuc d) n h = omega (
  arith,
  times_law (negsuc (d / n)) n,
  times_parts (negsuc (d / n)) n,
  sum_parts (times (negsuc (d / n)) n) (pos n),
  div-mul-le_self d n,
)

times_lt_cancel : (j k : ℤ) (n : ℕ) → times j n <ℤ times k n → j <ℤ k
times_lt_cancel j k n h =
    mul_lt_cancel (pos_part j + neg_part k) (pos_part k + neg_part j) n
      (omega (arith, times_parts j n, times_parts k n))

-- The multiples of n up to d are those up to the rounded quotient.
pub le-floor_div : (j d : ℤ) (n : ℕ) → 0 < n → times j n ≤ℤ d → j ≤ℤ floor_div d n
le-floor_div j d n h k = omega (
  arith,
  suc_parts (floor_div d n),
  times_lt_cancel j (suc_ℤ (floor_div d n)) n (omega (arith, lt-floor_div d n h)),
)

-- The multiples of n past d are those from the next of the rounded quotient.
pub floor_div-lt : (j d : ℤ) (n : ℕ) → 0 < n → d <ℤ times j n → suc_ℤ (floor_div d n) ≤ℤ j
floor_div-lt j d n h k = omega (
  arith,
  suc_parts (floor_div d n),
  times_lt_cancel (floor_div d n) j n (omega (arith, floor_div-le d n h)),
)
