-- ===== src/Prelude/Double.antt =====
-- Doubles: IEEE 754 binary64 arithmetic, rounded to the nearest and ties to even, as the code's
-- compilers have it. A double is the whole number of times that it holds the least positive one,
-- 2^-1074, so comparisons of doubles are those of the integers. Infinities and what is not a number
-- are left out: results stay below 2^1024.
use Prim.Native.Nat.{ℕ, zero, suc, ◌-◌, ◌*◌, ◌/◌, ◌%◌, ◌^◌}
use mathlib.Core.Bool.{◌&&◌, ◌||◌}
use muscle.Prelude.Tests.{ltb, eqb, if◌then◌else◌}
use muscle.Prelude.Int.{ℤ, pos, negsuc}
use muscle.Prelude.Floor.{◌+ℤ◌, ◌-ℤ◌, times, floor_div}

-- 1.0
unfoldable pub one_double : ℕ
one_double = 2 ^ 1074

-- The number of binary digits, given at least as much fuel.
unfoldable pub bits : ℕ → ℕ → ℕ
bits zero n = 0
bits (suc fuel) n = let rest = bits fuel (n / 2) in if eqb n 0 then 0 else suc rest

-- n / d as a whole number, the even one of two that are as near.
unfoldable pub round_even : ℕ → ℕ → ℕ
round_even n d =
    let twice = 2 * (n % d) in
    if ltb d twice || (eqb twice d && eqb ((n / d) % 2) 1) then suc (n / d) else n / d

-- n / d with 53 binary digits. Doubles have at most 2098, so that quotients by one have fewer than
-- 4196.
unfoldable pub round_ratio : ℕ → ℕ → ℕ
unfolding round_even bits
round_ratio n d = let e = bits 4200 (n / d) - 53 in round_even n (d * 2 ^ e) * 2 ^ e

-- A fraction with a sign.
unfoldable pub round_signed : ℤ → ℕ → ℤ
unfolding round_ratio
round_signed (pos n) d = pos (round_ratio n d)
round_signed (negsuc n) d = pos 0 -ℤ pos (round_ratio (suc n) d)

unfoldable pub plus : ℤ → ℤ → ℤ
unfolding round_signed
plus x y = round_signed (x +ℤ y) 1

unfoldable pub minus : ℤ → ℤ → ℤ
unfolding round_signed
minus x y = round_signed (x -ℤ y) 1

-- x / y and x * y, where y is not negative
unfoldable pub divide : ℤ → ℕ → ℤ
unfolding round_signed one_double
divide x y = round_signed (times x one_double) y

unfoldable pub multiply : ℤ → ℕ → ℤ
unfolding round_signed one_double
multiply x y = round_signed (times x y) one_double

-- std::floor, which is not rounded
unfoldable pub floor_ : ℤ → ℤ
unfolding one_double
floor_ x = times (floor_div x one_double) one_double
