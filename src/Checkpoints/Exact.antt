-- ===== src/Checkpoints/Exact.antt =====
-- The times of a range without rounding, and where the rounding of the doubles keeps to them.
use muscle.Prelude.{
  ℕ, ◌≡◌, refl, ap, ◌∙◌, List, [], ◌∷◌, Option, none, some, ℤ, pos, suc_ℤ, if◌then◌else◌,
}
use muscle.Prelude.Floor.{◌+ℤ◌, ◌-ℤ◌, times, floor_div}
use muscle.Prelude.Double.{one_double, plus, minus, divide, multiply, floor_}
use muscle.Checkpoints.{
  RangeTrigger, Trigger, at_trigger, ranged, or_zero, is_before, has_reached, last_of, next_range,
  previous_range,
}

unfoldable pub exact_last : Option ℤ → Option ℤ → ℕ → Option ℤ
exact_last start none every = none
exact_last start (some stop) every =
    some (or_zero start +ℤ times (floor_div (stop -ℤ or_zero start) every) every)

unfoldable pub exact_next : Option ℤ → Option ℤ → ℕ → ℤ → Option ℤ
unfolding exact_last
exact_next start stop every cur_time =
    if is_before cur_time start
    then start
    else (if has_reached cur_time (exact_last start stop every)
        then none
        else some
            (or_zero start +ℤ times (suc_ℤ (floor_div (cur_time -ℤ or_zero start) every)) every))

unfoldable pub exact_previous : Option ℤ → Option ℤ → ℕ → ℤ → Option ℤ
unfolding exact_last
exact_previous start stop every cur_time =
    if is_before cur_time start
    then none
    else (if has_reached cur_time (exact_last start stop every)
        then exact_last start stop every
        else some (or_zero start +ℤ times (floor_div (cur_time -ℤ or_zero start) every) every))

-- The time at a whole number of periods is a double, and not rounded.
abbrev pub IsOnGrid : ℤ → ℤ → ℕ → Type 0
IsOnGrid start k every =
    (multiply (times k one_double) every ≡ times k every)
    × (plus start (times k every) ≡ start +ℤ times k every)

-- The time since the start is a double, rounding the number of periods in it does not take it past a
-- whole number, and the time at that whole number is a double.
abbrev pub StaysBack : ℤ → ℕ → ℤ → Type 0
StaysBack start every t =
    (minus t start ≡ t -ℤ start)
    × (floor_ (divide (t -ℤ start) every) ≡ times (floor_div (t -ℤ start) every) one_double)
    × IsOnGrid start (floor_div (t -ℤ start) every) every

-- The same, where 1 is added to the number of periods.
abbrev pub StaysNext : ℤ → ℕ → ℤ → Type 0
StaysNext start every t =
    (minus t start ≡ t -ℤ start)
    × (floor_ (plus (divide (t -ℤ start) every) (pos one_double))
        ≡ times (suc_ℤ (floor_div (t -ℤ start) every)) one_double)
    × IsOnGrid start (suc_ℤ (floor_div (t -ℤ start) every)) every

-- At a time, no range is rounded across a period.
abbrev pub IsNextExact : Trigger → ℤ → Type 0
IsNextExact (at_trigger ts) t = Unit {0}
IsNextExact (ranged r) t = StaysNext (or_zero r.start) r.every t

abbrev pub AreNextExact : List Trigger → ℤ → Type 0
AreNextExact [] t = Unit {0}
AreNextExact (x ∷ xs) t = IsNextExact x t × AreNextExact xs t

abbrev pub IsPreviousExact : Trigger → ℤ → Type 0
IsPreviousExact (at_trigger ts) t = Unit {0}
IsPreviousExact (ranged r) t = StaysBack (or_zero r.start) r.every t

abbrev pub ArePreviousExact : List Trigger → ℤ → Type 0
ArePreviousExact [] t = Unit {0}
ArePreviousExact (x ∷ xs) t = IsPreviousExact x t × ArePreviousExact xs t

-- Nor is the last time of a range that stops.
abbrev pub IsLastExact : Option ℤ → Option ℤ → ℕ → Type 0
IsLastExact start none every = Unit {0}
IsLastExact start (some stop) every = StaysBack (or_zero start) every stop

back_exact :
    (start : ℤ) (every : ℕ) (t : ℤ)
    → StaysBack start every t
    → plus start (multiply (floor_ (divide (minus t start) every)) every)
      ≡ start +ℤ times (floor_div (t -ℤ start) every) every
back_exact start every t (d, q, (m, p)) =
    ap (λ z. plus start (multiply (floor_ (divide z every)) every)) d
    ∙ ap (λ z. plus start (multiply z every)) q
    ∙ ap (plus start) m
    ∙ p

ahead_exact :
    (start : ℤ) (every : ℕ) (t : ℤ)
    → StaysNext start every t
    → plus start (multiply (floor_ (plus (divide (minus t start) every) (pos one_double))) every)
      ≡ start +ℤ times (suc_ℤ (floor_div (t -ℤ start) every)) every
ahead_exact start every t (d, q, (m, p)) =
    ap (λ z. plus start (multiply (floor_ (plus (divide z every) (pos one_double))) every)) d
    ∙ ap (λ z. plus start (multiply z every)) q
    ∙ ap (plus start) m
    ∙ p

pub last_of-exact_last :
    (start stop : Option ℤ) (every : ℕ)
    → IsLastExact start stop every
    → last_of start stop every ≡ exact_last start stop every
unfolding last_of exact_last
last_of-exact_last start none every i = refl
last_of-exact_last start (some stop) every i = ap some (back_exact (or_zero start) every stop i)

pub next_range-exact_next :
    (r : RangeTrigger) (t : ℤ)
    → r.last ≡ exact_last r.start r.stop r.every
    → StaysNext (or_zero r.start) r.every t
    → next_range r t ≡ exact_next r.start r.stop r.every t
unfolding next_range exact_next
next_range-exact_next r t l i =
    ap (test r.last) (ap some (ahead_exact (or_zero r.start) r.every t i))
    ∙ ap
        (λ z. test z (
          some
            (or_zero r.start +ℤ times (suc_ℤ (floor_div (t -ℤ or_zero r.start) r.every)) r.every)))
        l
  where
    test : Option ℤ → Option ℤ → Option ℤ
    test last found =
        if is_before t r.start then r.start else (if has_reached t last then none else found)

pub previous_range-exact_previous :
    (r : RangeTrigger) (t : ℤ)
    → r.last ≡ exact_last r.start r.stop r.every
    → StaysBack (or_zero r.start) r.every t
    → previous_range r t ≡ exact_previous r.start r.stop r.every t
unfolding previous_range exact_previous
previous_range-exact_previous r t l i =
    ap (test r.last) (ap some (back_exact (or_zero r.start) r.every t i))
    ∙ ap
        (λ z.
          test z
            (some (or_zero r.start +ℤ times (floor_div (t -ℤ or_zero r.start) r.every) r.every)))
        l
  where
    test : Option ℤ → Option ℤ → Option ℤ
    test last found =
        if is_before t r.start then none else (if has_reached t last then last else found)
