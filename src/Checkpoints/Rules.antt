-- ===== src/Checkpoints/Rules.antt =====
-- What rules and triggers mean: the times that they name.
use muscle.Prelude.{ℕ, ◌≡◌, ◌<◌, ◌⊎◌, List, [], ◌∷◌, Option, none, some, ℤ, ◌≤ℤ◌}
use muscle.Prelude.Floor.{◌+ℤ◌, times}
use muscle.Checkpoints.{Rule, at_rule, range_rule, Trigger, at_trigger, ranged, or_zero}
use muscle.Checkpoints.Exact.{exact_last, IsLastExact}

abbrev pub Among : ℤ → List ℤ → Type 0
Among t [] = ⊥
Among t (x ∷ xs) = (t ≡ x) ⊎ Among t xs

abbrev pub From : Option ℤ → ℤ → Type 0
From none t = Unit {0}
From (some start) t = start ≤ℤ t

abbrev pub Until : Option ℤ → ℤ → Type 0
Until none t = Unit {0}
Until (some stop) t = t ≤ℤ stop

-- Whole periods from the start, or from 0, and between the bounds that are given.
abbrev pub InRange : Option ℤ → Option ℤ → ℕ → ℤ → Type 0
InRange start stop every t =
    (k : ℤ) × (t ≡ or_zero start +ℤ times k every) × From start t × Until stop t

-- A range that does not stop before it starts.
abbrev pub IsOrdered : Option ℤ → Option ℤ → Type 0
IsOrdered (some start) (some stop) = start ≤ℤ stop
IsOrdered _ _ = Unit {0}

abbrev pub Names : Rule → ℤ → Type 0
Names (at_rule ts) t = Among t ts
Names (range_rule start stop none) t = ⊥
Names (range_rule start stop (some every)) t = InRange start stop every t

-- A time that one of the rules names.
abbrev pub Named : List Rule → ℤ → Type 0
Named [] t = ⊥
Named (r ∷ rs) t = Names r t ⊎ Named rs t

abbrev pub IsRule : Rule → Type 0
IsRule (at_rule ts) = Unit {0}
IsRule (range_rule start stop none) = Unit {0}
IsRule (range_rule start stop (some every)) =
    (0 < every) × IsOrdered start stop × IsLastExact start stop every

-- Rules whose ranges have a period, do not stop before they start, and are not rounded across a period
-- where they stop.
abbrev pub AreRules : List Rule → Type 0
AreRules [] = Unit {0}
AreRules (r ∷ rs) = IsRule r × AreRules rs

-- The same for triggers.
abbrev pub Has : Trigger → ℤ → Type 0
Has (at_trigger ts) t = Among t ts
Has (ranged r) t = InRange r.start r.stop r.every t

abbrev pub HasAny : List Trigger → ℤ → Type 0
HasAny [] t = ⊥
HasAny (x ∷ xs) t = Has x t ⊎ HasAny xs t

-- No time is before the first, which is no later than each.
abbrev pub NoneBefore : ℤ → List ℤ → Type 0
NoneBefore t [] = Unit {0}
NoneBefore t (x ∷ xs) = (t ≤ℤ x) × NoneBefore t xs

abbrev pub IsSorted : List ℤ → Type 0
IsSorted [] = Unit {0}
IsSorted (x ∷ xs) = NoneBefore x xs × IsSorted xs

abbrev pub IsTrigger : Trigger → Type 0
IsTrigger (at_trigger ts) = IsSorted ts
IsTrigger (ranged r) =
    (0 < r.every) × IsOrdered r.start r.stop × (r.last ≡ exact_last r.start r.stop r.every)

abbrev pub AreTriggers : List Trigger → Type 0
AreTriggers [] = Unit {0}
AreTriggers (x ∷ xs) = IsTrigger x × AreTriggers xs
