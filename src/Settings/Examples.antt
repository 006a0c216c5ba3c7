-- ===== src/Settings/Examples.antt =====
-- Settings for an instance micro[2] and others.
use muscle.Prelude.{ℕ, ◌≡◌, ◌≢◌, ◌↔◌, ◌≤◌, refl, [], ◌∷◌, ◌++◌, some, ok, length, arith}
use muscle.Prelude.Dict.{lookup}
use muscle.Identity.{Reference, id_part, index_part}
use muscle.Identity.Parse.{parts_to_string}
use muscle.Settings.{SettingsManager, found, get_setting, search, name_for}
use muscle.Settings.Names.{name_for_iff}
use muscle.Prelude.{pos, negsuc, ◌≤ℤ◌}
use muscle.Settings.Values.{int_value, inactive, SettingValue, as_int32, as_int64, copy_assign}
use muscle.Settings.Ranges.{as_int32_iff}

abbrev step_size : Reference
step_size = id_part (b'd' ∷ b't' ∷ []) ∷ []

abbrev micro : Reference
micro = id_part (b'm' ∷ []) ∷ index_part 2 ∷ []

abbrev manager : SettingsManager ℕ
manager = record {
  base = (step_size, 1) ∷ (id_part (b'm' ∷ []) ∷ step_size, 2) ∷ [];
  overlay = (step_size, 3) ∷ [];
}

-- The value for the component in the base is nearer than the overlay's for all.
nearest_wins : get_setting manager micro step_size ≡ ok 2
unfolding get_setting search found lookup
nearest_wins = refl

name_for_iff_example : (name_for micro (micro ++ step_size) ≡ some (b'd' ∷ b't' ∷ [])) ↔ (
    (rest : Reference) × (micro ++ step_size ≡ micro ++ rest)
    × (1 ≤ length rest)
    × ((b'd' ∷ b't' ∷ []) ≡ parts_to_string rest))
name_for_iff_example = name_for_iff micro (micro ++ step_size) (b'd' ∷ b't' ∷ []) three_parts
  where
    three_parts : length (micro ++ step_size) ≢ 1
    three_parts h = omega arith

as_int32_iff_example :
    (as_int32 {F = ℕ} (int_value (negsuc 2147483647)) ≡ ok (negsuc 2147483647)) ↔ (
      (as_int64 {F = ℕ} (int_value (negsuc 2147483647)) ≡ ok (negsuc 2147483647))
      × (negsuc 2147483647 ≤ℤ negsuc 2147483647)
      × (negsuc 2147483647 ≤ℤ pos 2147483647))
as_int32_iff_example = as_int32_iff {F = ℕ} (int_value (negsuc 2147483647)) (negsuc 2147483647)

abbrev objects : ℕ → SettingValue ℕ
objects n = int_value (pos n)

assigned_to_itself : copy_assign 4 4 objects 4 ≡ inactive
unfolding copy_assign
assigned_to_itself = refl
