-- ===== src/Settings/Assigned.antt =====
-- Assignments between the values of settings, where two names may be one object.
use muscle.Prelude.{ℕ, ◌≡◌, refl, Bool-cases, inl, inr, eqb, if◌then◌else◌}
use muscle.Settings.Values.{SettingValue, inactive, copy_assign, move_assign}

-- After a copy the object has the value of the other, or none when it is the other itself, and all
-- objects else are as before.
pub copy_assign_lem :
    {F : Type 0} (this_ other z : ℕ) (objects : ℕ → SettingValue F)
    → copy_assign this_ other objects z
      ≡ (if eqb z this_ then (if eqb other this_ then inactive else objects other) else objects z)
unfolding copy_assign
copy_assign_lem this_ other z objects = elim (Bool-cases (eqb z this_)) [
  | inl e ↦ rw e refl
  | inr e ↦ rw e refl
]

-- After a move the object has the value of the other, or none when it is the other itself, the other
-- has none, and all objects else are as before.
pub move_assign_lem :
    {F : Type 0} (this_ other z : ℕ) (objects : ℕ → SettingValue F)
    → move_assign this_ other objects z ≡ (
        if eqb z other
        then inactive
        else (if eqb z this_
            then (if eqb other this_ then inactive else objects other)
            else objects z))
unfolding move_assign
move_assign_lem this_ other z objects = elim (Bool-cases (eqb z other)) [
  | inl e ↦ rw e refl
  | inr e ↦ elim (Bool-cases (eqb z this_)) [ inl k ↦ rw (e, k) refl | inr k ↦ rw (e, k) refl ]
]
