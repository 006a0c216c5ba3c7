-- ===== src/Checkpoints/Passed.antt =====
-- A snapshot is to be saved when the clock or the simulation has passed a checkpoint.
use muscle.Prelude.{◌≡◌, refl, ◌||◌, ℤ, ltb_ℤ, arith, if◌then◌else◌, Bool-cases, inl, inr}
use muscle.Prelude.Floor.{◌-ℤ◌, difference_parts, eq_of_differences}
use muscle.Checkpoints.{has_rules}
use muscle.Checkpoints.Rules.{AreTriggers}
use muscle.Checkpoints.Manager.{TriggerManager, Checkpoints, elapsed_walltime, harmonise_wall_time}
use muscle.Checkpoints.Due.{Due}

-- What the manager knows about its rules.
abbrev pub IsManager : TriggerManager → Type 0
IsManager m =
    AreTriggers m.wall
    × AreTriggers m.sim
    × (m.has_checkpoints ≡ (m.checkpoint_at_end || has_rules m.wall) || has_rules m.sim)

-- Harmonising moves the clock forward to the time that is asked for when it is behind that, and
-- leaves it otherwise.
pub harmonise_forward :
    (now at_least : ℤ) (m : TriggerManager)
    → elapsed_walltime now (harmonise_wall_time now at_least m)
      ≡ (if ltb_ℤ (elapsed_walltime now m) at_least then at_least else elapsed_walltime now m)
unfolding harmonise_wall_time elapsed_walltime
harmonise_forward now at_least m = elim (Bool-cases (ltb_ℤ (now -ℤ m.simulation_epoch) at_least)) [
  | inl e ↦ rw e (moved m.simulation_epoch)
  | inr e ↦ rw e refl
]
  where
    moved : (epoch : ℤ) → now -ℤ (epoch -ℤ (at_least -ℤ (now -ℤ epoch))) ≡ at_least
    moved epoch = eq_of_differences _ _ (
        omega (
          arith,
          difference_parts now (epoch -ℤ (at_least -ℤ (now -ℤ epoch))),
          difference_parts epoch (at_least -ℤ (now -ℤ epoch)),
          difference_parts at_least (now -ℤ epoch),
          difference_parts now epoch,
        ))
