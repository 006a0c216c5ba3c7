-- ===== src/Checkpoints/Manager.antt =====
-- TriggerManager (libmuscle/cpp/src/libmuscle/checkpoint_triggers.{hpp,cpp}): when to save a
-- snapshot. A reading of the steady clock is an argument of the functions that read it,
-- and the conversion of its durations to doubles is left out.
use muscle.Prelude.{
  Bool, true, false, ◌||◌, not, List, [], ◌∷◌, ◌++◌, Option, none, some, Result, ok, ◌>>=◌, Error,
  ℤ, pos, ltb_ℤ, leb_ℤ, if◌then◌else◌,
}
use muscle.Prelude.Floor.{◌-ℤ◌}
use muscle.Checkpoints.{Rule, Trigger, combined, next_checkpoint, previous_checkpoint, has_rules}

-- Why a snapshot is saved; the code has the texts.
pub data Cause : Type 0 where
  at_end : Cause
  wallclock_time simulation_time : ℤ → Cause

-- Where the code has minus infinity for the time up to which checkpoints were considered, `none`.
pub record TriggerManager : Type 0 where
  pub has_checkpoints : Bool
  pub last_triggers : List Cause
  pub cpts_considered_until : Option ℤ
  pub simulation_epoch : ℤ
  pub checkpoint_at_end : Bool
  pub wall : List Trigger
  pub prevwall : ℤ
  pub nextwall : Option ℤ
  pub sim : List Trigger
  pub prevsim : Option ℤ
  pub nextsim : Option ℤ

abbrev pub trigger_manager : TriggerManager
trigger_manager = record {
  has_checkpoints = false;
  last_triggers = [];
  cpts_considered_until = none;
  simulation_epoch = pos 0;
  checkpoint_at_end = false;
  wall = [];
  prevwall = pos 0;
  nextwall = some (pos 0);
  sim = [];
  prevsim = none;
  nextsim = none;
}

-- encoded_checkpoints
pub record Checkpoints : Type 0 where
  pub at_end : Bool
  pub wallclock_time : List Rule
  pub simulation_time : List Rule

abbrev pub with_rules : ℤ → ℤ → Bool → List Trigger → List Trigger → TriggerManager → TriggerManager
with_rules now elapsed end wall sim m = record {
  has_checkpoints = (end || has_rules wall) || has_rules sim;
  last_triggers = m.last_triggers;
  cpts_considered_until = m.cpts_considered_until;
  simulation_epoch = now -ℤ elapsed;
  checkpoint_at_end = end;
  wall = wall;
  prevwall = pos 0;
  nextwall = next_checkpoint wall (pos 0);
  sim = sim;
  prevsim = none;
  nextsim = none;
}

unfoldable pub set_checkpoint_info :
    ℤ → ℤ → Checkpoints → TriggerManager → Result Error TriggerManager
set_checkpoint_info now elapsed c m = combined c.wallclock_time >>= λ wall.
    combined c.simulation_time >>= λ sim. ok (with_rules now elapsed c.at_end wall sim m)

unfoldable pub elapsed_walltime : ℤ → TriggerManager → ℤ
elapsed_walltime now m = now -ℤ m.simulation_epoch

abbrev pub checkpoints_considered_until : TriggerManager → Option ℤ
checkpoints_considered_until m = m.cpts_considered_until

-- The two readings of the clock are one here: only the first is read.
unfoldable pub harmonise_wall_time : ℤ → ℤ → TriggerManager → TriggerManager
unfolding elapsed_walltime
harmonise_wall_time now at_least m =
    let cur = elapsed_walltime now m in
    if ltb_ℤ cur at_least
    then record m { simulation_epoch = m.simulation_epoch -ℤ (at_least -ℤ cur) }
    else m

-- The first time that is asked, a rule before it counts as not yet done.
abbrev pub first_nextsim : List Trigger → ℤ → Option ℤ → Option ℤ → Option ℤ
first_nextsim sim t (some next) prevsim = some next
first_nextsim sim t none (some prev) = none
first_nextsim sim t none none = elim (previous_checkpoint sim t) [
  | some previous ↦ some previous
  | none ↦ next_checkpoint sim t
]

abbrev pub reached : (ℤ → Cause) → ℤ → Option ℤ → List Cause
reached cause t none = []
reached cause t (some next) = if leb_ℤ next t then cause next ∷ [] else []

abbrev pub is_empty : List Cause → Bool
is_empty [] = true
is_empty (c ∷ cs) = false

unfoldable pub should_save_ : ℤ → ℤ → TriggerManager → Bool × TriggerManager
unfolding elapsed_walltime
should_save_ now time m =
    let nextsim = first_nextsim m.sim time m.nextsim m.prevsim in
    let walltime = elapsed_walltime now m in
    let triggers =
      reached wallclock_time walltime m.nextwall ++ reached simulation_time time nextsim in
    (
      not (is_empty triggers),
      record m {
        last_triggers = triggers;
        cpts_considered_until = some walltime;
        nextsim = nextsim;
      },
    )

unfoldable pub should_save_snapshot : ℤ → ℤ → TriggerManager → Bool × TriggerManager
unfolding should_save_
should_save_snapshot now timestamp m =
    if m.has_checkpoints then should_save_ now timestamp m else (false, m)

unfoldable pub should_save_final_snapshot :
    ℤ → Bool → Option ℤ → TriggerManager → Bool × TriggerManager
unfolding should_save_
should_save_final_snapshot now do_reuse f_init_max_timestamp m =
    if not m.has_checkpoints then (false, m) else final_choice do_reuse f_init_max_timestamp
  where
    final_choice : Bool → Option ℤ → Bool × TriggerManager
    final_choice false t =
        if m.checkpoint_at_end
        then (true, record m { last_triggers = m.last_triggers ++ at_end ∷ [] })
        else (false, m)
    final_choice true none = (false, m)
    final_choice true (some t) = should_save_ now t m

unfoldable pub update_checkpoints : ℤ → ℤ → TriggerManager → TriggerManager
unfolding elapsed_walltime
update_checkpoints now timestamp m = record m {
  prevwall = elapsed_walltime now m;
  nextwall = next_checkpoint m.wall (elapsed_walltime now m);
  prevsim = some timestamp;
  nextsim = next_checkpoint m.sim timestamp;
}

unfoldable pub get_triggers : TriggerManager → List Cause × TriggerManager
get_triggers m = (m.last_triggers, record m { last_triggers = [] })
