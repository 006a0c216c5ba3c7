-- ===== src/Instance/Reuse.antt =====
-- instance.cpp: the calls of the reuse loop.
use muscle.Prelude.{
  ℕ, Bool, true, false, not, ◌&&◌, ◌||◌, Option, none, some, Result, ok, err, ◌>>=◌, ◌>>◌,
  runtime_error, undefined, or_throw, ℤ, if◌then◌else◌, Eq, list_eq, nat_eq,
}
use muscle.Identity.{part_eq}
use muscle.Guard.{
  Check, verify_reuse_instance, reuse_instance_done, verify_should_save_final_snapshot,
  should_save_final_snapshot_done,
}
use muscle.Snapshots.{resuming_from_intermediate, resuming_from_final}
use muscle.Snapshots.Resume.{save_snapshot}
use muscle.Checkpoints.Manager.{get_triggers, elapsed_walltime, update_checkpoints}
use muscle.Checkpoints.Manager as Manager
use muscle.Instance.{Flags, Failure, thrown, may_throw, Moment, InstanceMessage, Instance}
use muscle.Instance.Incoming.{have_f_init_connections_, pre_receive_, f_init_max_timestamp_}
use muscle.Instance.Closing.{shutdown_}

-- The exceptions of the guard are std::runtime_error.
abbrev pub verified : Check → Result Failure (Unit {0})
verified (ok _) = ok tt
verified (err c) = err (thrown runtime_error)

-- if (!first_run_.is_set()) first_run_ = true; else first_run_ = false;
abbrev pub is_first : Option Bool → Bool
is_first none = true
is_first (some b) = false

-- A snapshot without a state, for an instance that needs none.
abbrev pub does_implicit_checkpoint : Bool → Flags → Bool
does_implicit_checkpoint first flags =
    not first
    && (not flags.uses_checkpoint_api
        && (flags.state_not_required_for_next_use || flags.keeps_no_state_for_next_use))

module _ {V X : Type 0} where
  -- What the instance decides at the top of the reuse loop: do_resume_, do_init_ and do_reuse.
  abbrev pub decided : Bool → Bool → Bool → Instance V X → Bool × Instance V X
  decided do_resume do_init do_reuse st =
      (do_reuse, record st { do_resume = do_resume; do_init = do_init })

  abbrev pub decide_fresh :
      Bool
      → Bool
      → Result Failure (Bool × Instance V X)
      → Instance V X
      → Result Failure (Bool × Instance V X)
  decide_fresh first false pre_received st = ok (decided false first first st)
  decide_fresh first true pre_received st = pre_received >>= λ r. ok (decided false r.0 r.0 r.1)

  abbrev pub decide_final :
      Bool
      → Result Failure (Bool × Instance V X)
      → Instance V X
      → Result Failure (Bool × Instance V X)
  decide_final false pre_received st = ok (decided false false false st)
  decide_final true pre_received st = pre_received >>= λ r. ok (decided true true r.0 r.1)

module _ {V X : Type 0} ⦃e : Eq V⦄ where
  -- Impl::decide_reuse_instance_, on an instance whose first_run_ is set.
  unfoldable pub decide_on : ℕ → Bool → Instance V X → Result Failure (Bool × Instance V X)
  unfolding have_f_init_connections_ pre_receive_
  decide_on rounds first st =
      if first && resuming_from_intermediate st.snapshot_manager
      then ok (decided true false true st)
      else (if first && resuming_from_final st.snapshot_manager
          then decide_final (have_f_init_connections_ st) (pre_receive_ rounds st) st
          else decide_fresh first (have_f_init_connections_ st) (pre_receive_ rounds st) st)

  unfoldable pub decide_reuse_instance_ : ℕ → Instance V X → Result Failure (Bool × Instance V X)
  unfolding decide_on
  decide_reuse_instance_ rounds st =
      decide_on rounds (is_first st.first_run)
        (record st { first_run = some (is_first st.first_run) })

module _ {V X : Type 0} where
  -- Impl::save_snapshot_
  unfoldable pub save_snapshot_ :
      Moment
      → Option (InstanceMessage V X)
      → Bool
      → Option ℤ
      → Instance V X
      → Result Failure (Instance V X)
  unfolding get_triggers elapsed_walltime save_snapshot update_checkpoints
  save_snapshot_ at message final f_init_max_timestamp st =
      let (triggers, trigger_manager) = get_triggers st.trigger_manager in
      let (timestamp, snapshot_manager) =
        save_snapshot at.minus_infinity st.communicator message final triggers
          (elapsed_walltime at.now trigger_manager) f_init_max_timestamp st.settings_manager.overlay
          st.snapshot_manager in
      may_throw timestamp >>= λ t. ok (record st {
        snapshot_manager = snapshot_manager;
        trigger_manager = update_checkpoints at.now t trigger_manager;
      })

  unfoldable pub implicit_checkpoint : Moment → Bool → Instance V X → Result Failure (Instance V X)
  unfolding f_init_max_timestamp_ Manager.should_save_final_snapshot save_snapshot_
  implicit_checkpoint at do_reuse st =
      let (saves, trigger_manager) =
        Manager.should_save_final_snapshot at.now do_reuse (f_init_max_timestamp_ st)
          st.trigger_manager in
      if saves
      then save_snapshot_ at none true (f_init_max_timestamp_ st)
          (record st { trigger_manager = trigger_manager })
      else ok (record st { trigger_manager = trigger_manager })

  -- What follows the decision in reuse_instance().
  unfoldable pub after_decision :
      Moment → Bool → Instance V X → Result Failure (Bool × Instance V X)
  unfolding implicit_checkpoint shutdown_ reuse_instance_done
  after_decision at do_reuse st = do
    first ← may_throw (or_throw st.first_run undefined)
    st1 ←
        (if does_implicit_checkpoint first st.flags
          then implicit_checkpoint at do_reuse st
          else ok st)
    st2 ← (if not do_reuse then shutdown_ at st1 else ok st1)
    ok (do_reuse, record st2 { api_guard = reuse_instance_done st2.api_guard do_reuse })

module _ {V X : Type 0} ⦃e : Eq V⦄ where
  -- The decision that should_save_final_snapshot() has made already, or a new one.
  abbrev pub decision : ℕ → Option Bool → Instance V X → Result Failure (Bool × Instance V X)
  decision rounds (some do_reuse) st = ok (do_reuse, record st { do_reuse = none })
  decision rounds none st = decide_reuse_instance_ rounds st

  unfoldable pub reuse_instance : Moment → Instance V X → Result Failure (Bool × Instance V X)
  unfolding verify_reuse_instance decide_reuse_instance_ after_decision
  reuse_instance at st = do
    verified (verify_reuse_instance st.api_guard)
    (do_reuse, st') ← decision at.rounds st.do_reuse st
    after_decision at do_reuse st'

  unfoldable pub should_save_final_snapshot :
      Moment → Instance V X → Result Failure (Bool × Instance V X)
  unfolding verify_should_save_final_snapshot decide_reuse_instance_ f_init_max_timestamp_
      Manager.should_save_final_snapshot should_save_final_snapshot_done
  should_save_final_snapshot at st = do
    verified (verify_should_save_final_snapshot st.api_guard)
    (do_reuse, st1) ← decide_reuse_instance_ at.rounds st
    (let (result, trigger_manager) =
          Manager.should_save_final_snapshot at.now do_reuse (f_init_max_timestamp_ st1)
            st1.trigger_manager in
        ok (
          result,
          record st1 {
            do_reuse = some do_reuse;
            trigger_manager = trigger_manager;
            api_guard = should_save_final_snapshot_done st1.api_guard result;
          },
        ))
