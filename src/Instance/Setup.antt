-- ===== src/Instance/Setup.antt =====
-- instance.cpp: setting up checkpointing, and shutting down after an error.
use muscle.Prelude.{
  Bool, not, ◌&&◌, ◌||◌, Option, none, some, Result, ok, err, ◌>>=◌, ◌>>◌, runtime_error, ℤ,
  if◌then◌else◌,
}
use muscle.Identity.{Text}
use muscle.Snapshots.Resume.{prepare_resume}
use muscle.Checkpoints.Manager.{
  TriggerManager, Checkpoints, set_checkpoint_info, update_checkpoints,
}
use muscle.Instance.{Flags, Failure, thrown, may_throw, Moment, Instance}
use muscle.Instance.Closing.{shutdown_}

-- flags_ & checkpoint_support_mask
abbrev pub supports_checkpoints : Flags → Bool
supports_checkpoints flags =
    flags.uses_checkpoint_api
    || (flags.keeps_no_state_for_next_use || flags.state_not_required_for_next_use)

abbrev pub updated_from : ℤ → Option ℤ → TriggerManager → TriggerManager
updated_from now none m = m
updated_from now (some saved_at) m = update_checkpoints now saved_at m

module _ {V X : Type 0} where
  -- Impl::error_shutdown
  unfoldable pub error_shutdown : Moment → Instance V X → Result Failure (Instance V X)
  unfolding shutdown_
  error_shutdown at st = shutdown_ at st

  -- Impl::setup_checkpointing_, with what the manager gives and the working directory.
  unfoldable pub setup_checkpointing_ :
      Moment
      → ℤ
      → Checkpoints
      → Option Text
      → Option Text
      → Text
      → Instance V X
      → Result Failure (Instance V X)
  unfolding set_checkpoint_info prepare_resume update_checkpoints
  setup_checkpointing_ at elapsed_time checkpoints resume_snapshot snapshot_dir working_path st = do
    trigger_manager ←
        may_throw (set_checkpoint_info at.now elapsed_time checkpoints st.trigger_manager)
    (if trigger_manager.has_checkpoints && not (supports_checkpoints st.flags)
        then err (thrown runtime_error)
        else ok tt)
    (saved_at, c, snapshot_manager) ← may_throw (
        prepare_resume working_path resume_snapshot snapshot_dir st.communicator
          st.snapshot_manager)
    ok (record st {
      trigger_manager = updated_from at.now saved_at trigger_manager;
      communicator = c;
      snapshot_manager = snapshot_manager;
      settings_manager = record st.settings_manager { overlay = snapshot_manager.resume_overlay };
    })
