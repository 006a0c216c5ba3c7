-- ===== src/Snapshots/Resume.antt =====
-- snapshot_manager.cpp: saving a snapshot, and resuming from one.
use muscle.Prelude.{
  Bool, List, [], ◌∷◌, ◌++◌, Option, none, some, Result, ok, err, ◌>>=◌, Error, if◌then◌else◌,
  list_eq, nat_eq,
}
use muscle.Identity.{Text, part_eq}
use muscle.Communicator.{Message, Communicator}
use muscle.Communicator.Counts.{all_message_counts, restore_all}
use muscle.Checkpoints.Manager.{Cause}
use muscle.Snapshots.{Snapshot, SnapshotMetadata, SnapshotManager, final_counts}
use muscle.Snapshots.Files.{load_snapshot_from_file, store_snapshot_}

-- -INFINITY stands for no time; a message has its own.
abbrev pub timestamp_of : {T S D : Type 0} → T → Option (Message T S D) → T
timestamp_of minus_infinity none = minus_infinity
timestamp_of minus_infinity (some message) = message.timestamp

abbrev pub option_or : {T : Type 0} → Option T → T → T
option_or none t = t
option_or (some t) _ = t

module _ {T S D : Type 0} where
  abbrev pub from_snapshot : Snapshot T S D → Text → SnapshotMetadata T
  from_snapshot snapshot path = record {
    triggers = snapshot.triggers;
    wallclock_time = snapshot.wallclock_time;
    timestamp = elim snapshot.message [ none ↦ none | some message ↦ some message.timestamp ];
    next_timestamp = elim snapshot.message [ none ↦ none | some message ↦ message.next_timestamp ];
    port_message_counts = snapshot.port_message_counts;
    is_final_snapshot = snapshot.is_final_snapshot;
    snapshot_filename = path;
  }

  -- Storing a snapshot and telling the manager of it.
  unfoldable pub store_and_submit :
      Snapshot T S D → SnapshotManager T S D → Result Error (Unit {0}) × SnapshotManager T S D
  unfolding store_snapshot_
  store_and_submit snapshot m =
      let (outcome, m') = store_snapshot_ snapshot m in
      elim outcome [
        | err e ↦ (err e, m')
        | ok path ↦
            (ok tt, record m' { submitted = m'.submitted ++ from_snapshot snapshot path ∷ [] })
      ]

  abbrev pub snapshot_of :
      Communicator T S D → Option (Message T S D) → Bool → List Cause → T → S → Snapshot T S D
  snapshot_of c message is_final triggers wallclock_time settings_overlay = record {
    triggers = triggers;
    wallclock_time = wallclock_time;
    port_message_counts =
        if is_final then final_counts c (all_message_counts c) else all_message_counts c;
    is_final_snapshot = is_final;
    message = message;
    settings_overlay = settings_overlay;
  }

  unfoldable pub save_snapshot :
      T
      → Communicator T S D
      → Option (Message T S D)
      → Bool
      → List Cause
      → T
      → Option T
      → S
      → SnapshotManager T S D
      → Result Error T × SnapshotManager T S D
  unfolding store_and_submit final_counts all_message_counts
  save_snapshot minus_infinity c message is_final triggers wallclock_time f_init_max
        settings_overlay m =
      let (outcome, m') =
        store_and_submit (snapshot_of c message is_final triggers wallclock_time settings_overlay)
          m in
      (
        outcome >>= λ _. ok (
            if is_final
            then option_or f_init_max (timestamp_of minus_infinity message)
            else timestamp_of minus_infinity message),
        m',
      )

  abbrev pub resume_from : Snapshot T S D → SnapshotManager T S D → SnapshotManager T S D
  resume_from s m = record m {
    resume_from_snapshot = elim s.message [ none ↦ m.resume_from_snapshot | some message ↦ some s ];
    resume_overlay = s.settings_overlay;
  }

  -- SnapshotManager::prepare_resume. The working directory is an argument.
  unfoldable pub prepare_resume :
      Text
      → Option Text
      → Option Text
      → Communicator T S D
      → SnapshotManager T S D
      → Result Error (Option T × Communicator T S D × SnapshotManager T S D)
  unfolding load_snapshot_from_file restore_all store_and_submit
  prepare_resume working_path none snapshot_directory c m =
      ok (none, c, record m { snapshot_directory = option_or snapshot_directory working_path })
  prepare_resume working_path (some resume_snapshot) snapshot_directory c m = do
    s ← load_snapshot_from_file resume_snapshot m.disk
    c' ← restore_all s.port_message_counts c
    submitted s c' (
        store_and_submit s (
          resume_from s
            (record m { snapshot_directory = option_or snapshot_directory working_path })))
    where
      submitted :
          Snapshot T S D
          → Communicator T S D
          → Result Error (Unit {0}) × SnapshotManager T S D
          → Result Error (Option T × Communicator T S D × SnapshotManager T S D)
      submitted s c' (err e, m') = err e
      submitted s c' (ok _, m') =
          ok (elim s.message [ none ↦ none | some message ↦ some message.timestamp ], c', m')
