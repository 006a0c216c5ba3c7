-- ===== src/Snapshots.antt =====
-- libmuscle/cpp/src/libmuscle/snapshot_manager.{hpp,cpp} and snapshot.{hpp,cpp}: storing the state
-- of an instance and resuming from it. Times, settings and data are of any types. MessagePack, which
-- makes bytes of data and data of bytes, is an argument.
pub mod Encoding
pub mod Decoded
pub mod Files
pub mod Resume
pub mod Store
pub mod Numbered
pub mod Saved
mod Examples
use muscle.Prelude.{
  ℕ, zero, suc, Bool, true, false, not, List, [], ◌∷◌, ◌++◌, map, Option, none, some, Result, ok,
  err, ◌>>=◌, or_throw, Error, runtime_error, undefined, ℤ, pred_ℤ, if◌then◌else◌, eqb, list_eq,
  nat_eq,
}
use muscle.Prelude.Dict.{Dict, lookup, insert, contains}
use muscle.Identity.{Text, Reference, part_eq}
use muscle.Identity.Parse.{parts_to_string}
use muscle.Identity.Decimal.{show}
use muscle.Model.{Operator, f_init}
use muscle.Port.{Port}
use muscle.Communicator.{Payload, Message, Communicator}
use muscle.Communicator.Counts.{settings_in_name, all_message_counts, restore_all}
use muscle.Checkpoints.Manager.{Cause}

pub record Snapshot (T S D : Type 0) : Type 0 where
  pub triggers : List Cause
  pub wallclock_time : T
  pub port_message_counts : Dict Text (List ℤ)
  pub is_final_snapshot : Bool
  pub message : Option (Message T S D)
  pub settings_overlay : S

-- Where the code has NaN for the time of no message, `none`.
pub record SnapshotMetadata (T : Type 0) : Type 0 where
  pub triggers : List Cause
  pub wallclock_time : T
  pub timestamp : Option T
  pub next_timestamp : Option T
  pub port_message_counts : Dict Text (List ℤ)
  pub is_final_snapshot : Bool
  pub snapshot_filename : Text

-- Data, as far as snapshots use it. A trigger is a text in the code. Of an encoded MPPMessage there is
-- what it is made of, without the constants for the port's length and for saved_until.
mutual
  pub data Data (T S D : Type 0) : Type 0 where
    nil : Data T S D
    bool : Bool → Data T S D
    int : ℤ → Data T S D
    double : T → Data T S D
    trigger : Cause → Data T S D
    settings : S → Data T S D
    mpp_message : Reference → Reference → T → Option T → Option S → ℤ → Payload D → Data T S D
    array : Items T S D → Data T S D
    dict : Entries T S D → Data T S D

  pub data Items (T S D : Type 0) : Type 0 where
    no_items : Items T S D
    item : Data T S D → Items T S D → Items T S D

  pub data Entries (T S D : Type 0) : Type 0 where
    no_entries : Entries T S D
    entry : Text → Data T S D → Entries T S D → Entries T S D

-- A file is empty when it has just been made; `other` is one that was not written to its end; else it
-- has a first byte and more.
pub data Content : Type 0 where
  empty other : Content
  written : ℕ → List ℕ → Content

-- What is on the disk, and which files cannot be made, opened after that, or written; and how
-- MessagePack packs data into bytes and unpacks it.
pub record Disk (T S D : Type 0) : Type 0 where
  pub files : Dict Text Content
  pub denied : Text → Bool
  pub cannot_open : Text → Bool
  pub cannot_write : Text → Bool
  pub pack : Data T S D → List ℕ
  pub unpack : List ℕ → Result Error (Data T S D)

pub record SnapshotManager (T S D : Type 0) : Type 0 where
  pub resume_from_snapshot : Option (Snapshot T S D)
  pub resume_overlay : S
  pub next_snapshot_num : ℕ
  pub snapshot_directory : Text
  pub safe_id : Text
  pub submitted : List (SnapshotMetadata T)
  pub disk : Disk T S D

-- std::replace of '[' by '-', then the removal of ']'
unfoldable pub safe_text : Text → Text
safe_text [] = []
safe_text (c ∷ cs) =
    let rest = safe_text cs in
    if eqb c b'[' then b'-' ∷ rest else (if eqb c b']' then rest else c ∷ rest)

-- The loop over the ports, with the counts of each of them.
unfoldable pub decremented : List Text → Dict Text (List ℤ) → Dict Text (List ℤ)
unfolding lookup insert
decremented [] counts = counts
decremented (port_name ∷ names) counts = decremented names (
    insert port_name (map pred_ℤ (elim (lookup port_name counts) [ none ↦ [] | some ns ↦ ns ]))
      counts)

abbrev pub is_f_init : Operator → Bool
is_f_init f_init = true
is_f_init _ = false

-- list_ports() at Operator::F_INIT
unfoldable pub f_init_ports : Dict Text Port → List Text
f_init_ports [] = []
f_init_ports ((port_name, port) ∷ ports) =
    if is_f_init port.oper then port_name ∷ f_init_ports ports else f_init_ports ports

-- What counts as received in a final snapshot: the messages for F_INIT have come already, and are not
-- used yet.
unfoldable pub final_counts :
    {T S D : Type 0} → Communicator T S D → Dict Text (List ℤ) → Dict Text (List ℤ)
unfolding decremented f_init_ports
final_counts c counts =
    let counts' = decremented (f_init_ports c.ports) counts in
    if c.muscle_settings_in.is_connected
    then decremented (settings_in_name ∷ []) counts'
    else counts'

module _ {T S D : Type 0} where
  -- SnapshotManager::SnapshotManager
  unfoldable pub new : S → Reference → Disk T S D → SnapshotManager T S D
  unfolding safe_text parts_to_string
  new no_settings instance_id disk = record {
    resume_from_snapshot = none;
    resume_overlay = no_settings;
    next_snapshot_num = 1;
    snapshot_directory = [];
    safe_id = safe_text (parts_to_string instance_id);
    submitted = [];
    disk = disk;
  }

  abbrev pub resuming_from_intermediate : SnapshotManager T S D → Bool
  resuming_from_intermediate m = elim m.resume_from_snapshot [
    | none ↦ false
    | some s ↦ not s.is_final_snapshot
  ]

  abbrev pub resuming_from_final : SnapshotManager T S D → Bool
  resuming_from_final m = elim m.resume_from_snapshot [
    | none ↦ false
    | some s ↦ s.is_final_snapshot
  ]

  unfoldable pub load_snapshot : SnapshotManager T S D → Result Error (Message T S D)
  load_snapshot m = do
    s ← or_throw m.resume_from_snapshot runtime_error
    or_throw s.message undefined
