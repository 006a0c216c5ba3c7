-- ===== src/Snapshots/Files.antt =====
-- snapshot_manager.cpp: the files of snapshots.
use muscle.Prelude.{
  ℕ, zero, suc, Bool, true, false, [], ◌∷◌, ◌++◌, none, some, Result, ok, err, Error, runtime_error,
  ◌>>=◌, eqb, if◌then◌else◌, list_eq, nat_eq,
}
use muscle.Prelude.Dict.{lookup, insert, contains}
use muscle.Identity.{Text, part_eq}
use muscle.Identity.Decimal.{show}
use muscle.Snapshots.{Snapshot, SnapshotManager, Data, Disk, Content, empty, other, written}
use muscle.Snapshots.Encoding.{to_data, from_data}

-- The name of the file for a snapshot with a number.
unfoldable pub file_path : Text → Text → ℕ → Text
unfolding show
file_path directory safe_id n =
    directory ++ b'/' ∷ (safe_id ++ b'_' ∷ (show n ++ b'.' ∷ b'p' ∷ b'a' ∷ b'c' ∷ b'k' ∷ []))

-- open() with O_CREAT and O_EXCL, then opening for writing. A name is skipped where the file exists,
-- or where it was made but cannot be opened.
pub data Made : Type 0 where
  made skipped failed : Made

-- MAX_FILE_EXISTS_CHECK
abbrev pub max_file_exists_check : ℕ
max_file_exists_check = 10000

-- Snapshot::VersionByte::MESSAGEPACK
abbrev pub messagepack : ℕ
messagepack = b'1'

module _ {T S D : Type 0} where
  -- The switch over the version byte, and from_bytes of what was unpacked.
  unfoldable pub by_version : ℕ → Result Error (Data T S D) → Result Error (Snapshot T S D)
  unfolding from_data
  by_version version unpacked =
      if eqb version messagepack then (unpacked >>= from_data) else err runtime_error

  unfoldable pub load_snapshot_from_file : Text → Disk T S D → Result Error (Snapshot T S D)
  unfolding lookup by_version
  load_snapshot_from_file location disk = elim (lookup location disk.files) [
    | some (written version bytes) ↦ by_version version (disk.unpack bytes)
    | some empty ↦ err runtime_error
    | some other ↦ err runtime_error
    | none ↦ err runtime_error
  ]

  -- By whether the file exists, cannot be made, and cannot be opened then.
  abbrev pub tried : Bool → Bool → Bool → Text → Disk T S D → Made × Disk T S D
  tried true is_denied is_closed path disk = (skipped, disk)
  tried false true is_closed path disk = (failed, disk)
  tried false false true path disk = (skipped, record disk { files = insert path empty disk.files })
  tried false false false path disk = (made, record disk { files = insert path empty disk.files })

  abbrev pub try_path : Text → Disk T S D → Made × Disk T S D
  try_path path disk =
      tried (contains path disk.files) (disk.denied path) (disk.cannot_open path) path disk

  abbrev pub after_try :
      Text
      → ℕ
      → (Disk T S D → Result Error Text × ℕ × Disk T S D)
      → Made × Disk T S D
      → Result Error Text × ℕ × Disk T S D
  after_try path n continue_ (made, disk) = (ok path, suc n, disk)
  after_try path n continue_ (failed, disk) = (err runtime_error, suc n, disk)
  after_try path n continue_ (skipped, disk) = continue_ disk

  -- The loop of store_snapshot_, with the number of rounds that are left. It gives the path of a
  -- file that was made, and the next number.
  unfoldable pub make_file : ℕ → Text → Text → ℕ → Disk T S D → Result Error Text × ℕ × Disk T S D
  unfolding file_path contains lookup insert
  make_file zero directory safe_id n disk = (err runtime_error, n, disk)
  make_file (suc rounds) directory safe_id n disk =
      after_try (file_path directory safe_id n) n
        (λ disk'. make_file rounds directory safe_id (suc n) disk')
        (try_path (file_path directory safe_id n) disk)

  -- The version byte, and what was packed.
  abbrev pub contents : Snapshot T S D → Disk T S D → Content
  contents snapshot disk = written messagepack (disk.pack (to_data snapshot))

  -- Writing to a file that was made.
  abbrev pub write_file :
      Snapshot T S D → Result Error Text × ℕ × Disk T S D → Result Error Text × ℕ × Disk T S D
  write_file snapshot (err e, n, disk) = (err e, n, disk)
  write_file snapshot (ok path, n, disk) =
      if disk.cannot_write path
      then (err runtime_error, n, record disk { files = insert path other disk.files })
      else (ok path, n, record disk { files = insert path (contents snapshot disk) disk.files })

  -- SnapshotManager::store_snapshot_
  unfoldable pub store_snapshot_ :
      Snapshot T S D → SnapshotManager T S D → Result Error Text × SnapshotManager T S D
  store_snapshot_ snapshot m =
      let (path, n, disk) = write_file snapshot (
        make_file max_file_exists_check m.snapshot_directory m.safe_id m.next_snapshot_num
          m.disk) in
      (path, record m { next_snapshot_num = n; disk = disk })
