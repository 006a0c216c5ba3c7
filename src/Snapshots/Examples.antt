-- ===== src/Snapshots/Examples.antt =====
-- A snapshot and a disk to evaluate the functions on.
use muscle.Prelude.{
  ℕ, suc, ◌+◌, ◌<◌, ◌≡◌, refl, List, ℤ, pos, false, some, [], ◌∷◌, none, some, ok, arith, list_eq,
  nat_eq,
}
use muscle.Prelude.Dict.{Dict, lookup, insert, contains}
use muscle.Identity.{Text, id_part, index_part}
use muscle.Identity.Decimal.{show, show_fuel}
use muscle.Identity.Parse.{parts_to_string, print_part}
use muscle.Snapshots.{Snapshot, SnapshotManager, Disk, other, safe_text}
use muscle.Communicator.{user_data}
use muscle.Snapshots.Encoding.{to_data}
use muscle.Snapshots.Decoded.{HasSame}
use muscle.Snapshots.Files.{file_path, make_file, store_snapshot_, load_snapshot_from_file}
use muscle.Snapshots.Saved.{
  store_snapshot_-Keeps, load-store_snapshot_, store_snapshot__bounds, store_snapshot__returns,
}

abbrev directory : Text
directory = b'd' ∷ []

abbrev safe_id : Text
safe_id = b'm' ∷ b'-' ∷ b'2' ∷ []

abbrev first_path : Text
first_path = b'd' ∷ b'/' ∷ b'm' ∷ b'-' ∷ b'2' ∷ b'_' ∷ b'1' ∷ b'.' ∷ b'p' ∷ b'a' ∷ b'c' ∷ b'k' ∷ []

abbrev second_path : Text
second_path = b'd' ∷ b'/' ∷ b'm' ∷ b'-' ∷ b'2' ∷ b'_' ∷ b'2' ∷ b'.' ∷ b'p' ∷ b'a' ∷ b'c' ∷ b'k' ∷ []

abbrev snapshot : Snapshot ℕ ℕ ℕ
snapshot = record {
  triggers = [];
  wallclock_time = 7;
  port_message_counts = (b'i' ∷ [], pos 3 ∷ []) ∷ [];
  is_final_snapshot = false;
  message =
      some (record { timestamp = 6; next_timestamp = none; data_ = user_data 5; settings = none });
  settings_overlay = 0;
}

abbrev disk : Disk ℕ ℕ ℕ
disk = record {
  files = (first_path, other) ∷ [];
  denied = λ path. false;
  cannot_open = λ path. false;
  cannot_write = λ path. false;
  pack = λ data_. 134 ∷ [];
  unpack = λ bytes. ok (to_data snapshot);
}

abbrev manager : SnapshotManager ℕ ℕ ℕ
manager = record {
  resume_from_snapshot = none;
  resume_overlay = 0;
  next_snapshot_num = 1;
  snapshot_directory = directory;
  safe_id = safe_id;
  submitted = [];
  disk = disk;
}

safe_name : safe_text (parts_to_string (id_part (b'm' ∷ []) ∷ index_part 2 ∷ [])) ≡ safe_id
unfolding safe_text parts_to_string print_part show show_fuel
safe_name = refl

stored_second : (store_snapshot_ snapshot manager).0 ≡ ok second_path
unfolding store_snapshot_ make_file file_path contains lookup insert show show_fuel
stored_second = refl

store_snapshot_-Keeps_example :
    lookup first_path (store_snapshot_ snapshot manager).1.disk.files ≡ some other
unfolding lookup
store_snapshot_-Keeps_example = store_snapshot_-Keeps snapshot manager first_path other refl

load-store_snapshot__example :
    (lookup second_path disk.files ≡ none)
    × (counts : Dict Text (List ℤ)) × (load_snapshot_from_file second_path
          (store_snapshot_ snapshot manager).1.disk
        ≡ ok (record snapshot { port_message_counts = counts }))
    × HasSame counts snapshot.port_message_counts
load-store_snapshot__example = load-store_snapshot_ snapshot manager second_path refl stored_second

store_snapshot__bounds_example :
    (k : ℕ) × (k < 10000)
    × (second_path ≡ file_path directory safe_id (1 + k))
    × ((store_snapshot_ snapshot manager).1.next_snapshot_num ≡ suc (1 + k))
store_snapshot__bounds_example = store_snapshot__bounds snapshot manager second_path stored_second

store_snapshot__returns_example : (path : Text) × ((store_snapshot_ snapshot manager).0 ≡ ok path)
unfolding file_path lookup show show_fuel
store_snapshot__returns_example =
    store_snapshot__returns snapshot manager 1 (λ path. refl) (λ path. refl) (λ path. refl)
      (omega arith) refl
