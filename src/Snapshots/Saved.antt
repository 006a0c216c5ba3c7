-- ===== src/Snapshots/Saved.antt =====
-- Storing snapshots: what is on the disk before and after, and what is loaded from there.
use muscle.Prelude.{
  ℕ, suc, ◌+◌, ◌<◌, ◌≡◌, refl, sym, ap, subst, ◌∙◌, inl, inr, Bool, true, false, Bool-cases, none,
  some, Result, ok, err, Error, runtime_error, ◌>>=◌, List, ℤ, if◌then◌else◌, ◌==◌, list_eq, nat_eq,
  eq_iff,
}
use muscle.Prelude.Dict.{Dict, lookup, insert, lookup-insert}
use muscle.Identity.{Text}
use muscle.Snapshots.{Snapshot, SnapshotManager, Disk, Content, written, other, empty}
use muscle.Snapshots.Encoding.{to_data, from_data}
use muscle.Snapshots.Decoded.{HasSame, from_data-to_data}
use muscle.Snapshots.Files.{
  contents, messagepack, by_version, file_path, make_file, write_file, store_snapshot_,
  load_snapshot_from_file, max_file_exists_check,
}
use muscle.Snapshots.Store.{Keeps, make_file-Keeps, make_file_new, make_file_made}
use muscle.Snapshots.Numbered.{make_file-IsNumbered, make_file-Rights}

abbrev Stored : Type 0 → Type 0 → Type 0 → Type 0
Stored T S D = Result Error Text × ℕ × Disk T S D

lookup_inserted :
    (q : Text) (x : Content) (files : Dict Text (Content)) → lookup q (insert q x files) ≡ some x
lookup_inserted q x files =
    lookup-insert q q x files ∙ ap (λ b. if b then some x else lookup q files) ((eq_iff q q).1 refl)

module _ {T S D : Type 0} where
  write_file-Keeps :
      (s : Snapshot T S D) (before : Disk T S D) (r : Stored T S D)
      → Keeps before r.2
      → ((path : Text) → r.0 ≡ ok path → lookup path before.files ≡ none)
      → Keeps before (write_file s r).2
  write_file-Keeps s before (err e, n, d) k f = k
  write_file-Keeps s before (ok q, n, d) k f = λ p c e. elim (Bool-cases (d.cannot_write q)) [
    | inl b ↦ rw b (other_path q p c (f q refl) e (k p c e) other)
    | inr b ↦ rw b (other_path q p c (f q refl) e (k p c e) (contents s d))
  ]
    where
      other_path :
          (q p : Text) (c : Content)
          → lookup q before.files ≡ none
          → lookup p before.files ≡ some c
          → lookup p d.files ≡ some c
          → (x : Content) → lookup p (insert q x d.files) ≡ some c
      other_path q p c fresh e e' x = elim (Bool-cases (q == p)) [
        | inl k ↦
            let same : q ≡ p = (eq_iff q p).0 k in
            absurd
              (let bad : none ≡ some c = sym fresh ∙ ap (λ z. lookup z before.files) same ∙ e in cc)
        | inr k ↦
            lookup-insert q p x d.files ∙ ap (λ b. if b then some x else lookup p d.files) k ∙ e'
      ]

  write_file_stored :
      (s : Snapshot T S D) (r : Stored T S D) (path : Text)
      → (write_file s r).0 ≡ ok path
      → (r.0 ≡ ok path) × (lookup path (write_file s r).2.files ≡ some (contents s r.2))
  write_file_stored s (err e, n, d) path h = cc
  write_file_stored s (ok q, n, d) path h = by_test (d.cannot_write q) h
    where
      done : Bool → Stored T S D
      done b =
          if b
          then (err runtime_error, n, record d { files = insert q other d.files })
          else (ok q, n, record d { files = insert q (contents s d) d.files })

      by_test :
          (b : Bool)
          → (done b).0 ≡ ok path
          → (◌≡◌ {A = Result Error Text} (ok q) (ok path))
            × (lookup path (done b).2.files ≡ some (contents s d))
      by_test true h' = cc
      by_test false h' =
          let same : q ≡ path = cc in
          (
            h',
            subst (λ p. lookup p (insert q (contents s d) d.files) ≡ some (contents s d)) same
                (lookup_inserted q (contents s d) d.files),
          )

  write_file_num : (s : Snapshot T S D) (r : Stored T S D) → (write_file s r).1 ≡ r.1
  write_file_num s (err e, n, d) = refl
  write_file_num s (ok q, n, d) = elim (Bool-cases (d.cannot_write q)) [
    | inl b ↦ rw b refl
    | inr b ↦ rw b refl
  ]

  write_file_returns :
      (s : Snapshot T S D) (r : Stored T S D) (q : Text)
      → r.0 ≡ ok q
      → ((path : Text) → r.2.cannot_write path ≡ false)
      → (write_file s r).0 ≡ ok q
  write_file_returns s (err e, n, d) q h can = cc
  write_file_returns s (ok p, n, d) q h can = rw (can p) h

  -- Storing a snapshot leaves every file that is on the disk as it is, also where it throws.
  pub store_snapshot_-Keeps :
      (s : Snapshot T S D) (m : SnapshotManager T S D) (path : Text) (c : Content)
      → lookup path m.disk.files ≡ some c
      → lookup path (store_snapshot_ s m).1.disk.files ≡ some c
  unfolding store_snapshot_
  store_snapshot_-Keeps s m =
      write_file-Keeps s m.disk
        (make_file max_file_exists_check m.snapshot_directory m.safe_id m.next_snapshot_num m.disk)
        (make_file-Keeps max_file_exists_check m.snapshot_directory m.safe_id m.next_snapshot_num
          m.disk)
        (make_file_new max_file_exists_check m.snapshot_directory m.safe_id m.next_snapshot_num
          m.disk)

  write_file-unpack :
      (s : Snapshot T S D) (r : Stored T S D) → (write_file s r).2.unpack ≡ r.2.unpack
  write_file-unpack s (err e, n, d) = refl
  write_file-unpack s (ok q, n, d) = elim (Bool-cases (d.cannot_write q)) [
    | inl b ↦ rw b refl
    | inr b ↦ rw b refl
  ]

  load_found :
      (path : Text) (disk : Disk T S D) (bytes : List ℕ)
      → lookup path disk.files ≡ some (written messagepack bytes)
      → load_snapshot_from_file path disk ≡ (disk.unpack bytes >>= from_data)
  unfolding load_snapshot_from_file by_version
  load_found path disk bytes e =
      ap
        (λ o. elim o [
          | some (written version bytes) ↦ by_version version (disk.unpack bytes)
          | some empty ↦ err runtime_error
          | some other ↦ err runtime_error
          | none ↦ err runtime_error
        ])
        e

  -- A snapshot that was stored is in a file that was not there before. Where MessagePack unpacks what it
  -- has packed for that snapshot, it is loaded again from there: all of it is the same, with the counts
  -- of its ports in any order.
  pub load-store_snapshot_ :
      (s : Snapshot T S D) (m : SnapshotManager T S D) (path : Text)
      → m.disk.unpack (m.disk.pack (to_data s)) ≡ ok (to_data s)
      → (store_snapshot_ s m).0 ≡ ok path
      → (lookup path m.disk.files ≡ none)
        × (counts : Dict Text (List ℤ)) × (load_snapshot_from_file path (store_snapshot_ s m).1.disk
            ≡ ok (record s { port_message_counts = counts }))
        × HasSame counts s.port_message_counts
  unfolding store_snapshot_
  load-store_snapshot_ s m path unpacks e =
      let made =
        make_file max_file_exists_check m.snapshot_directory m.safe_id m.next_snapshot_num m.disk in
      let (e', found) = write_file_stored s made path e in
      let (may_write, packs, opens) =
        make_file-Rights max_file_exists_check m.snapshot_directory m.safe_id m.next_snapshot_num
          m.disk in
      let (counts, decoded, same) = from_data-to_data s in
      (
        make_file_new max_file_exists_check m.snapshot_directory m.safe_id m.next_snapshot_num
            m.disk path e',
        counts,
        load_found path (store_snapshot_ s m).1.disk (made.2.pack (to_data s)) found
            ∙ ap (λ f. f (made.2.pack (to_data s)) >>= from_data) (write_file-unpack s made ∙ opens)
            ∙ ap (λ f. m.disk.unpack (f (to_data s)) >>= from_data) packs
            ∙ ap (λ r. r >>= from_data) unpacks
            ∙ decoded,
        same,
      )

  -- When a snapshot was stored, its path is that of one of the 10000 numbers from the next number on,
  -- and the number after that one is the next.
  pub store_snapshot__bounds :
      (s : Snapshot T S D) (m : SnapshotManager T S D) (path : Text)
      → (store_snapshot_ s m).0 ≡ ok path
      → (k : ℕ) × (k < 10000)
        × (path ≡ file_path m.snapshot_directory m.safe_id (m.next_snapshot_num + k))
        × ((store_snapshot_ s m).1.next_snapshot_num ≡ suc (m.next_snapshot_num + k))
  unfolding store_snapshot_
  store_snapshot__bounds s m path e =
      let made =
        make_file max_file_exists_check m.snapshot_directory m.safe_id m.next_snapshot_num m.disk in
      let (e', found) = write_file_stored s made path e in
      let (k, lt, same, num) =
        make_file-IsNumbered max_file_exists_check m.snapshot_directory m.safe_id
          m.next_snapshot_num m.disk path e' in
      (k, lt, same, write_file_num s made ∙ num)

  -- Where files can be made and written, and one of the next 10000 names is free, a snapshot is
  -- stored.
  pub store_snapshot__returns :
      (s : Snapshot T S D) (m : SnapshotManager T S D) (k : ℕ)
      → ((path : Text) → m.disk.denied path ≡ false)
      → ((path : Text) → m.disk.cannot_open path ≡ false)
      → ((path : Text) → m.disk.cannot_write path ≡ false)
      → k < 10000
      → lookup (file_path m.snapshot_directory m.safe_id (m.next_snapshot_num + k)) m.disk.files
        ≡ none
      → (path : Text) × ((store_snapshot_ s m).0 ≡ ok path)
  unfolding store_snapshot_
  store_snapshot__returns s m k can can' can'' lt e =
      let made =
        make_file max_file_exists_check m.snapshot_directory m.safe_id m.next_snapshot_num m.disk in
      let (path, e') =
        make_file_made max_file_exists_check k m.snapshot_directory m.safe_id m.next_snapshot_num
          m.disk can can' lt e in
      let rights =
        make_file-Rights max_file_exists_check m.snapshot_directory m.safe_id m.next_snapshot_num
          m.disk in
      (path, write_file_returns s made path e' (λ p. ap (λ f. f p) rights.0 ∙ can'' p))
