-- ===== src/Snapshots/Numbered.antt =====
-- store_snapshot_: the number in the name of a file that was made, and what stays of the disk.
use muscle.Prelude.{
  ℕ, zero, suc, ◌+◌, ◌<◌, ◌≡◌, refl, sym, ap, ◌∙◌, Bool, true, false, Result, ok, Error, list_eq,
  nat_eq, arith,
}
use muscle.Prelude.Dict.{contains}
use muscle.Identity.{Text}
use muscle.Snapshots.{Disk}
use muscle.Snapshots.Files.{
  Made, made, skipped, failed, tried, after_try, try_path, file_path, make_file,
}

module _ {T S D : Type 0} where
  -- A path has the number of one of the rounds, and the next number is one more.
  abbrev pub IsNumbered : ℕ → Text → Text → ℕ → Text → Result Error Text × ℕ × Disk T S D → Type 0
  IsNumbered rounds directory safe_id n path r =
      (k : ℕ) × (k < rounds) × (path ≡ file_path directory safe_id (n + k)) × (r.1 ≡ suc (n + k))

  after_try-IsNumbered :
      (rounds : ℕ) (directory safe_id : Text) (n : ℕ)
      (rest : Disk T S D → Result Error Text × ℕ × Disk T S D) (t : Made × Disk T S D) (path : Text)
      → ((rest t.1).0 ≡ ok path → IsNumbered rounds directory safe_id (suc n) path (rest t.1))
      → (after_try (file_path directory safe_id n) n rest t).0 ≡ ok path
      → IsNumbered
          (suc rounds)
          directory
          safe_id
          n
          path
          (after_try (file_path directory safe_id n) n rest t)
  after_try-IsNumbered rounds directory safe_id n rest (made, d) path f e =
      let same : file_path directory safe_id n ≡ path = cc in
      let at : n + 0 ≡ n = omega arith in
      (0, omega arith, sym same ∙ ap (file_path directory safe_id) (sym at), ap suc (sym at))
  after_try-IsNumbered rounds directory safe_id n rest (failed, d) path f e = cc
  after_try-IsNumbered rounds directory safe_id n rest (skipped, d) path f e =
      let (k, lt, same, num) = f e in
      let at : suc n + k ≡ n + suc k = omega arith in
      (suc k, omega arith, same ∙ ap (file_path directory safe_id) at, num ∙ ap suc at)

  -- The path that the loop gives is that of the last number it has taken.
  pub make_file-IsNumbered :
      (rounds : ℕ) (directory safe_id : Text) (n : ℕ) (disk : Disk T S D) (path : Text)
      → (make_file rounds directory safe_id n disk).0 ≡ ok path
      → IsNumbered rounds directory safe_id n path (make_file rounds directory safe_id n disk)
  unfolding make_file
  make_file-IsNumbered zero directory safe_id n disk path e = cc
  make_file-IsNumbered (suc rounds) directory safe_id n disk path e =
      let t = try_path (file_path directory safe_id n) disk in
      after_try-IsNumbered rounds directory safe_id n
        (λ d. make_file rounds directory safe_id (suc n) d) t path
        (make_file-IsNumbered rounds directory safe_id (suc n) t.1 path) e

  -- What a disk allows and how it packs, whatever files there are.
  abbrev pub Rights : Disk T S D → Disk T S D → Type 0
  Rights before after =
      (after.cannot_write ≡ before.cannot_write)
      × (after.pack ≡ before.pack)
      × (after.unpack ≡ before.unpack)

  tried-Rights : (b c d : Bool) (q : Text) (disk : Disk T S D) → Rights disk (tried b c d q disk).1
  tried-Rights true c d q disk = (refl, refl, refl)
  tried-Rights false true d q disk = (refl, refl, refl)
  tried-Rights false false true q disk = (refl, refl, refl)
  tried-Rights false false false q disk = (refl, refl, refl)

  after_try-Rights :
      (q : Text) (n : ℕ) (rest : Disk T S D → Result Error Text × ℕ × Disk T S D)
      (disk : Disk T S D) (t : Made × Disk T S D)
      → Rights disk t.1
      → Rights t.1 (rest t.1).2
      → Rights disk (after_try q n rest t).2
  after_try-Rights q n rest disk (made, d) g h = g
  after_try-Rights q n rest disk (failed, d) g h = g
  after_try-Rights q n rest disk (skipped, d) (x, y, z) (x', y', z') = (x' ∙ x, y' ∙ y, z' ∙ z)

  pub make_file-Rights :
      (rounds : ℕ) (directory safe_id : Text) (n : ℕ) (disk : Disk T S D)
      → Rights disk (make_file rounds directory safe_id n disk).2
  unfolding make_file
  make_file-Rights zero directory safe_id n disk = (refl, refl, refl)
  make_file-Rights (suc rounds) directory safe_id n disk =
      let q = file_path directory safe_id n in
      after_try-Rights q n (λ d. make_file rounds directory safe_id (suc n) d) disk
        (try_path q disk)
        (tried-Rights (contains q disk.files) (disk.denied q) (disk.cannot_open q) q disk)
        (make_file-Rights rounds directory safe_id (suc n) (try_path q disk).1)
