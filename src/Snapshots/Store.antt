-- ===== src/Snapshots/Store.antt =====
-- store_snapshot_: a snapshot is stored in a new file, and no file that is there is touched.
use muscle.Prelude.{
  ℕ, zero, suc, ◌+◌, ◌<◌, ◌≡◌, refl, sym, ap, subst, ◌∙◌, inl, inr, Bool, true, false, Bool-cases,
  Option, none, some, Result, ok, Error, if◌then◌else◌, ◌==◌, list_eq, nat_eq, eq_iff, arith,
}
use muscle.Prelude.Dict.{Dict, lookup, insert, contains, lookup-insert}
use muscle.Identity.{Text}
use muscle.Snapshots.{Disk, Content, empty}
use muscle.Snapshots.Files.{
  Made, made, skipped, failed, tried, after_try, try_path, file_path, make_file,
}

-- What calls leave of the files.
abbrev pub Keeps : {T S D : Type 0} → Disk T S D → Disk T S D → Type 0
Keeps {T} {S} {D} before after =
    (path : Text) (c : Content)
    → lookup path before.files ≡ some c
    → lookup path after.files ≡ some c

contains-none :
    (path : Text) (files : Dict Text (Content))
    → contains path files ≡ false
    → lookup path files ≡ none
unfolding contains
contains-none path files e = by_lookup (lookup path files) refl
  where
    by_lookup : (o : Option (Content)) → lookup path files ≡ o → lookup path files ≡ none
    by_lookup none q = q
    by_lookup (some c) q = absurd (
        let bad : true ≡ false = sym (ap (λ o. elim o [ none ↦ false | some v ↦ true ]) q) ∙ e in
        cc)

-- A file that is added where there was none.
pub insert-Keeps :
    (path q : Text) (c d : Content) (files : Dict Text (Content))
    → lookup q files ≡ none
    → lookup path files ≡ some c
    → lookup path (insert q d files) ≡ some c
insert-Keeps path q c d files fresh e = elim (Bool-cases (q == path)) [
  | inl k ↦
      let same : q ≡ path = (eq_iff q path).0 k in
      absurd (let bad : none ≡ some c = sym fresh ∙ ap (λ p. lookup p files) same ∙ e in cc)
  | inr k ↦ lookup-insert q path d files ∙ ap (λ b. if b then some d else lookup path files) k ∙ e
]

none-contains :
    (q : Text) (files : Dict Text (Content)) → lookup q files ≡ none → contains q files ≡ false
unfolding contains
none-contains q files e = ap (λ o. elim o [ none ↦ false | some v ↦ true ]) e

module _ {T S D : Type 0} where
  tried-Keeps :
      (b c d : Bool) (q : Text) (disk : Disk T S D)
      → contains q disk.files ≡ b
      → Keeps disk (tried b c d q disk).1
  tried-Keeps true c d q disk k path f e = e
  tried-Keeps false true d q disk k path f e = e
  tried-Keeps false false true q disk k path f e =
      insert-Keeps path q f empty disk.files (contains-none q disk.files k) e
  tried-Keeps false false false q disk k path f e =
      insert-Keeps path q f empty disk.files (contains-none q disk.files k) e

  try_path-Keeps : (q : Text) (disk : Disk T S D) → Keeps disk (try_path q disk).1
  try_path-Keeps q disk =
      tried-Keeps (contains q disk.files) (disk.denied q) (disk.cannot_open q) q disk refl

  tried-made :
      (b c d : Bool) (q : Text) (disk : Disk T S D)
      → contains q disk.files ≡ b
      → (tried b c d q disk).0 ≡ made
      → lookup q disk.files ≡ none
  tried-made true c d q disk k e = cc
  tried-made false true d q disk k e = cc
  tried-made false false true q disk k e = cc
  tried-made false false false q disk k e = contains-none q disk.files k

  after_try-Keeps :
      (path : Text) (n : ℕ) (rest : Disk T S D → Result Error Text × ℕ × Disk T S D)
      (disk : Disk T S D) (t : Made × Disk T S D)
      → Keeps disk t.1
      → Keeps t.1 (rest t.1).2
      → Keeps disk (after_try path n rest t).2
  after_try-Keeps path n rest disk (made, d) k f = k
  after_try-Keeps path n rest disk (failed, d) k f = k
  after_try-Keeps path n rest disk (skipped, d) k f = λ p c e. f p c (k p c e)

  pub make_file-Keeps :
      (rounds : ℕ) (directory safe_id : Text) (n : ℕ) (disk : Disk T S D)
      → Keeps disk (make_file rounds directory safe_id n disk).2
  unfolding make_file
  make_file-Keeps zero directory safe_id n disk = λ path c e. e
  make_file-Keeps (suc rounds) directory safe_id n disk =
      let q = file_path directory safe_id n in
      after_try-Keeps q n (λ d. make_file rounds directory safe_id (suc n) d) disk (try_path q disk)
        (try_path-Keeps q disk)
        (make_file-Keeps rounds directory safe_id (suc n) (try_path q disk).1)

  none_before :
      (path : Text) (before after : Disk T S D)
      → Keeps before after
      → lookup path after.files ≡ none
      → lookup path before.files ≡ none
  none_before path before after k e = by_lookup (lookup path before.files) refl
    where
      by_lookup :
          (o : Option (Content)) → lookup path before.files ≡ o → lookup path before.files ≡ none
      by_lookup none q = q
      by_lookup (some c) q = absurd (let bad : none ≡ some c = sym e ∙ k path c q in cc)

  after_try_new :
      (q : Text) (n : ℕ) (rest : Disk T S D → Result Error Text × ℕ × Disk T S D)
      (disk : Disk T S D) (t : Made × Disk T S D) (path : Text)
      → Keeps disk t.1
      → (t.0 ≡ made → lookup q disk.files ≡ none)
      → ((rest t.1).0 ≡ ok path → lookup path t.1.files ≡ none)
      → (after_try q n rest t).0 ≡ ok path
      → lookup path disk.files ≡ none
  after_try_new q n rest disk (made, d) path k f g e =
      let same : q ≡ path = cc in subst (λ p. lookup p disk.files ≡ none) same (f refl)
  after_try_new q n rest disk (failed, d) path k f g e = cc
  after_try_new q n rest disk (skipped, d) path k f g e = none_before path disk d k (g e)

  -- A file that was made had not been there.
  pub make_file_new :
      (rounds : ℕ) (directory safe_id : Text) (n : ℕ) (disk : Disk T S D) (path : Text)
      → (make_file rounds directory safe_id n disk).0 ≡ ok path
      → lookup path disk.files ≡ none
  unfolding make_file
  make_file_new zero directory safe_id n disk path e = cc
  make_file_new (suc rounds) directory safe_id n disk path e =
      let q = file_path directory safe_id n in
      after_try_new q n (λ d. make_file rounds directory safe_id (suc n) d) disk (try_path q disk)
        path (try_path-Keeps q disk)
        (tried-made (contains q disk.files) (disk.denied q) (disk.cannot_open q) q disk refl)
        (make_file_new rounds directory safe_id (suc n) (try_path q disk).1 path) e

  try_path_eq :
      (q : Text) (disk : Disk T S D) (b : Bool)
      → contains q disk.files ≡ b
      → disk.denied q ≡ false
      → disk.cannot_open q ≡ false
      → try_path q disk ≡ tried b false false q disk
  try_path_eq q disk b e can can' =
      ap (λ x. tried x (disk.denied q) (disk.cannot_open q) q disk) e
      ∙ ap (λ x. tried b x (disk.cannot_open q) q disk) can
      ∙ ap (λ x. tried b false x q disk) can'

  -- Where files can be made, the loop finds the name that is free within its rounds.
  pub make_file_made :
      (rounds k : ℕ) (directory safe_id : Text) (n : ℕ) (disk : Disk T S D)
      → ((path : Text) → disk.denied path ≡ false)
      → ((path : Text) → disk.cannot_open path ≡ false)
      → k < rounds
      → lookup (file_path directory safe_id (n + k)) disk.files ≡ none
      → (path : Text) × ((make_file rounds directory safe_id n disk).0 ≡ ok path)
  unfolding make_file
  make_file_made zero k directory safe_id n disk can can' lt e = absurd (omega arith)
  make_file_made (suc rounds) k directory safe_id n disk can can' lt e =
      by_test (contains q disk.files) refl k lt e
        (λ j lt' e'. make_file_made rounds j directory safe_id (suc n) disk can can' lt' e')
    where
      q : Text
      q = file_path directory safe_id n

      rest : Disk T S D → Result Error Text × ℕ × Disk T S D
      rest d = make_file rounds directory safe_id (suc n) d

      tries :
          (b : Bool)
          → contains q disk.files ≡ b
          → after_try q n rest (try_path q disk) ≡ after_try q n rest (tried b false false q disk)
      tries b b' = ap (after_try q n rest) (try_path_eq q disk b b' (can q) (can' q))

      by_test :
          (b : Bool)
          → contains q disk.files ≡ b
          → (k : ℕ) → k < suc rounds
          → lookup (file_path directory safe_id (n + k)) disk.files ≡ none
          → ((j : ℕ)
              → j < rounds
              → lookup (file_path directory safe_id (suc n + j)) disk.files ≡ none
              → (path : Text) × ((rest disk).0 ≡ ok path))
          → (path : Text) × ((after_try q n rest (try_path q disk)).0 ≡ ok path)
      by_test false b' k lt' e' f =
          (q, ap (λ (r : Result Error Text × ℕ × Disk T S D). r.0) (tries false b'))
      by_test true b' zero lt' e' f =
          let same0 : n + 0 ≡ n = omega arith in
          let e'' =
            subst (λ i. lookup (file_path directory safe_id i) disk.files ≡ none) same0 e' in
          absurd (let bad : true ≡ false = sym b' ∙ none-contains q disk.files e'' in cc)
      by_test true b' (suc j) lt' e' f =
          let same : n + suc j ≡ suc n + j = omega arith in
          let (path, k') =
            f j (omega arith)
              (subst (λ i. lookup (file_path directory safe_id i) disk.files ≡ none) same e') in
          (path, ap (λ (r : Result Error Text × ℕ × Disk T S D). r.0) (tries true b') ∙ k')
