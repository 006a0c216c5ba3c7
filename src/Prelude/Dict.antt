-- ===== src/Prelude/Dict.antt =====
-- std::unordered_map as an association list. `insert` replaces or adds at the end, `emplace` keeps
-- an entry that is there. Where the code iterates, the order is that of insertion.
use mathlib.Core.Path.{◌≡◌, refl}
use mathlib.Core.Bool.{Bool, true, false}
use mathlib.Core.Option.{Option, none, some}
use mathlib.Core.List.{List, [], ◌∷◌}
use native.Mathlib.Omega.{arith}
use muscle.Prelude.Tests.{if◌then◌else◌}
use muscle.Prelude.Equality.{Eq, ◌==◌, eq_iff}

abbrev pub Dict {ℓ κ} : Type ℓ → Type κ → Type (ℓ ⊔ κ)
Dict K V = List (K × V)

module _ {ℓ κ} {K : Type ℓ} {V : Type κ} ⦃e : Eq K⦄ where
  unfoldable pub lookup : K → Dict K V → Option V
  lookup key [] = none
  lookup key ((found, v) ∷ m) = if found == key then some v else lookup key m

  unfoldable pub insert : K → V → Dict K V → Dict K V
  insert key v [] = (key, v) ∷ []
  insert key v ((found, old) ∷ m) =
      if found == key then (key, v) ∷ m else (found, old) ∷ insert key v m

  unfoldable pub emplace : K → V → Dict K V → Dict K V
  emplace key v [] = (key, v) ∷ []
  emplace key v ((found, old) ∷ m) = (found, old) ∷ (if found == key then m else emplace key v m)

  unfoldable pub erase : K → Dict K V → Dict K V
  erase key [] = []
  erase key ((found, v) ∷ m) =
      let rest = erase key m in if found == key then rest else (found, v) ∷ rest

  -- count(key) > 0
  unfoldable pub contains : K → Dict K V → Bool
  contains key m = elim (lookup key m) [ none ↦ false | some v ↦ true ]

  pub lookup-insert :
      (key found : K) (v : V) (m : Dict K V)
      → lookup found (insert key v m) ≡ (if key == found then some v else lookup found m)
  unfolding lookup insert
  lookup-insert key found v [] = refl
  lookup-insert key found v ((first, old) ∷ m) =
      ground
        (arith, eq_iff key found, eq_iff first key, eq_iff first found, lookup-insert key found v m)

  pub lookup-erase :
      (key found : K) (m : Dict K V)
      → lookup found (erase key m) ≡ (if key == found then none else lookup found m)
  unfolding lookup erase
  lookup-erase key found [] = ground arith
  lookup-erase key found ((first, old) ∷ m) =
      ground
        (arith, eq_iff key found, eq_iff first key, eq_iff first found, lookup-erase key found m)
