-- ===== src/Checkpoints/Due.antt =====
-- When the times that a manager waits for are due.
use muscle.Prelude.{
  ◌≡◌, refl, ap, sym, subst, ◌∙◌, ◌⊎◌, ◌↔◌, true, false, not, List, [], ◌∷◌, ◌++◌, Option, none,
  some, ℤ, ◌≤ℤ◌, leb_ℤ, arith, if◌then◌else◌, Bool-cases, inl, inr,
}
use muscle.Prelude.Floor.{◌<ℤ◌}
use muscle.Checkpoints.{Trigger, next_checkpoint, previous_checkpoint}
use muscle.Checkpoints.Exact.{AreNextExact, ArePreviousExact}
use muscle.Checkpoints.Rules.{HasAny, AreTriggers}
use muscle.Checkpoints.Combined.{
  next_checkpoint_sound, next_checkpoint_nearest, previous_checkpoint_sound,
  previous_checkpoint_nearest,
}
use muscle.Checkpoints.Manager.{
  TriggerManager, Cause, first_nextsim, reached, is_empty, elapsed_walltime, should_save_,
  wallclock_time, simulation_time,
}

-- A time of the triggers is past one time and not past another.
abbrev pub PassedBetween : List Trigger → ℤ → ℤ → Type 0
PassedBetween xs p t = (u : ℤ) × HasAny xs u × (p <ℤ u) × (u ≤ℤ t)

abbrev pub Passed : List Trigger → ℤ → Type 0
Passed xs t = (u : ℤ) × HasAny xs u × (u ≤ℤ t)

abbrev pub Due : Option ℤ → ℤ → Type 0
Due o t = (v : ℤ) × (o ≡ some v) × (v ≤ℤ t)

pub next_checkpoint-Due :
    (xs : List Trigger) (p t : ℤ)
    → AreTriggers xs
    → AreNextExact xs p
    → Due (next_checkpoint xs p) t ↔ PassedBetween xs p t
next_checkpoint-Due xs p t i a = (
  λ d. let (v, e, le) = d in let (h, lt) = next_checkpoint_sound xs p v i a e in (v, h, lt, le),
  λ d.
      let (u, h, lt, le) = d in
      let (v, e, k) = next_checkpoint_nearest xs p u i a h lt in (v, e, omega arith),
)

pub first_nextsim-Due :
    (xs : List Trigger) (t : ℤ)
    → AreTriggers xs
    → AreNextExact xs t
    → ArePreviousExact xs t
    → Due (first_nextsim xs t none none) t ↔ Passed xs t
first_nextsim-Due xs t i a b = (
  λ d. let (v, e, le) = d in there v le (previous_checkpoint xs t) refl e,
  λ d.
      let (u, h, le) = d in
      let (v, e, k) = previous_checkpoint_nearest xs t u i b h le in
      (v, ap from_previous e, (previous_checkpoint_sound xs t v i b e).1),
)
  where
    from_previous : Option ℤ → Option ℤ
    from_previous o = elim o [ some previous ↦ some previous | none ↦ next_checkpoint xs t ]

    there :
        (v : ℤ)
        → v ≤ℤ t
        → (o : Option ℤ) → previous_checkpoint xs t ≡ o
        → from_previous o ≡ some v
        → Passed xs t
    there v le none q e = let (h, lt) = next_checkpoint_sound xs t v i a e in (v, h, le)
    there v le (some w) q e = let (h, k) = previous_checkpoint_sound xs t w i b q in (w, h, k)

reached-Due :
    (f : ℤ → Cause) (t : ℤ) (o : Option ℤ) → (not (is_empty (reached f t o)) ≡ true) ↔ Due o t
reached-Due f t none = (λ e. cc, λ d. let (v, e, le) = d in cc)
reached-Due f t (some x) = elim (Bool-cases (leb_ℤ x t)) [
  | inl e ↦
      (λ k. (x, refl, ground arith), λ d. ap (λ b. not (is_empty (if b then f x ∷ [] else []))) e)
  | inr e ↦ (
    λ k. absurd (
        let bad : false ≡ true =
          sym (ap (λ b. not (is_empty (if b then f x ∷ [] else []))) e) ∙ k in
        cc),
    λ d. absurd (late d e),
  )
]
  where
    late : Due (some x) t → leb_ℤ x t ≡ false → ⊥
    late (v, e, le) k =
        let same : x ≡ v = cc in let le' = subst (λ z. z ≤ℤ t) (sym same) le in ground arith

either_cause :
    (xs ys : List Cause)
    → (not (is_empty (xs ++ ys)) ≡ true) ↔ ((not (is_empty xs) ≡ true) ⊎ (not (is_empty ys) ≡ true))
either_cause [] ys = (λ e. inr e, λ d. elim d [ inl k ↦ cc | inr k ↦ k ])
either_cause (x ∷ xs) ys = (λ e. inl refl, λ d. refl)

-- The test is true when either time is due.
pub saves-Due :
    (now t : ℤ) (m : TriggerManager)
    → ((should_save_ now t m).0 ≡ true) ↔ (
        Due m.nextwall (elapsed_walltime now m) ⊎ Due (first_nextsim m.sim t m.nextsim m.prevsim) t)
unfolding should_save_
saves-Due now t m =
    let either =
      either_cause (reached wallclock_time (elapsed_walltime now m) m.nextwall)
        (reached simulation_time t (first_nextsim m.sim t m.nextsim m.prevsim)) in
    let by_wall = reached-Due wallclock_time (elapsed_walltime now m) m.nextwall in
    let by_sim = reached-Due simulation_time t (first_nextsim m.sim t m.nextsim m.prevsim) in
    (
      λ e. elim (either.0 e) [ inl k ↦ inl (by_wall.0 k) | inr k ↦ inr (by_sim.0 k) ],
      λ d. either.1 (elim d [ inl k ↦ inl (by_wall.1 k) | inr k ↦ inr (by_sim.1 k) ]),
    )
