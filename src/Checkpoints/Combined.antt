-- ===== src/Checkpoints/Combined.antt =====
-- CombinedCheckpointTriggers::next_checkpoint and previous_checkpoint: the nearest of the times that
-- any of the triggers has.
use muscle.Prelude.{
  ◌≡◌, ap, sym, subst, ◌∙◌, ◌⊎◌, Bool, true, false, List, [], ◌∷◌, Option, none, some, ℤ, ◌≤ℤ◌,
  ltb_ℤ, arith, if◌then◌else◌, Bool-cases, inl, inr,
}
use muscle.Prelude.Floor.{◌<ℤ◌}
use muscle.Checkpoints.{
  Trigger, at_trigger, ranged, next_of, previous_of, earlier, later, next_loop, previous_loop,
  next_checkpoint, previous_checkpoint,
}
use muscle.Checkpoints.Rules.{Has, HasAny, IsTrigger, AreTriggers}
use muscle.Checkpoints.At.{next_at_sound, next_at_nearest, previous_at_sound, previous_at_nearest}
use muscle.Checkpoints.Exact.{
  IsNextExact, AreNextExact, IsPreviousExact, ArePreviousExact, next_range-exact_next,
  previous_range-exact_previous,
}
use muscle.Checkpoints.Range.{next_range_sound, next_range_nearest}
use muscle.Checkpoints.RangeBack.{previous_range_sound, previous_range_nearest}

next_of_sound :
    (x : Trigger) (cur t : ℤ)
    → IsTrigger x
    → IsNextExact x cur
    → next_of x cur ≡ some t
    → Has x t × (cur <ℤ t)
unfolding next_of
next_of_sound (at_trigger ts) cur t i a e = next_at_sound ts cur t e
next_of_sound (ranged r) cur t (h, o, l) a e =
    next_range_sound r.start r.stop r.every cur t h o (sym (next_range-exact_next r cur l a) ∙ e)

next_of_nearest :
    (x : Trigger) (cur u : ℤ)
    → IsTrigger x
    → IsNextExact x cur
    → Has x u
    → cur <ℤ u
    → (t : ℤ) × (next_of x cur ≡ some t) × (t ≤ℤ u)
unfolding next_of
next_of_nearest (at_trigger ts) cur u i a m lt = next_at_nearest ts cur u i m lt
next_of_nearest (ranged r) cur u (h, o, l) a m lt =
    let (t, e, k) = next_range_nearest r.start r.stop r.every cur u h m lt in
    (t, next_range-exact_next r cur l a ∙ e, k)

previous_of_sound :
    (x : Trigger) (cur t : ℤ)
    → IsTrigger x
    → IsPreviousExact x cur
    → previous_of x cur ≡ some t
    → Has x t × (t ≤ℤ cur)
unfolding previous_of
previous_of_sound (at_trigger ts) cur t i a e = previous_at_sound ts cur t e
previous_of_sound (ranged r) cur t (h, o, l) a e =
    previous_range_sound r.start r.stop r.every cur t h o
      (sym (previous_range-exact_previous r cur l a) ∙ e)

previous_of_nearest :
    (x : Trigger) (cur u : ℤ)
    → IsTrigger x
    → IsPreviousExact x cur
    → Has x u
    → u ≤ℤ cur
    → (t : ℤ) × (previous_of x cur ≡ some t) × (u ≤ℤ t)
unfolding previous_of
previous_of_nearest (at_trigger ts) cur u i a m le = previous_at_nearest ts cur u i m le
previous_of_nearest (ranged r) cur u (h, o, l) a m le =
    let (t, e, k) = previous_range_nearest r.start r.stop r.every cur u h m le in
    (t, previous_range-exact_previous r cur l a ∙ e, k)

-- There is a time, and it is at most u.
abbrev NoLater : Option ℤ → ℤ → Type 0
NoLater o u = (t : ℤ) × (o ≡ some t) × (t ≤ℤ u)

abbrev NoEarlier : Option ℤ → ℤ → Type 0
NoEarlier o u = (t : ℤ) × (o ≡ some t) × (u ≤ℤ t)

earlier_either : (a b : Option ℤ) (t : ℤ) → earlier a b ≡ some t → (a ≡ some t) ⊎ (b ≡ some t)
earlier_either a none t e = inl e
earlier_either none (some y) t e = inr e
earlier_either (some x) (some y) t e = by_test (ltb_ℤ y x) e
  where
    by_test :
        (b : Bool)
        → ◌≡◌ {A = Option ℤ} (if b then some y else some x) (some t)
        → (◌≡◌ {A = Option ℤ} (some x) (some t)) ⊎ (◌≡◌ {A = Option ℤ} (some y) (some t))
    by_test true k = inr k
    by_test false k = inl k

later_either : (a b : Option ℤ) (t : ℤ) → later a b ≡ some t → (a ≡ some t) ⊎ (b ≡ some t)
later_either a none t e = inl e
later_either none (some y) t e = inr e
later_either (some x) (some y) t e = by_test (ltb_ℤ x y) e
  where
    by_test :
        (b : Bool)
        → ◌≡◌ {A = Option ℤ} (if b then some y else some x) (some t)
        → (◌≡◌ {A = Option ℤ} (some x) (some t)) ⊎ (◌≡◌ {A = Option ℤ} (some y) (some t))
    by_test true k = inr k
    by_test false k = inl k

some_le : (x u : ℤ) → NoLater (some x) u → x ≤ℤ u
some_le x u (t, e, le) = let same : x ≡ t = cc in subst (λ z. z ≤ℤ u) (sym same) le

le_some : (x u : ℤ) → NoEarlier (some x) u → u ≤ℤ x
le_some x u (t, e, le) = let same : x ≡ t = cc in subst (λ z. u ≤ℤ z) (sym same) le

earlier-NoLater : (a b : Option ℤ) (u : ℤ) → NoLater a u ⊎ NoLater b u → NoLater (earlier a b) u
earlier-NoLater a none u (inl n) = n
earlier-NoLater a none u (inr (t, e, le)) = cc
earlier-NoLater none (some y) u (inl (t, e, le)) = cc
earlier-NoLater none (some y) u (inr n) = n
earlier-NoLater (some x) (some y) u n =
    least (elim n [ inl k ↦ inl (some_le x u k) | inr k ↦ inr (some_le y u k) ])
  where
    least : (x ≤ℤ u) ⊎ (y ≤ℤ u) → NoLater (earlier (some x) (some y)) u
    least m = elim (Bool-cases (ltb_ℤ y x)) [
      | inl e ↦ (y, ap (λ b. if b then some y else some x) e, ground arith)
      | inr e ↦ (x, ap (λ b. if b then some y else some x) e, ground arith)
    ]

later-NoEarlier : (a b : Option ℤ) (u : ℤ) → NoEarlier a u ⊎ NoEarlier b u → NoEarlier (later a b) u
later-NoEarlier a none u (inl n) = n
later-NoEarlier a none u (inr (t, e, le)) = cc
later-NoEarlier none (some y) u (inl (t, e, le)) = cc
later-NoEarlier none (some y) u (inr n) = n
later-NoEarlier (some x) (some y) u n =
    greatest (elim n [ inl k ↦ inl (le_some x u k) | inr k ↦ inr (le_some y u k) ])
  where
    greatest : (u ≤ℤ x) ⊎ (u ≤ℤ y) → NoEarlier (later (some x) (some y)) u
    greatest m = elim (Bool-cases (ltb_ℤ x y)) [
      | inl e ↦ (y, ap (λ b. if b then some y else some x) e, ground arith)
      | inr e ↦ (x, ap (λ b. if b then some y else some x) e, ground arith)
    ]

next_loop_sound :
    (xs : List Trigger) (cur t : ℤ) (acc : Option ℤ)
    → AreTriggers xs
    → AreNextExact xs cur
    → next_loop xs cur acc ≡ some t
    → (acc ≡ some t) ⊎ (HasAny xs t × (cur <ℤ t))
unfolding next_loop
next_loop_sound [] cur t acc i a e = inl e
next_loop_sound (x ∷ xs) cur t acc i a e =
    elim (next_loop_sound xs cur t (earlier acc (next_of x cur)) i.1 a.1 e) [
      | inl k ↦ elim (earlier_either acc (next_of x cur) t k) [
        | inl m ↦ inl m
        | inr m ↦ let (h, lt) = next_of_sound x cur t i.0 a.0 m in inr (inl h, lt)
      ]
      | inr (h, lt) ↦ inr (inr h, lt)
    ]

next_loop_nearest :
    (xs : List Trigger) (cur u : ℤ) (acc : Option ℤ)
    → AreTriggers xs
    → AreNextExact xs cur
    → cur <ℤ u
    → NoLater acc u ⊎ HasAny xs u
    → NoLater (next_loop xs cur acc) u
unfolding next_loop
next_loop_nearest [] cur u acc i a lt (inl n) = n
next_loop_nearest [] cur u acc i a lt (inr m) = absurd m
next_loop_nearest (x ∷ xs) cur u acc i a lt (inl n) =
    next_loop_nearest xs cur u (earlier acc (next_of x cur)) i.1 a.1 lt
      (inl (earlier-NoLater acc (next_of x cur) u (inl n)))
next_loop_nearest (x ∷ xs) cur u acc i a lt (inr (inl h)) =
    next_loop_nearest xs cur u (earlier acc (next_of x cur)) i.1 a.1 lt
      (inl (earlier-NoLater acc (next_of x cur) u (inr (next_of_nearest x cur u i.0 a.0 h lt))))
next_loop_nearest (x ∷ xs) cur u acc i a lt (inr (inr m)) =
    next_loop_nearest xs cur u (earlier acc (next_of x cur)) i.1 a.1 lt (inr m)

previous_loop_sound :
    (xs : List Trigger) (cur t : ℤ) (acc : Option ℤ)
    → AreTriggers xs
    → ArePreviousExact xs cur
    → previous_loop xs cur acc ≡ some t
    → (acc ≡ some t) ⊎ (HasAny xs t × (t ≤ℤ cur))
unfolding previous_loop
previous_loop_sound [] cur t acc i a e = inl e
previous_loop_sound (x ∷ xs) cur t acc i a e =
    elim (previous_loop_sound xs cur t (later acc (previous_of x cur)) i.1 a.1 e) [
      | inl k ↦ elim (later_either acc (previous_of x cur) t k) [
        | inl m ↦ inl m
        | inr m ↦ let (h, le) = previous_of_sound x cur t i.0 a.0 m in inr (inl h, le)
      ]
      | inr (h, le) ↦ inr (inr h, le)
    ]

previous_loop_nearest :
    (xs : List Trigger) (cur u : ℤ) (acc : Option ℤ)
    → AreTriggers xs
    → ArePreviousExact xs cur
    → u ≤ℤ cur
    → NoEarlier acc u ⊎ HasAny xs u
    → NoEarlier (previous_loop xs cur acc) u
unfolding previous_loop
previous_loop_nearest [] cur u acc i a le (inl n) = n
previous_loop_nearest [] cur u acc i a le (inr m) = absurd m
previous_loop_nearest (x ∷ xs) cur u acc i a le (inl n) =
    previous_loop_nearest xs cur u (later acc (previous_of x cur)) i.1 a.1 le
      (inl (later-NoEarlier acc (previous_of x cur) u (inl n)))
previous_loop_nearest (x ∷ xs) cur u acc i a le (inr (inl h)) =
    previous_loop_nearest xs cur u (later acc (previous_of x cur)) i.1 a.1 le (
      inl (
        later-NoEarlier acc (previous_of x cur) u (inr (previous_of_nearest x cur u i.0 a.0 h le))))
previous_loop_nearest (x ∷ xs) cur u acc i a le (inr (inr m)) =
    previous_loop_nearest xs cur u (later acc (previous_of x cur)) i.1 a.1 le (inr m)

-- The next checkpoint is a time that a trigger has, later than the current one.
pub next_checkpoint_sound :
    (xs : List Trigger) (cur t : ℤ)
    → AreTriggers xs
    → AreNextExact xs cur
    → next_checkpoint xs cur ≡ some t
    → HasAny xs t × (cur <ℤ t)
unfolding next_checkpoint
next_checkpoint_sound xs cur t i a e = elim (next_loop_sound xs cur t none i a e) [
  | inl k ↦ cc
  | inr h ↦ h
]

-- When a trigger has a time later than the current one, there is a next checkpoint and it is no
-- later than that time.
pub next_checkpoint_nearest :
    (xs : List Trigger) (cur u : ℤ)
    → AreTriggers xs
    → AreNextExact xs cur
    → HasAny xs u
    → cur <ℤ u
    → (t : ℤ) × (next_checkpoint xs cur ≡ some t) × (t ≤ℤ u)
unfolding next_checkpoint
next_checkpoint_nearest xs cur u i a h lt = next_loop_nearest xs cur u none i a lt (inr h)

-- The previous checkpoint is a time that a trigger has, no later than the current one.
pub previous_checkpoint_sound :
    (xs : List Trigger) (cur t : ℤ)
    → AreTriggers xs
    → ArePreviousExact xs cur
    → previous_checkpoint xs cur ≡ some t
    → HasAny xs t × (t ≤ℤ cur)
unfolding previous_checkpoint
previous_checkpoint_sound xs cur t i a e = elim (previous_loop_sound xs cur t none i a e) [
  | inl k ↦ cc
  | inr h ↦ h
]

-- When a trigger has a time no later than the current one, there is a previous checkpoint and it
-- is no earlier than that time.
pub previous_checkpoint_nearest :
    (xs : List Trigger) (cur u : ℤ)
    → AreTriggers xs
    → ArePreviousExact xs cur
    → HasAny xs u
    → u ≤ℤ cur
    → (t : ℤ) × (previous_checkpoint xs cur ≡ some t) × (u ≤ℤ t)
unfolding previous_checkpoint
previous_checkpoint_nearest xs cur u i a h le = previous_loop_nearest xs cur u none i a le (inr h)
