-- ===== src/Checkpoints/Collected.antt =====
-- CombinedCheckpointTriggers::CombinedCheckpointTriggers: the triggers name the times of the rules.
use muscle.Prelude.{◌≡◌, sym, subst, ◌⊎◌, ◌↔◌, List, [], ◌∷◌, ◌++◌, none, some, ℤ, ok, inl, inr}
use muscle.Checkpoints.{
  Rule, at_rule, range_rule, RangeTrigger, Trigger, at_trigger, ranged, range_trigger, sort,
  collect, combined, last_of,
}
use muscle.Checkpoints.Exact.{last_of-exact_last}
use muscle.Checkpoints.Rules.{Among, InRange, Has, HasAny, Named, IsTrigger, AreTriggers, AreRules}
use muscle.Checkpoints.Sorted.{sort-IsSorted, Among-sort, sort-Among}

Among-append : (u : ℤ) (xs ys : List ℤ) → Among u xs ⊎ Among u ys → Among u (xs ++ ys)
Among-append u [] ys (inl m) = absurd m
Among-append u [] ys (inr m) = m
Among-append u (x ∷ xs) ys (inl (inl e)) = inl e
Among-append u (x ∷ xs) ys (inl (inr m)) = inr (Among-append u xs ys (inl m))
Among-append u (x ∷ xs) ys (inr m) = inr (Among-append u xs ys (inr m))

append-Among : (u : ℤ) (xs ys : List ℤ) → Among u (xs ++ ys) → Among u xs ⊎ Among u ys
append-Among u [] ys m = inr m
append-Among u (x ∷ xs) ys (inl e) = inl (inl e)
append-Among u (x ∷ xs) ys (inr m) = elim (append-Among u xs ys m) [
  | inl k ↦ inl (inr k)
  | inr k ↦ inr k
]

HasAny-snoc :
    (u : ℤ) (xs : List Trigger) (x : Trigger) → HasAny xs u ⊎ Has x u → HasAny (xs ++ x ∷ []) u
HasAny-snoc u [] x (inl m) = absurd m
HasAny-snoc u [] x (inr h) = inl h
HasAny-snoc u (y ∷ xs) x (inl (inl h)) = inl h
HasAny-snoc u (y ∷ xs) x (inl (inr m)) = inr (HasAny-snoc u xs x (inl m))
HasAny-snoc u (y ∷ xs) x (inr h) = inr (HasAny-snoc u xs x (inr h))

snoc-HasAny :
    (u : ℤ) (xs : List Trigger) (x : Trigger) → HasAny (xs ++ x ∷ []) u → HasAny xs u ⊎ Has x u
snoc-HasAny u [] x (inl h) = inr h
snoc-HasAny u [] x (inr m) = absurd m
snoc-HasAny u (y ∷ xs) x (inl h) = inl (inl h)
snoc-HasAny u (y ∷ xs) x (inr m) = elim (snoc-HasAny u xs x m) [
  | inl k ↦ inl (inr k)
  | inr k ↦ inr k
]

snoc-AreTriggers :
    (xs : List Trigger) (x : Trigger) → AreTriggers xs → IsTrigger x → AreTriggers (xs ++ x ∷ [])
snoc-AreTriggers [] x i j = (j, tt)
snoc-AreTriggers (y ∷ xs) x i j = (i.0, snoc-AreTriggers xs x i.1 j)

collect-AreTriggers :
    (rules : List Rule) (at_ : List ℤ) (triggers trs : List Trigger)
    → AreRules rules
    → AreTriggers triggers
    → collect rules at_ triggers ≡ ok trs
    → AreTriggers trs
unfolding collect range_trigger
collect-AreTriggers [] [] triggers trs r i e =
    let same : triggers ≡ trs = cc in subst AreTriggers same i
collect-AreTriggers [] (t ∷ at_) triggers trs r i e =
    let same : (triggers ++ at_trigger (sort (t ∷ at_)) ∷ []) ≡ trs = cc in
    subst AreTriggers same
      (snoc-AreTriggers triggers (at_trigger (sort (t ∷ at_))) i (sort-IsSorted (t ∷ at_)))
collect-AreTriggers (at_rule ts ∷ rules) at_ triggers trs r i e =
    collect-AreTriggers rules (at_ ++ ts) triggers trs r.1 i e
collect-AreTriggers (range_rule start stop none ∷ rules) at_ triggers trs r i e = cc
collect-AreTriggers (range_rule start stop (some every) ∷ rules) at_ triggers trs r i e =
    collect-AreTriggers rules at_ _ trs r.1
      (snoc-AreTriggers triggers (ranged _) i
        (r.0.0, r.0.1, last_of-exact_last start stop every r.0.2))
      e

-- What is left to collect, what has been, and what is found.
collect-HasAny :
    (rules : List Rule) (at_ : List ℤ) (triggers trs : List Trigger) (u : ℤ)
    → collect rules at_ triggers ≡ ok trs
    → Named rules u ⊎ (Among u at_ ⊎ HasAny triggers u)
    → HasAny trs u
unfolding collect range_trigger
collect-HasAny [] [] triggers trs u e m =
    let same : triggers ≡ trs = cc in
    subst (λ z. HasAny z u) same
      (elim m [ inl k ↦ absurd k | inr k ↦ elim k [ inl l ↦ absurd l | inr l ↦ l ] ])
collect-HasAny [] (t ∷ at_) triggers trs u e m =
    let same : (triggers ++ at_trigger (sort (t ∷ at_)) ∷ []) ≡ trs = cc in
    subst (λ z. HasAny z u) same
      (HasAny-snoc u triggers (at_trigger (sort (t ∷ at_))) (elim m [
        | inl k ↦ absurd k
        | inr k ↦ elim k [ inl l ↦ inr (Among-sort u (t ∷ at_) l) | inr l ↦ inl l ]
      ]))
collect-HasAny (at_rule ts ∷ rules) at_ triggers trs u e m =
    collect-HasAny rules (at_ ++ ts) triggers trs u e (moved m)
  where
    moved :
        (Among u ts ⊎ Named rules u) ⊎ (Among u at_ ⊎ HasAny triggers u)
        → Named rules u ⊎ (Among u (at_ ++ ts) ⊎ HasAny triggers u)
    moved (inl (inl k)) = inr (inl (Among-append u at_ ts (inr k)))
    moved (inl (inr k)) = inl k
    moved (inr (inl k)) = inr (inl (Among-append u at_ ts (inl k)))
    moved (inr (inr k)) = inr (inr k)
collect-HasAny (range_rule start stop none ∷ rules) at_ triggers trs u e m = cc
collect-HasAny (range_rule start stop (some every) ∷ rules) at_ triggers trs u e m =
    collect-HasAny rules at_ (triggers ++ ranged made ∷ []) trs u e (moved m)
  where
    made : RangeTrigger
    made = record { start = start; stop = stop; every = every; last = last_of start stop every }

    moved :
        (InRange start stop every u ⊎ Named rules u) ⊎ (Among u at_ ⊎ HasAny triggers u)
        → Named rules u ⊎ (Among u at_ ⊎ HasAny (triggers ++ ranged made ∷ []) u)
    moved (inl (inl k)) = inr (inr (HasAny-snoc u triggers (ranged made) (inr k)))
    moved (inl (inr k)) = inl k
    moved (inr (inl k)) = inr (inl k)
    moved (inr (inr k)) = inr (inr (HasAny-snoc u triggers (ranged made) (inl k)))

HasAny-collect :
    (rules : List Rule) (at_ : List ℤ) (triggers trs : List Trigger) (u : ℤ)
    → collect rules at_ triggers ≡ ok trs
    → HasAny trs u
    → Named rules u ⊎ (Among u at_ ⊎ HasAny triggers u)
unfolding collect range_trigger
HasAny-collect [] [] triggers trs u e m =
    let same : triggers ≡ trs = cc in inr (inr (subst (λ z. HasAny z u) (sym same) m))
HasAny-collect [] (t ∷ at_) triggers trs u e m =
    let same : (triggers ++ at_trigger (sort (t ∷ at_)) ∷ []) ≡ trs = cc in
    elim (snoc-HasAny u triggers (at_trigger (sort (t ∷ at_)))
      (subst (λ z. HasAny z u) (sym same) m)) [
        | inl k ↦ inr (inr k)
        | inr k ↦ inr (inl (sort-Among u (t ∷ at_) k))
      ]
HasAny-collect (at_rule ts ∷ rules) at_ triggers trs u e m =
    elim (HasAny-collect rules (at_ ++ ts) triggers trs u e m) [
      | inl k ↦ inl (inr k)
      | inr k ↦ elim k [
        | inl l ↦ elim (append-Among u at_ ts l) [ inl n ↦ inr (inl n) | inr n ↦ inl (inl n) ]
        | inr l ↦ inr (inr l)
      ]
    ]
HasAny-collect (range_rule start stop none ∷ rules) at_ triggers trs u e m = cc
HasAny-collect (range_rule start stop (some every) ∷ rules) at_ triggers trs u e m =
    let made : RangeTrigger = record {
      start = start;
      stop = stop;
      every = every;
      last = last_of start stop every;
    } in
    elim (HasAny-collect rules at_ (triggers ++ ranged made ∷ []) trs u e m) [
      | inl k ↦ inl (inr k)
      | inr k ↦ elim k [
        | inl l ↦ inr (inl l)
        | inr l ↦ elim (snoc-HasAny u triggers (ranged made) l) [
          | inl n ↦ inr (inr n)
          | inr n ↦ inl (inl n)
        ]
      ]
    ]

pub combined-AreTriggers :
    (rules : List Rule) (trs : List Trigger)
    → AreRules rules
    → combined rules ≡ ok trs
    → AreTriggers trs
unfolding combined
combined-AreTriggers rules trs r e = collect-AreTriggers rules [] [] trs r tt e

-- The triggers that are made of rules have the times that the rules name, and no others.
pub combined_names :
    (rules : List Rule) (trs : List Trigger) (u : ℤ)
    → combined rules ≡ ok trs
    → Named rules u ↔ HasAny trs u
unfolding combined
combined_names rules trs u e = (
  λ m. collect-HasAny rules [] [] trs u e (inl m),
  λ m. elim (HasAny-collect rules [] [] trs u e m) [
    | inl k ↦ k
    | inr k ↦ elim k [ inl l ↦ absurd l | inr l ↦ absurd l ]
  ],
)
