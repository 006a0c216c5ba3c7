-- ===== src/Checkpoints/At.antt =====
-- An "at" trigger finds the nearest of its times, before and after.
use muscle.Prelude.{
  ◌≡◌, refl, ap, sym, subst, ◌∙◌, Bool, true, false, List, [], ◌∷◌, Option, none, some, ℤ, ◌≤ℤ◌,
  ltb_ℤ, leb_ℤ, arith, get_last?, if◌then◌else◌, Bool-cases, inl, inr,
}
use muscle.Prelude.Floor.{◌<ℤ◌}
use muscle.Checkpoints.{upper_bound, before_bound, first, next_at, previous_at}
use muscle.Checkpoints.Rules.{Among, IsSorted}
use muscle.Checkpoints.Sorted.{NoneBefore-le}

first-upper_bound :
    (ts : List ℤ) (cur t : ℤ) → first (upper_bound ts cur) ≡ some t → Among t ts × (cur <ℤ t)
unfolding upper_bound
first-upper_bound [] cur t h = cc
first-upper_bound (x ∷ ts) cur t h = elim (Bool-cases (ltb_ℤ cur x)) [
  | inl e ↦
      let same : x ≡ t = cc (ap (λ b. first (if b then x ∷ ts else upper_bound ts cur)) e) in
      (inl (sym same), subst (λ z. cur <ℤ z) same (ground arith))
  | inr e ↦
      let (m, lt) =
        first-upper_bound ts cur t
          (sym (ap (λ b. first (if b then x ∷ ts else upper_bound ts cur)) e) ∙ h) in
      (inr m, lt)
]

upper_bound-nearest :
    (ts : List ℤ) (cur u : ℤ)
    → IsSorted ts
    → Among u ts
    → cur <ℤ u
    → (t : ℤ) × (first (upper_bound ts cur) ≡ some t) × (t ≤ℤ u)
unfolding upper_bound
upper_bound-nearest [] cur u s m lt = absurd m
upper_bound-nearest (x ∷ ts) cur u (h, s) m lt = elim (Bool-cases (ltb_ℤ cur x)) [
  | inl e ↦ (
    x,
    ap (λ b. first (if b then x ∷ ts else upper_bound ts cur)) e,
    NoneBefore-le x u (x ∷ ts) (omega arith, h) m,
  )
  | inr e ↦
      let (t, e', le) = upper_bound-nearest ts cur u s (later_one m e) lt in
      (t, ap (λ b. first (if b then x ∷ ts else upper_bound ts cur)) e ∙ e', le)
]
  where
    later_one : Among u (x ∷ ts) → ltb_ℤ cur x ≡ false → Among u ts
    later_one (inl same) e = absurd (ground arith)
    later_one (inr m) e = m

abbrev later_or : ℤ → Option ℤ → Option ℤ
later_or x none = some x
later_or x (some y) = some y

get_last?-cons : (x : ℤ) (ts : List ℤ) → get_last? (x ∷ ts) ≡ later_or x (get_last? ts)
get_last?-cons x [] = refl
get_last?-cons x (y ∷ ts) = kept y ts
  where
    kept : (y : ℤ) (ts : List ℤ) → get_last? (y ∷ ts) ≡ later_or x (get_last? (y ∷ ts))
    kept y [] = refl
    kept y (z ∷ ts) = kept z ts

Among-get_last? : (ts : List ℤ) (t : ℤ) → get_last? ts ≡ some t → Among t ts
Among-get_last? [] t h = cc
Among-get_last? (x ∷ []) t h = let e : x ≡ t = cc in inl (sym e)
Among-get_last? (x ∷ (y ∷ ts)) t h = inr (Among-get_last? (y ∷ ts) t h)

last-le :
    (ts : List ℤ) (back u : ℤ) → IsSorted ts → get_last? ts ≡ some back → Among u ts → u ≤ℤ back
last-le [] back u s h m = absurd m
last-le (x ∷ []) back u s h (inl e) = let same : x ≡ back = cc in ground arith
last-le (x ∷ []) back u s h (inr m) = absurd m
last-le (x ∷ (y ∷ ts)) back u (n, s) h (inl e) =
    subst (λ z. z ≤ℤ back) (sym e)
      (NoneBefore-le x back (y ∷ ts) n (Among-get_last? (y ∷ ts) back h))
last-le (x ∷ (y ∷ ts)) back u (n, s) h (inr m) = last-le (y ∷ ts) back u s h m

before_bound-Among :
    (ts : List ℤ) (cur t : ℤ) → Among t (before_bound ts cur) → Among t ts × (t ≤ℤ cur)
unfolding before_bound
before_bound-Among [] cur t m = absurd m
before_bound-Among (x ∷ ts) cur t m =
    by_test (ltb_ℤ cur x) (λ e. ground arith) (λ k. before_bound-Among ts cur t k) m
  where
    by_test :
        (b : Bool)
        → (b ≡ false → x ≤ℤ cur)
        → (Among t (before_bound ts cur) → Among t ts × (t ≤ℤ cur))
        → Among t (if b then [] else x ∷ before_bound ts cur)
        → Among t (x ∷ ts) × (t ≤ℤ cur)
    by_test true le f m = absurd m
    by_test false le f (inl e) = (inl e, subst (λ z. z ≤ℤ cur) (sym e) (le refl))
    by_test false le f (inr m) = (inr (f m).0, (f m).1)

-- Each time that is not past is at most the last one before the bound.
before_bound-nearest :
    (ts : List ℤ) (cur u : ℤ)
    → IsSorted ts
    → Among u ts
    → u ≤ℤ cur
    → (t : ℤ) × (get_last? (before_bound ts cur) ≡ some t) × (u ≤ℤ t)
unfolding before_bound
before_bound-nearest [] cur u s m le = absurd m
before_bound-nearest (x ∷ ts) cur u (h, s) m le = elim (Bool-cases (ltb_ℤ cur x)) [
  | inl e ↦ absurd (let k : x ≤ℤ u = NoneBefore-le x u (x ∷ ts) (omega arith, h) m in ground arith)
  | inr e ↦
      let e' : get_last? (before_bound (x ∷ ts) cur) ≡ get_last? (x ∷ before_bound ts cur) =
        ap (λ b. get_last? (if b then [] else x ∷ before_bound ts cur)) e in
      let (t, q, k) =
        kept (λ k. before_bound-nearest ts cur u s k le) (get_last? (before_bound ts cur)) refl m in
      (t, e' ∙ get_last?-cons x (before_bound ts cur) ∙ q, k)
]
  where
    kept :
        (Among u ts → (t : ℤ) × (get_last? (before_bound ts cur) ≡ some t) × (u ≤ℤ t))
        → (o : Option ℤ) → get_last? (before_bound ts cur) ≡ o
        → Among u (x ∷ ts)
        → (t : ℤ) × (later_or x (get_last? (before_bound ts cur)) ≡ some t) × (u ≤ℤ t)
    kept f o q (inr m') = let (t, e, k) = f m' in (t, ap (later_or x) e, k)
    kept f none q (inl e) = (x, ap (later_or x) q, ground arith)
    kept f (some y) q (inl e) = (
      y,
      ap (later_or x) q,
      subst (λ z. z ≤ℤ y) (sym e)
          (NoneBefore-le x y ts h
            (before_bound-Among ts cur y (Among-get_last? (before_bound ts cur) y q)).0),
    )

pub next_at_sound : (ts : List ℤ) (cur t : ℤ) → next_at ts cur ≡ some t → Among t ts × (cur <ℤ t)
unfolding next_at
next_at_sound ts cur t h = by_last (get_last? ts) h
  where
    by_back :
        (back : ℤ) (b : Bool)
        → ◌≡◌ {A = Option ℤ} (if b then none else first (upper_bound ts cur)) (some t)
        → Among t ts × (cur <ℤ t)
    by_back back true k = cc
    by_back back false k = first-upper_bound ts cur t k

    by_last :
        (o : Option ℤ)
        → ◌≡◌ {A = Option ℤ}
            (elim o [
              | none ↦ none
              | some back ↦ if leb_ℤ back cur then none else first (upper_bound ts cur)
            ])
            (some t)
        → Among t ts × (cur <ℤ t)
    by_last none k = cc
    by_last (some back) k = by_back back (leb_ℤ back cur) k

last_none : (x : ℤ) (ts : List ℤ) → get_last? (x ∷ ts) ≡ none → ⊥
last_none x [] q = cc
last_none x (y ∷ ts) q = last_none y ts q

pub next_at_nearest :
    (ts : List ℤ) (cur u : ℤ)
    → IsSorted ts
    → Among u ts
    → cur <ℤ u
    → (t : ℤ) × (next_at ts cur ≡ some t) × (t ≤ℤ u)
unfolding next_at
next_at_nearest [] cur u s m lt = absurd m
next_at_nearest (x ∷ ts) cur u s m lt = by_last (get_last? (x ∷ ts)) refl
  where
    by_last :
        (o : Option ℤ)
        → get_last? (x ∷ ts) ≡ o
        → (t : ℤ) × (next_at (x ∷ ts) cur ≡ some t) × (t ≤ℤ u)
    by_last none q = absurd (last_none x ts q)
    by_last (some back) q = elim (Bool-cases (leb_ℤ back cur)) [
      | inl e ↦ absurd (let le : u ≤ℤ back = last-le (x ∷ ts) back u s q m in ground arith)
      | inr e ↦
          let (t, e', le) = upper_bound-nearest (x ∷ ts) cur u s m lt in
          (
            t,
            ap
                  (λ o. elim o [
                    | none ↦ none
                    | some back ↦ if leb_ℤ back cur then none else first (upper_bound (x ∷ ts) cur)
                  ])
                  q
                ∙ ap (λ b. if b then none else first (upper_bound (x ∷ ts) cur)) e
                ∙ e',
            le,
          )
    ]

pub previous_at_sound :
    (ts : List ℤ) (cur t : ℤ) → previous_at ts cur ≡ some t → Among t ts × (t ≤ℤ cur)
unfolding previous_at
previous_at_sound [] cur t h = cc
previous_at_sound (x ∷ ts) cur t h = by_front (ltb_ℤ cur x) h
  where
    by_front :
        (b : Bool)
        → ◌≡◌ {A = Option ℤ} (if b then none else get_last? (before_bound (x ∷ ts) cur)) (some t)
        → Among t (x ∷ ts) × (t ≤ℤ cur)
    by_front true k = cc
    by_front false k =
        before_bound-Among (x ∷ ts) cur t (Among-get_last? (before_bound (x ∷ ts) cur) t k)

pub previous_at_nearest :
    (ts : List ℤ) (cur u : ℤ)
    → IsSorted ts
    → Among u ts
    → u ≤ℤ cur
    → (t : ℤ) × (previous_at ts cur ≡ some t) × (u ≤ℤ t)
unfolding previous_at
previous_at_nearest [] cur u s m le = absurd m
previous_at_nearest (x ∷ ts) cur u s m le = elim (Bool-cases (ltb_ℤ cur x)) [
  | inl e ↦
      absurd (let k : x ≤ℤ u = NoneBefore-le x u (x ∷ ts) (omega arith, s.0) m in ground arith)
  | inr e ↦
      let (t, e', k) = before_bound-nearest (x ∷ ts) cur u s m le in
      (t, ap (λ b. if b then none else get_last? (before_bound (x ∷ ts) cur)) e ∙ e', k)
]
