-- ===== src/Checkpoints/Sorted.antt =====
-- Sorting the times of the "at" rules.
use muscle.Prelude.{
  sym, subst, Bool, true, false, List, [], ◌∷◌, ℤ, ◌≤ℤ◌, ltb_ℤ, arith, if◌then◌else◌, Bool-cases,
  inl, inr,
}
use muscle.Checkpoints.{insert_sorted, sort}
use muscle.Checkpoints.Rules.{Among, NoneBefore, IsSorted}

pub NoneBefore-le : (x u : ℤ) (ts : List ℤ) → NoneBefore x ts → Among u ts → x ≤ℤ u
NoneBefore-le x u [] h m = absurd m
NoneBefore-le x u (y ∷ ts) (le, h) (inl e) = subst (λ z. x ≤ℤ z) (sym e) le
NoneBefore-le x u (y ∷ ts) (le, h) (inr m) = NoneBefore-le x u ts h m

NoneBefore-trans : (x y : ℤ) (ts : List ℤ) → x ≤ℤ y → NoneBefore y ts → NoneBefore x ts
NoneBefore-trans x y [] le h = tt
NoneBefore-trans x y (z ∷ ts) le (h, hs) = (omega arith, NoneBefore-trans x y ts le hs)

insert_sorted-NoneBefore :
    (x t : ℤ) (ts : List ℤ) → x ≤ℤ t → NoneBefore x ts → NoneBefore x (insert_sorted t ts)
unfolding insert_sorted
insert_sorted-NoneBefore x t [] le h = (le, tt)
insert_sorted-NoneBefore x t (y ∷ ts) le (h, hs) = elim (Bool-cases (ltb_ℤ y t)) [
  | inl e ↦ rw e (h, insert_sorted-NoneBefore x t ts le hs)
  | inr e ↦ rw e (le, (h, hs))
]

insert_sorted-IsSorted : (t : ℤ) (ts : List ℤ) → IsSorted ts → IsSorted (insert_sorted t ts)
unfolding insert_sorted
insert_sorted-IsSorted t [] h = (tt, tt)
insert_sorted-IsSorted t (y ∷ ts) (h, hs) = elim (Bool-cases (ltb_ℤ y t)) [
  | inl e ↦ rw e (insert_sorted-NoneBefore y t ts (ground arith) h, insert_sorted-IsSorted t ts hs)
  | inr e ↦ let le : t ≤ℤ y = ground arith in rw e ((le, NoneBefore-trans t y ts le h), (h, hs))
]

pub sort-IsSorted : (ts : List ℤ) → IsSorted (sort ts)
unfolding sort
sort-IsSorted [] = tt
sort-IsSorted (t ∷ ts) = insert_sorted-IsSorted t (sort ts) (sort-IsSorted ts)

swap_front :
    (u t y : ℤ) (ts rest : List ℤ)
    → (Among u (t ∷ ts) → Among u rest)
    → Among u (t ∷ (y ∷ ts))
    → Among u (y ∷ rest)
swap_front u t y ts rest f (inl e) = inr (f (inl e))
swap_front u t y ts rest f (inr (inl e)) = inl e
swap_front u t y ts rest f (inr (inr m)) = inr (f (inr m))

swap_back :
    (u t y : ℤ) (ts rest : List ℤ)
    → (Among u rest → Among u (t ∷ ts))
    → Among u (y ∷ rest)
    → Among u (t ∷ (y ∷ ts))
swap_back u t y ts rest f (inl e) = inr (inl e)
swap_back u t y ts rest f (inr m) = elim (f m) [ inl e ↦ inl e | inr m' ↦ inr (inr m') ]

Among-insert_sorted : (u t : ℤ) (ts : List ℤ) → Among u (t ∷ ts) → Among u (insert_sorted t ts)
unfolding insert_sorted
Among-insert_sorted u t [] m = m
Among-insert_sorted u t (y ∷ ts) m = elim (Bool-cases (ltb_ℤ y t)) [
  | inl e ↦ rw e (swap_front u t y ts (insert_sorted t ts) (λ k. Among-insert_sorted u t ts k) m)
  | inr e ↦ rw e m
]

insert_sorted-Among : (u t : ℤ) (ts : List ℤ) → Among u (insert_sorted t ts) → Among u (t ∷ ts)
unfolding insert_sorted
insert_sorted-Among u t [] m = m
insert_sorted-Among u t (y ∷ ts) m = by_test (ltb_ℤ y t) (λ k. insert_sorted-Among u t ts k) m
  where
    by_test :
        (b : Bool)
        → (Among u (insert_sorted t ts) → Among u (t ∷ ts))
        → Among u (if b then y ∷ insert_sorted t ts else t ∷ (y ∷ ts))
        → Among u (t ∷ (y ∷ ts))
    by_test true f m = swap_back u t y ts (insert_sorted t ts) f m
    by_test false f m = m

pub Among-sort : (u : ℤ) (ts : List ℤ) → Among u ts → Among u (sort ts)
unfolding sort
Among-sort u [] m = m
Among-sort u (t ∷ ts) (inl e) = Among-insert_sorted u t (sort ts) (inl e)
Among-sort u (t ∷ ts) (inr m) = Among-insert_sorted u t (sort ts) (inr (Among-sort u ts m))

pub sort-Among : (u : ℤ) (ts : List ℤ) → Among u (sort ts) → Among u ts
unfolding sort
sort-Among u [] m = m
sort-Among u (t ∷ ts) m = elim (insert_sorted-Among u t (sort ts) m) [
  | inl e ↦ inl e
  | inr m' ↦ inr (sort-Among u ts m')
]
