-- ===== src/Port/Counts.antt =====
-- The message counts of a port's slots: on a valid port no access to them is undefined.
use muscle.Prelude.{
  ℕ, zero, suc, ◌-◌, ◌≤◌, ◌<◌, ◌≡◌, ◌≢◌, refl, ap, sym, ◌∙◌, Bool, true, false, List, [], ◌∷◌,
  Option, none, some, Result, ok, err, ◌>>=◌, Error, runtime_error, if◌then◌else◌, undefined,
  or_throw, ℤ, pos, negsuc, suc_ℤ, eqb_ℤ, length, get_elem?, set, replicate, get_elem?-lt,
  get_elem?-set_self, get_elem?-set_ne, get_elem?-append_left, arith, inl, inr, not, ◌⊎◌,
  Bool-cases, eqb, eqb_iff, or_throw-some,
}
use muscle.Port.{
  Port, at, write, at_least_one, slot_index, set_length, resize, increment_num_messages,
  get_num_messages, is_resuming, extend_vector_to_size,
}
use muscle.Port.Invariant.{IsValid, SlotsFit, HasSlot}

open_slots-le : (len : ℤ) (slots : ℕ) (r : Bool) → SlotsFit len slots r → slots ≤ at_least_one len
open_slots-le (pos zero) slots r f = omega arith
open_slots-le (pos (suc n)) slots r f = omega arith
open_slots-le (negsuc zero) slots r f = omega arith
open_slots-le (negsuc (suc n)) slots r f = absurd f

at_least_one-pos : (len : ℤ) → 1 ≤ at_least_one len
at_least_one-pos (pos zero) = omega arith
at_least_one-pos (pos (suc n)) = omega arith
at_least_one-pos (negsuc n) = omega arith

-- The counts reach as far as the slots do.
pub get_elem?-some_lt {ℓ} :
    {A : Type ℓ} (xs : List A) (i : ℕ) (v : A) → get_elem? xs i ≡ some v → i < length xs
get_elem?-some_lt [] i v h = cc
get_elem?-some_lt (x ∷ xs) zero v h = omega arith
get_elem?-some_lt (x ∷ xs) (suc i) v h = omega (arith, get_elem?-some_lt xs i v h)

slot-lt :
    (p : Port) (slot : Option ℤ)
    → IsValid p
    → HasSlot p slot
    → (n : ℕ) × (slot_index slot ≡ pos n) × (n < length p.num_messages)
slot-lt p none v h = (0, refl, omega (arith, at_least_one-pos p.length_, v.counts_fit))
slot-lt p (some (pos n)) v h = (
  n,
  refl,
  omega (
    arith,
    open_slots-le p.length_ (length p.open_slots) p.is_resizable v.open_fit,
    v.counts_fit,
  ),
)
slot-lt p (some (negsuc n)) v h = absurd h

pub write-ok {ℓ} :
    {A : Type ℓ} (xs : List A) (n : ℕ) (v : A)
    → n < length xs
    → write xs (pos n) v ≡ ok (set xs n v)
write-ok xs n v h = let (a, e) = get_elem?-lt xs n h in rw (write, e)

-- What counting a message does to a port whose slot has the count `n`.
abbrev pub counted : Port → ℕ → ℤ → Port
counted p i n = record p {
  num_messages = set p.num_messages i (suc_ℤ n);
  resuming_slots = set p.resuming_slots i false;
}

-- The steps of counting a message, at the index of the slot.
abbrev resumed : Port → List Bool → Result Error Port
resumed p slots = ok (record p { resuming_slots = slots })

abbrev resume_at : Port → ℤ → List ℤ → Result Error Port
resume_at p i counts =
    write p.resuming_slots i false >>= resumed (record p { num_messages = counts })

abbrev increment_from : Port → ℤ → ℤ → Result Error Port
increment_from p i n = write p.num_messages i (suc_ℤ n) >>= resume_at p i

abbrev increment_at : Port → ℤ → Result Error Port
increment_at p i = or_throw (at p.num_messages i) undefined >>= increment_from p i

pub increment-counted :
    (p : Port) (slot : Option ℤ) (i : ℕ) (n : ℤ)
    → slot_index slot ≡ pos i
    → get_elem? p.num_messages i ≡ some n
    → i < length p.num_messages
    → i < length p.resuming_slots
    → increment_num_messages slot p ≡ ok (counted p i n)
unfolding increment_num_messages
increment-counted p slot i n e g h k =
    ap (increment_at p) e
    ∙ ap (λ o. or_throw o undefined >>= increment_from p (pos i)) g
    ∙ ap (λ r. r >>= resume_at p (pos i)) (write-ok p.num_messages i (suc_ℤ n) h)
    ∙ ap (λ r. r >>= resumed (record p { num_messages = set p.num_messages i (suc_ℤ n) }))
        (write-ok p.resuming_slots i false k)

pub get_num_messages-at :
    (p : Port) (slot : Option ℤ) (i : ℕ) (n : ℤ)
    → slot_index slot ≡ pos i
    → get_elem? p.num_messages i ≡ some n
    → get_num_messages slot p ≡ ok n
unfolding get_num_messages
get_num_messages-at p slot i n e h =
    ap (λ k. or_throw (at p.num_messages k) undefined) e ∙ ap (λ o. or_throw o undefined) h

pub is_resuming-at :
    (p : Port) (slot : Option ℤ) (i : ℕ) (b : Bool)
    → slot_index slot ≡ pos i
    → get_elem? p.resuming_slots i ≡ some b
    → is_resuming slot p ≡ ok b
unfolding is_resuming
is_resuming-at p slot i b e h =
    ap (λ k. or_throw (at p.resuming_slots k) undefined) e ∙ ap (λ o. or_throw o undefined) h

counted-at :
    (p : Port) (i : ℕ) (n j : ℤ)
    → i < length p.num_messages
    → get_num_messages (some j) (counted p i n)
      ≡ (if eqb_ℤ j (pos i) then ok (suc_ℤ n) else get_num_messages (some j) p)
unfolding get_num_messages
counted-at p i n (negsuc m) h = refl
counted-at p i n (pos m) h = elim (Bool-cases (eqb m i)) [
  | inl e ↦ rw e (
      ap (λ k. or_throw (get_elem? (set p.num_messages i (suc_ℤ n)) k) undefined)
        ((eqb_iff m i).0 e)
      ∙ ap (λ o. or_throw o undefined) (get_elem?-set_self p.num_messages i (suc_ℤ n) h))
  | inr e ↦ rw e (
      ap (λ o. or_throw o undefined)
        (get_elem?-set_ne p.num_messages i m (suc_ℤ n)
          (λ q. absurd (true-ne-false (sym ((eqb_iff m i).1 (sym q)) ∙ e)))))
]
  where
    true-ne-false : true ≢ false
    true-ne-false h = cc

-- On a valid port, counting a message on a slot that the port has succeeds: it adds one to that
-- slot's count and to no other, and after it that slot is not resuming.
pub increment_num_messages_lem :
    (p : Port) (slot : Option ℤ) (j : ℤ)
    → IsValid p
    → HasSlot p slot
    → (n : ℤ) × (q : Port) × (get_num_messages slot p ≡ ok n)
      × (increment_num_messages slot p ≡ ok q)
      × (is_resuming slot q ≡ ok false)
      × (get_num_messages (some j) q
          ≡ (if eqb_ℤ j (slot_index slot) then ok (suc_ℤ n) else get_num_messages (some j) p))
increment_num_messages_lem p slot j v h =
    let (i, e, lt) = slot-lt p slot v h in
    let (n, g) = get_elem?-lt p.num_messages i lt in
    let lt' : i < length p.resuming_slots = omega (arith, v.resuming_fit) in
    (
      n,
      counted p i n,
      get_num_messages-at p slot i n e g,
      increment-counted p slot i n e g lt lt',
      is_resuming-at (counted p i n) slot i false e
          (get_elem?-set_self p.resuming_slots i false lt'),
      counted-at p i n j lt
          ∙ ap (λ k. if eqb_ℤ j k then ok (suc_ℤ n) else get_num_messages (some j) p) (sym e),
    )

extend-get_elem? {ℓ} :
    {A : Type ℓ} (vec : List A) (n i : ℕ) (d v : A)
    → get_elem? vec i ≡ some v
    → get_elem? (extend_vector_to_size vec n d) i ≡ some v
extend-get_elem? vec n i d v h =
    get_elem?-append_left vec (replicate (n - length vec) d) i (get_elem?-some_lt vec i v h) ∙ h

at-extend {ℓ} :
    {A : Type ℓ} (vec : List A) (n : ℕ) (i : ℤ) (d v : A)
    → at vec i ≡ some v
    → at (extend_vector_to_size vec n d) i ≡ some v
at-extend vec n (pos i) d v h = extend-get_elem? vec n i d v h
at-extend vec n (negsuc i) d v h = cc

resize-counts :
    (len : ℤ) (p q : Port) (slot : Option ℤ) (n : ℤ) (b : Bool)
    → resize len p ≡ (ok tt, q)
    → get_num_messages slot p ≡ ok n
    → is_resuming slot p ≡ ok b
    → (get_num_messages slot q ≡ ok n) × (is_resuming slot q ≡ ok b)
unfolding resize get_num_messages is_resuming
resize-counts (negsuc m) p q slot n b h c r = cc
resize-counts (pos m) p q slot n b h c r =
    let e = ap (λ (x : Result Error (Unit {0}) × Port). x.1) h in
    let i = slot_index slot in
    (
      ap (λ (x : Port). or_throw (at x.num_messages i) undefined) (sym e)
          ∙ ap (λ o. or_throw o undefined)
              (at-extend p.num_messages (at_least_one (pos m)) i (pos 0) n
                (or_throw-some (at p.num_messages i) undefined n c)),
      ap (λ (x : Port). or_throw (at x.resuming_slots i) undefined) (sym e)
          ∙ ap (λ o. or_throw o undefined)
              (at-extend p.resuming_slots (at_least_one (pos m)) i false b
                (or_throw-some (at p.resuming_slots i) undefined b r)),
    )

set_length-cases :
    (len : ℤ) (p q : Port) → set_length len p ≡ (ok tt, q) → (q ≡ p) ⊎ (resize len p ≡ (ok tt, q))
unfolding set_length
set_length-cases len p q h = if_cases p.is_resizable (eqb_ℤ len p.length_) (resize len p) h
  where
    if_cases :
        (a b : Bool) (r : Result Error (Unit {0}) × Port)
        → (if not a then (err runtime_error, p) else (if b then (ok tt, p) else r)) ≡ (ok tt, q)
        → (q ≡ p) ⊎ (r ≡ (ok tt, q))
    if_cases true true r h = inl (ap (λ (x : Result Error (Unit {0}) × Port). x.1) (sym h))
    if_cases true false r h = inr h
    if_cases false b r h = cc (ap (λ (x : Result Error (Unit {0}) × Port). x.0) h)

-- A port that is resized without an exception keeps the message count of each slot that had one, and whether the slot is
-- resuming, also where the new length is smaller.
pub set_length-keeps_counts :
    (len : ℤ) (p q : Port) (slot : Option ℤ) (n : ℤ) (b : Bool)
    → set_length len p ≡ (ok tt, q)
    → get_num_messages slot p ≡ ok n
    → is_resuming slot p ≡ ok b
    → (get_num_messages slot q ≡ ok n) × (is_resuming slot q ≡ ok b)
set_length-keeps_counts len p q slot n b h c r = elim (set_length-cases len p q h) [
  | inl e ↦ (ap (get_num_messages slot) e ∙ c, ap (is_resuming slot) e ∙ r)
  | inr e ↦ resize-counts len p q slot n b e c r
]
