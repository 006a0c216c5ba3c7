-- ===== src/Port/Slots.antt =====
-- The count and the resuming flag of one slot, through each call that may change them.
use muscle.Prelude.{
  ℕ, ◌≡◌, refl, ap, sym, subst, ◌∙◌, Bool, false, List, Option, some, ok, ◌>>=◌, >>=-eq-ok,
  or_throw, or_throw-some, undefined, ℤ, pos, negsuc, suc_ℤ, get_elem?, set, get_elem?-set_self,
}
use muscle.Port.{
  Port, at, write, slot_index, set_closed, set_resumed, set_length, increment_num_messages,
  get_num_messages, is_resuming,
}
use muscle.Port.Counts.{
  counted, increment-counted, get_num_messages-at, is_resuming-at, get_elem?-some_lt, write-ok,
  set_length-keeps_counts,
}

-- A slot has this count and this flag.
abbrev pub HasCount : Option ℤ → Port → ℤ → Bool → Type 0
HasCount slot p n b = (get_num_messages slot p ≡ ok n) × (is_resuming slot p ≡ ok b)

at-pos {ℓ} :
    {A : Type ℓ} (xs : List A) (i : ℤ) (v : A)
    → at xs i ≡ some v
    → (k : ℕ) × (i ≡ pos k) × (get_elem? xs k ≡ some v)
at-pos xs (pos k) v h = (k, refl, h)
at-pos xs (negsuc k) v h = cc

count-at :
    (slot : Option ℤ) (p : Port) (n : ℤ)
    → get_num_messages slot p ≡ ok n
    → at p.num_messages (slot_index slot) ≡ some n
unfolding get_num_messages
count-at slot p n h = or_throw-some (at p.num_messages (slot_index slot)) undefined n h

flag-at :
    (slot : Option ℤ) (p : Port) (b : Bool)
    → is_resuming slot p ≡ ok b
    → at p.resuming_slots (slot_index slot) ≡ some b
unfolding is_resuming
flag-at slot p b h = or_throw-some (at p.resuming_slots (slot_index slot)) undefined b h

HasCount-entries :
    (slot : Option ℤ) (p : Port) (n : ℤ) (b : Bool)
    → HasCount slot p n b
    → (i : ℕ) × (slot_index slot ≡ pos i)
      × (get_elem? p.num_messages i ≡ some n)
      × (get_elem? p.resuming_slots i ≡ some b)
HasCount-entries slot p n b (c, r) =
    let (i, e, g) = at-pos p.num_messages (slot_index slot) n (count-at slot p n c) in
    (i, e, g, sym (ap (at p.resuming_slots) e) ∙ flag-at slot p b r)

-- Counting a message on a slot that has a count does not fail.
pub increment-HasCount :
    (slot : Option ℤ) (p : Port) (n : ℤ) (b : Bool)
    → HasCount slot p n b
    → (q : Port) × (increment_num_messages slot p ≡ ok q) × HasCount slot q (suc_ℤ n) false
increment-HasCount slot p n b h =
    let (i, e, g, r) = HasCount-entries slot p n b h in
    let lt = get_elem?-some_lt p.num_messages i n g in
    let lt' = get_elem?-some_lt p.resuming_slots i b r in
    (
      counted p i n,
      increment-counted p slot i n e g lt lt',
      (
        get_num_messages-at (counted p i n) slot i (suc_ℤ n) e
            (get_elem?-set_self p.num_messages i (suc_ℤ n) lt),
        is_resuming-at (counted p i n) slot i false e
            (get_elem?-set_self p.resuming_slots i false lt'),
      ),
    )

-- After the first message is discarded, the slot is not resuming.
pub set_resumed-HasCount :
    (slot : Option ℤ) (p : Port) (n : ℤ) (b : Bool)
    → HasCount slot p n b
    → (q : Port) × (set_resumed slot p ≡ ok q) × HasCount slot q n false
set_resumed-HasCount slot p n b h =
    let (i, e, g, r) = HasCount-entries slot p n b h in
    let lt' = get_elem?-some_lt p.resuming_slots i b r in
    let q : Port = record p { resuming_slots = set p.resuming_slots i false } in
    (
      q,
      unfold set_resumed in
          (ap
              (λ k. write p.resuming_slots k false >>= λ slots.
                ok (record p { resuming_slots = slots }))
              e
            ∙ ap (λ w. w >>= λ slots. ok (record p { resuming_slots = slots }))
                (write-ok p.resuming_slots i false lt')),
      (
        get_num_messages-at q slot i n e g,
        is_resuming-at q slot i false e (get_elem?-set_self p.resuming_slots i false lt'),
      ),
    )

pub set_closed-HasCount :
    (slot : Option ℤ) (p q : Port) (n : ℤ) (b : Bool)
    → set_closed slot p ≡ ok q
    → HasCount slot p n b
    → HasCount slot q n b
unfolding set_closed get_num_messages is_resuming
set_closed-HasCount slot p q n b h (c, r) =
    let (slots, e, k) = >>=-eq-ok {B = Port} (write p.open_slots (slot_index slot) false) _ h in
    let made : record p { open_slots = slots } ≡ q = cc in
    (
      subst (λ (x : Port). or_throw (at x.num_messages (slot_index slot)) undefined ≡ ok n) made c,
      subst (λ (x : Port). or_throw (at x.resuming_slots (slot_index slot)) undefined ≡ ok b) made
          r,
    )

pub set_length-HasCount :
    (len : ℤ) (slot : Option ℤ) (p q : Port) (n : ℤ) (b : Bool)
    → set_length len p ≡ (ok tt, q)
    → HasCount slot p n b
    → HasCount slot q n b
set_length-HasCount len slot p q n b h (c, r) = set_length-keeps_counts len p q slot n b h c r
