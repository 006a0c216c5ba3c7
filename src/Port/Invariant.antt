-- ===== src/Port/Invariant.antt =====
-- The vectors of a port fit its length, whatever is done to it.
use muscle.Prelude.{
  ℕ, zero, suc, ◌-◌, ◌≤◌, ◌<◌, ◌≡◌, refl, ap, Bool, true, false, not, ◌&&◌, List, [], ◌∷◌, Option,
  none, some, ok, err, >>=-eq-ok, runtime_error, undefined, or_throw, eqb_ℤ, ℤ, pos, negsuc, suc_ℤ,
  length, replicate, length-set, length-replicate, length-append, arith, eqb, if◌then◌else◌,
  Bool-cases, inl, inr, sym, subst, ◌∙◌, max, ◌≢◌, length_error,
}
use muscle.Identity.{Text, identifier}
use muscle.Model.{Operator}
use muscle.Port.{
  Port, at, set_at, write, at_least_one, slot_index, new, initial_length, initial_open, set_length,
  resize, set_closed, restore_message_counts, set_resumed, increment_num_messages,
  extend_vector_to_size,
}

-- A scalar port has length -1 and one slot, and is not resizable.
abbrev pub SlotsFit : ℤ → ℕ → Bool → Type 0
SlotsFit (pos n) slots resizable = slots ≡ n
SlotsFit (negsuc zero) slots resizable = (slots ≡ 1) × (resizable ≡ false)
SlotsFit (negsuc (suc n)) slots resizable = ⊥

pub record IsValid (p : Port) : Type 0 where
  pub open_fit : SlotsFit p.length_ (length p.open_slots) p.is_resizable
  pub counts_fit : at_least_one p.length_ ≤ length p.num_messages
  pub resuming_fit : length p.resuming_slots ≡ length p.num_messages

-- A slot that the port has; without one, the port is a scalar one.
abbrev pub HasSlot : Port → Option ℤ → Type 0
HasSlot p none = p.length_ ≡ negsuc 0
HasSlot p (some (pos n)) = n < length p.open_slots
HasSlot p (some (negsuc n)) = ⊥

initial_open-fit :
    (b : Bool) (our : ℕ) (dims : List ℤ) (len : ℤ) (slots : List Bool) (same : Bool)
    → initial_length b our dims ≡ ok len
    → initial_open b len ≡ ok slots
    → SlotsFit len (length slots) (b && same)
unfolding initial_length
initial_open-fit true our dims (pos n) slots same h k =
    let e : replicate n true ≡ slots = cc in ap length (sym e) ∙ length-replicate n true
initial_open-fit true our dims (negsuc n) slots same h k = cc
initial_open-fit false our dims (pos n) slots same h k = ground arith
initial_open-fit false our dims (negsuc zero) slots same h k =
    let e : true ∷ [] ≡ slots = cc in (ap length (sym e), refl)
initial_open-fit false our dims (negsuc (suc n)) slots same h k = ground arith

-- A port that the constructor makes is valid.
pub new-IsValid :
    (name : Text) (oper : Operator) (is_vector is_connected : Bool) (our_ndims : ℕ)
    (peer_dims : List ℤ) (p : Port)
    → new name oper is_vector is_connected our_ndims peer_dims ≡ ok p
    → IsValid p
unfolding new
new-IsValid name oper is_vector is_connected our_ndims peer_dims p h =
    let (i, h1, k1) = >>=-eq-ok {B = Port} (identifier name) _ h in
    let (len, h2, k2) = >>=-eq-ok {B = Port} (initial_length is_vector our_ndims peer_dims) _ k1 in
    let (slots, h3, k3) = >>=-eq-ok {B = Port} (initial_open is_vector len) _ k2 in
    subst IsValid
      {x = record {
        name = i;
        oper = oper;
        is_connected = is_connected;
        length_ = len;
        is_resizable = is_vector && eqb our_ndims (length peer_dims);
        open_slots = slots;
        num_messages = replicate (at_least_one len) (pos 0);
        resuming_slots = replicate (at_least_one len) false;
      }}
      (cc)
      (record {
        open_fit = initial_open-fit is_vector our_ndims peer_dims len slots _ h2 h3;
        counts_fit = omega (arith, length-replicate (at_least_one len) (pos 0));
        resuming_fit =
            length-replicate (at_least_one len) false
            ∙ sym (length-replicate (at_least_one len) (pos 0));
      })

length-extend {ℓ} :
    {A : Type ℓ} (vec : List A) (n : ℕ) (v : A)
    → length (extend_vector_to_size vec n v) ≡ max n (length vec)
length-extend vec n v =
    omega
      (arith, length-append vec (replicate (n - length vec) v), length-replicate (n - length vec) v)

resize-IsValid :
    (n : ℕ) (p : Port) → p.is_resizable ≡ true → IsValid p → IsValid (resize (pos n) p).1
unfolding resize
resize-IsValid n p r v = record {
  open_fit = length-replicate n true;
  counts_fit = omega (arith, length-extend p.num_messages (at_least_one (pos n)) (pos 0));
  resuming_fit = omega (
    arith,
    v.resuming_fit,
    length-extend p.num_messages (at_least_one (pos n)) (pos 0),
    length-extend p.resuming_slots (at_least_one (pos n)) false,
  );
}

set_length-fixed : (len : ℤ) (p : Port) → p.is_resizable ≡ false → (set_length len p).1 ≡ p
unfolding set_length
set_length-fixed len p r = ground arith

set_length-same : (len : ℤ) (p : Port) → eqb_ℤ len p.length_ ≡ true → (set_length len p).1 ≡ p
unfolding set_length
set_length-same len p e = ground arith

pub set_length-resize :
    (len : ℤ) (p : Port)
    → p.is_resizable ≡ true
    → eqb_ℤ len p.length_ ≡ false
    → set_length len p ≡ resize len p
set_length-resize len p r e =
    unfold set_length in if_resizable p.is_resizable (eqb_ℤ len p.length_) r e
  where
    if_resizable :
        (a b : Bool)
        → a ≡ true
        → b ≡ false
        → (if not a then (err runtime_error, p) else (if b then (ok tt, p) else resize len p))
          ≡ resize len p
    if_resizable a b h k = rw (h, k)

resize_len-IsValid :
    (len : ℤ) (p : Port)
    → p.is_resizable ≡ true
    → IsValid p
    → (resize len p).0 ≢ err length_error
    → IsValid (resize len p).1
resize_len-IsValid (pos n) p r v h = resize-IsValid n p r v
resize_len-IsValid (negsuc n) p r v h = absurd (h (unfold resize in refl))

-- A port that is resized without an exception, or is not resizable, stays valid.
pub set_length-IsValid :
    (len : ℤ) (p : Port)
    → IsValid p
    → (set_length len p).0 ≢ err length_error
    → IsValid (set_length len p).1
unfolding set_length
set_length-IsValid len p v h = elim (Bool-cases p.is_resizable) [
  | inr r ↦ subst IsValid (sym (set_length-fixed len p r)) v
  | inl r ↦ elim (Bool-cases (eqb_ℤ len p.length_)) [
    | inl e ↦ subst IsValid (sym (set_length-same len p e)) v
    | inr e ↦
        subst IsValid (sym (ap (λ x. x.1) (set_length-resize len p r e)))
          (resize_len-IsValid len p r v (λ k. h (ap (λ x. x.0) (set_length-resize len p r e) ∙ k)))
  ]
]

length-set_at {ℓ} : {A : Type ℓ} (xs : List A) (i : ℤ) (v : A) → length (set_at xs i v) ≡ length xs
length-set_at xs (pos n) v = length-set xs n v
length-set_at xs (negsuc n) v = refl

write-eq-ok {ℓ} :
    {A : Type ℓ} (xs ys : List A) (i : ℤ) (v : A) → write xs i v ≡ ok ys → ys ≡ set_at xs i v
write-eq-ok xs ys i v h = ground arith

write-length {ℓ} :
    {A : Type ℓ} (xs ys : List A) (i : ℤ) (v : A) → write xs i v ≡ ok ys → length ys ≡ length xs
write-length xs ys i v h = ap length (write-eq-ok xs ys i v h) ∙ length-set_at xs i v

pub set_closed-IsValid :
    (slot : Option ℤ) (p q : Port) → IsValid p → set_closed slot p ≡ ok q → IsValid q
unfolding set_closed
set_closed-IsValid slot p q v h =
    let (slots, e, k) = >>=-eq-ok {B = Port} (write p.open_slots (slot_index slot) false) _ h in
    let made : record p { open_slots = slots } ≡ q = cc in
    subst IsValid made (record {
      open_fit =
          subst (λ n. SlotsFit p.length_ n p.is_resizable)
            (sym (write-length p.open_slots slots (slot_index slot) false e)) v.open_fit;
      counts_fit = v.counts_fit;
      resuming_fit = v.resuming_fit;
    })

pub set_resumed-IsValid :
    (slot : Option ℤ) (p q : Port) → IsValid p → set_resumed slot p ≡ ok q → IsValid q
unfolding set_resumed
set_resumed-IsValid slot p q v h =
    let (slots, e, k) = >>=-eq-ok {B = Port} (write p.resuming_slots (slot_index slot) false) _ h in
    let made : record p { resuming_slots = slots } ≡ q = cc in
    subst IsValid made (record {
      open_fit = v.open_fit;
      counts_fit = v.counts_fit;
      resuming_fit = write-length p.resuming_slots slots (slot_index slot) false e ∙ v.resuming_fit;
    })

counts-IsValid :
    (p : Port) (counts : List ℤ)
    → IsValid p
    → length counts ≡ length p.num_messages
    → IsValid (record p { num_messages = counts })
counts-IsValid p counts v h = record {
  open_fit = v.open_fit;
  counts_fit = omega (arith, v.counts_fit);
  resuming_fit = v.resuming_fit ∙ sym h;
}

pub increment_num_messages-IsValid :
    (slot : Option ℤ) (p q : Port) → IsValid p → increment_num_messages slot p ≡ ok q → IsValid q
unfolding increment_num_messages
increment_num_messages-IsValid slot p q v h =
    let i = slot_index slot in
    let (n, e, k) = >>=-eq-ok {B = Port} (or_throw (at p.num_messages i) undefined) _ h in
    let (counts, e', k') = >>=-eq-ok {B = Port} (write p.num_messages i (suc_ℤ n)) _ k in
    set_resumed-IsValid (some i) (record p { num_messages = counts }) q
      (counts-IsValid p counts v (write-length p.num_messages counts i (suc_ℤ n) e')) k'

pub restore_message_counts-IsValid :
    (counts : List ℤ) (p : Port) → IsValid p → IsValid (restore_message_counts counts p)
unfolding restore_message_counts
restore_message_counts-IsValid counts p v = record {
  open_fit = v.open_fit;
  counts_fit = omega (arith, length-extend counts (at_least_one p.length_) (pos 0));
  resuming_fit = omega (
    arith,
    length-replicate (length counts) true,
    length-extend counts (at_least_one p.length_) (pos 0),
    length-extend (replicate (length counts) true) (at_least_one p.length_) false,
  );
}
