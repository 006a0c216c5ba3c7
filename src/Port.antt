-- ===== src/Port.antt =====
-- libmuscle/cpp/src/libmuscle/port.{hpp,cpp}: a port's length, which of its slots are open, and the
-- message counts. Counts are integers without wrap-around: a run sends fewer than 2^31 messages.
pub mod Invariant
pub mod Counts
pub mod Reach
pub mod Slots
mod Examples
use muscle.Prelude.{
  ℕ, zero, suc, ◌+◌, ◌≡◌, Bool, true, false, not, ◌&&◌, List, [], ◌∷◌, ◌++◌, Option, none, some,
  Result, ok, err, ◌>>=◌, ◌>>◌, require, or_throw, Error, runtime_error, out_of_range, length_error,
  undefined, ℤ, pos, negsuc, suc_ℤ, eqb_ℤ, length, get_elem?, set, replicate, get_last?, ltb, leb,
  eqb, if◌then◌else◌, ◌-◌,
}
use muscle.Identity.{Text, Identifier, identifier}
use muscle.Model.{Operator}

pub record Port : Type 0 where
  pub name : Identifier
  pub oper : Operator
  pub is_connected : Bool
  pub length_ : ℤ
  pub is_resizable : Bool
  pub open_slots : List Bool
  pub num_messages : List ℤ
  pub resuming_slots : List Bool

-- Elements by an int, which becomes a huge size_t where it is negative.
abbrev pub at {ℓ} : {A : Type ℓ} → List A → ℤ → Option A
at xs (pos n) = get_elem? xs n
at xs (negsuc n) = none

abbrev pub set_at {ℓ} : {A : Type ℓ} → List A → ℤ → A → List A
set_at xs (pos n) v = set xs n v
set_at xs (negsuc n) v = xs

-- v[i] = x, undefined out of bounds
abbrev pub write {ℓ} : {A : Type ℓ} → List A → ℤ → A → Result Error (List A)
write xs i v = elim (at xs i) [ none ↦ err undefined | some _ ↦ ok (set_at xs i v) ]

-- extend_vector_to_size
abbrev pub extend_vector_to_size {ℓ} : {A : Type ℓ} → List A → ℕ → A → List A
extend_vector_to_size vec minsize val = vec ++ replicate (minsize - length vec) val

-- std::max(1, length_)
abbrev pub at_least_one : ℤ → ℕ
at_least_one (pos zero) = 1
at_least_one (pos (suc n)) = suc n
at_least_one (negsuc n) = 1

-- std::vector<T>(n, val)
abbrev pub filled {ℓ} : {A : Type ℓ} → ℤ → A → Result Error (List A)
filled (pos n) val = ok (replicate n val)
filled (negsuc n) val = err length_error

-- The length and the open slots that the constructor sets.
unfoldable pub initial_length : Bool → ℕ → List ℤ → Result Error ℤ
initial_length true our_ndims peer_dims =
    if eqb our_ndims (length peer_dims)
    then ok (pos 0)
    else (if eqb (our_ndims + 1) (length peer_dims)
        then or_throw (get_last? peer_dims) undefined
        else err runtime_error)
initial_length false our_ndims peer_dims =
    if ltb our_ndims (length peer_dims)
    then err runtime_error
    else (if ltb (length peer_dims + 1) our_ndims then err runtime_error else ok (negsuc 0))

abbrev initial_open : Bool → ℤ → Result Error (List Bool)
initial_open true len = filled len true
initial_open false len = ok (true ∷ [])

-- Port::Port
unfoldable pub new : Text → Operator → Bool → Bool → ℕ → List ℤ → Result Error Port
unfolding initial_length identifier
new name oper is_vector is_connected our_ndims peer_dims = do
  name' ← identifier name
  len ← initial_length is_vector our_ndims peer_dims
  open_slots ← initial_open is_vector len
  ok (record {
    name = name';
    oper = oper;
    is_connected = is_connected;
    length_ = len;
    is_resizable = is_vector && eqb our_ndims (length peer_dims);
    open_slots = open_slots;
    num_messages = replicate (at_least_one len) (pos 0);
    resuming_slots = replicate (at_least_one len) false;
  })

-- slot.is_set() ? slot.get() : 0
abbrev pub slot_index : Option ℤ → ℤ
slot_index none = pos 0
slot_index (some i) = i

-- Port::is_open(), is_open(int), is_open(Optional<int>)
unfoldable pub is_open : Port → Option ℤ → Result Error Bool
is_open p slot = or_throw (at p.open_slots (slot_index slot)) out_of_range

unfoldable pub is_vector : Port → Bool
is_vector p = elim p.length_ [ pos n ↦ true | negsuc n ↦ false ]

unfoldable pub get_length : Port → Result Error ℤ
get_length p = elim p.length_ [ pos n ↦ ok (pos n) | negsuc n ↦ err runtime_error ]

-- The new length stands also where the vector of open slots cannot be made for it.
unfoldable pub resize : ℤ → Port → Result Error (Unit {0}) × Port
resize (negsuc n) p = (err length_error, record p { length_ = negsuc n })
resize (pos n) p = (
  ok tt,
  record p {
    length_ = pos n;
    open_slots = replicate n true;
    num_messages = extend_vector_to_size p.num_messages (at_least_one (pos n)) (pos 0);
    resuming_slots = extend_vector_to_size p.resuming_slots (at_least_one (pos n)) false;
  },
)

unfoldable pub set_length : ℤ → Port → Result Error (Unit {0}) × Port
unfolding resize
set_length len p =
    if not p.is_resizable
    then (err runtime_error, p)
    else (if eqb_ℤ len p.length_ then (ok tt, p) else resize len p)

-- Port::set_closed() and set_closed(int)
unfoldable pub set_closed : Option ℤ → Port → Result Error Port
set_closed slot p = do
  slots ← write p.open_slots (slot_index slot) false
  ok (record p { open_slots = slots })

unfoldable pub restore_message_counts : List ℤ → Port → Port
restore_message_counts counts p = record p {
  num_messages = extend_vector_to_size counts (at_least_one p.length_) (pos 0);
  resuming_slots =
      extend_vector_to_size (replicate (length counts) true) (at_least_one p.length_) false;
}

unfoldable pub get_message_counts : Port → List ℤ
get_message_counts p = p.num_messages

unfoldable pub set_resumed : Option ℤ → Port → Result Error Port
set_resumed slot p = do
  slots ← write p.resuming_slots (slot_index slot) false
  ok (record p { resuming_slots = slots })

unfoldable pub increment_num_messages : Option ℤ → Port → Result Error Port
unfolding set_resumed
increment_num_messages slot p = do
  n ← or_throw (at p.num_messages (slot_index slot)) undefined
  counts ← write p.num_messages (slot_index slot) (suc_ℤ n)
  set_resumed (some (slot_index slot)) (record p { num_messages = counts })

unfoldable pub get_num_messages : Option ℤ → Port → Result Error ℤ
get_num_messages slot p = or_throw (at p.num_messages (slot_index slot)) undefined

unfoldable pub is_resuming : Option ℤ → Port → Result Error Bool
is_resuming slot p = or_throw (at p.resuming_slots (slot_index slot)) undefined
