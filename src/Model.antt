-- ===== src/Model.antt =====
-- libmuscle/cpp/src/ymmsl/model.{hpp,cpp} and component.{hpp,cpp}: conduits, and the operators of
-- ports.
pub mod Shape
mod Examples
use muscle.Prelude.{
  ℕ, ◌<◌, ◌≡◌, Bool, true, false, ◌&&◌, ◌||◌, List, [], ◌∷◌, ◌++◌, Option, none, some, Result, ok,
  err, ◌>>=◌, ◌>>◌, require, Error, runtime_error, length, leb, get_last?, drop_last,
}
use mathlib.Core.List.{reverse}
use muscle.Identity.{
  Text, Identifier, ReferencePart, id_part, index_part, Reference, is_identifier, is_index,
  identifier_of, invalid,
}
use muscle.Identity.Parse.{string_to_parts}

-- enum class Operator
pub data Operator : Type 0 where
  op_none f_init o_i s o_f : Operator

unfoldable pub allows_sending : Operator → Bool
allows_sending op_none = true
allows_sending o_i = true
allows_sending o_f = true
allows_sending _ = false

unfoldable pub allows_receiving : Operator → Bool
allows_receiving op_none = true
allows_receiving f_init = true
allows_receiving s = true
allows_receiving _ = false

pub record Conduit : Type 0 where
  pub sender : Reference
  pub receiver : Reference

-- The loops go from the end of the reference to its front, so they run over it reversed. A
-- reference begins with an identifier, which stops them.
unfoldable pub stem_loop : List ReferencePart → List ReferencePart
stem_loop [] = []
stem_loop (id_part i ∷ ps) = id_part i ∷ ps
stem_loop (index_part n ∷ ps) = stem_loop ps

unfoldable pub stem : Reference → Reference
unfolding stem_loop
stem r = reverse (stem_loop (reverse r))

unfoldable pub slot_loop : List ReferencePart → List ℕ → List ℕ
slot_loop [] result = result
slot_loop (id_part i ∷ ps) result = result
slot_loop (index_part n ∷ ps) result = slot_loop ps (n ∷ result)

unfoldable pub slot : Reference → List ℕ
unfolding slot_loop
slot r = slot_loop (reverse r) []

-- while (i != cend && i->is_identifier()) ++i;
unfoldable pub skip_identifiers : Reference → Reference
skip_identifiers [] = []
skip_identifiers (id_part i ∷ ps) = skip_identifiers ps
skip_identifiers (index_part n ∷ ps) = index_part n ∷ ps

-- while (i != cend) { if (i->is_identifier()) throw …; ++i; }
unfoldable pub only_indices : Reference → Bool
only_indices [] = true
only_indices (p ∷ ps) = is_index p && only_indices ps

unfoldable pub check_reference : Reference → Result Error (Unit {0})
unfolding skip_identifiers only_indices stem
check_reference r = do
  require (only_indices (skip_identifiers r)) runtime_error
  require (leb 2 (length (stem r))) runtime_error

-- Conduit::Conduit
unfoldable pub conduit : Text → Text → Result Error Conduit
unfolding check_reference
conduit sender receiver = do
  sender' ← string_to_parts sender
  receiver' ← string_to_parts receiver
  check_reference sender'
  check_reference receiver'
  ok (record { sender = sender'; receiver = receiver' })

-- *std::prev(r.cend()), of a reference with a last part
abbrev pub last_identifier : Reference → Identifier
last_identifier r = elim (get_last? r) [ none ↦ invalid | some p ↦ identifier_of p ]

unfoldable pub sending_component : Conduit → Reference
unfolding stem
sending_component c = drop_last (stem c.sender)

unfoldable pub sending_port : Conduit → Identifier
unfolding stem
sending_port c = last_identifier (stem c.sender)

unfoldable pub sending_slot : Conduit → List ℕ
unfolding slot
sending_slot c = slot c.sender

unfoldable pub receiving_component : Conduit → Reference
unfolding stem
receiving_component c = drop_last (stem c.receiver)

unfoldable pub receiving_port : Conduit → Identifier
unfolding stem
receiving_port c = last_identifier (stem c.receiver)

unfoldable pub receiving_slot : Conduit → List ℕ
unfolding slot
receiving_slot c = slot c.receiver
