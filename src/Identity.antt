-- ===== src/Identity.antt =====
-- libmuscle/cpp/src/ymmsl/identity.{hpp,cpp}: identifiers and references. A std::string is the list
-- of its bytes. A position in a text is the text from that position on.
pub mod Decimal
pub mod Parse
pub mod Wellformed
pub mod Parsed
pub mod Negative
mod Examples
use muscle.Prelude.{
  ℕ, suc, ◌≡◌, ◌↔◌, refl, Bool, true, false, ◌&&◌, ◌||◌, List, [], ◌∷◌, ◌++◌, map, Result, ok, err,
  ◌>>=◌, ◌>>◌, require, Error, invalid_argument, ℤ, pos, negsuc, leb, eqb, eqb_iff, Eq, ◌==◌,
  eq_iff, list_beq, list_beq_iff, arith, length,
}

abbrev pub Text : Type 0
Text = List ℕ

-- class Identifier: its `data_`, which the constructor has checked.
abbrev pub Identifier : Type 0
Identifier = Text

abbrev pub is_lower : ℕ → Bool
is_lower c = leb b'a' c && leb c b'z'

abbrev pub is_upper : ℕ → Bool
is_upper c = leb b'A' c && leb c b'Z'

abbrev pub is_digit : ℕ → Bool
is_digit c = leb b'0' c && leb c b'9'

abbrev pub is_under : ℕ → Bool
is_under c = eqb c b'_'

unfoldable pub valid_first_char : ℕ → Bool
valid_first_char c = is_lower c || is_upper c || is_under c

unfoldable pub valid_char : ℕ → Bool
valid_char c = is_lower c || is_upper c || is_digit c || is_under c

unfoldable pub valid_chars : Text → Bool
valid_chars [] = true
valid_chars (c ∷ cs) = valid_char c && valid_chars cs

-- Identifier::Identifier(std::string const &)
unfoldable pub identifier : Text → Result Error Identifier
unfolding valid_first_char valid_char valid_chars
identifier [] = err invalid_argument
identifier (c ∷ cs) = do
  require (valid_first_char c) invalid_argument
  require (valid_chars (c ∷ cs)) invalid_argument
  ok (c ∷ cs)

-- class ReferencePart. The class tells an identifier from an index by the sign of `index_`, so a
-- part that was made with a negative index is the identifier "invalid" for all of its users.
pub data ReferencePart : Type 0 where
  id_part : Identifier → ReferencePart
  index_part : ℕ → ReferencePart

abbrev pub invalid : Identifier
invalid = b'i' ∷ b'n' ∷ b'v' ∷ b'a' ∷ b'l' ∷ b'i' ∷ b'd' ∷ []

-- ReferencePart::ReferencePart(int)
unfoldable pub part_of_index : ℤ → ReferencePart
part_of_index (pos n) = index_part n
part_of_index (negsuc n) = id_part invalid

abbrev pub is_identifier : ReferencePart → Bool
is_identifier (id_part i) = true
is_identifier (index_part n) = false

abbrev pub is_index : ReferencePart → Bool
is_index (id_part i) = false
is_index (index_part n) = true

-- ReferencePart::identifier()
abbrev pub identifier_of : ReferencePart → Identifier
identifier_of (id_part i) = i
identifier_of (index_part n) = invalid

-- ReferencePart::operator==
abbrev pub part_beq : ReferencePart → ReferencePart → Bool
part_beq (id_part i) (id_part j) = list_beq eqb i j
part_beq (index_part n) (index_part m) = eqb n m
part_beq _ _ = false

pub part_beq_iff : (p q : ReferencePart) → (part_beq p q ≡ true) ↔ (p ≡ q)
part_beq_iff (id_part i) (id_part j) = ground (arith, list_beq_iff eqb eqb_iff i j)
part_beq_iff (id_part i) (index_part m) = ground arith
part_beq_iff (index_part n) (id_part j) = ground arith
part_beq_iff (index_part n) (index_part m) = ground arith

instance abbrev pub part_eq : Eq ReferencePart
part_eq = record { beq = part_beq; beq_iff = part_beq_iff }

-- class Reference: its `parts_`. Its `operator==` is that of lists of parts.
abbrev pub Reference : Type 0
Reference = List ReferencePart

-- Reference::operator+=(std::vector<int>), operator+(std::vector<int>)
unfoldable pub append_indices : Reference → List ℤ → Reference
unfolding part_of_index
append_indices r is = r ++ map part_of_index is

-- Reference::operator+(ReferencePart) of an Identifier, which converts to a part
unfoldable pub append_identifier : Reference → Identifier → Reference
append_identifier r i = r ++ id_part i ∷ []
