-- ===== src/Identity/Examples.antt =====
-- References at concrete texts.
use muscle.Prelude.{◌++◌, [], ◌∷◌, ◌≡◌, refl, arith, ok}
use muscle.Identity.{Text, Reference, id_part, index_part, identifier, invalid}
use muscle.Identity.Decimal.{show, stoi}
use muscle.Identity.Parse.{string_to_parts, parts_to_string, parts_loop, next_part}
use muscle.Identity.Wellformed.{IsReference, string_to_parts-parts_to_string}
use muscle.Identity.Parsed.{string_to_parts-IsReference, string_to_parts_again}
use muscle.Identity.Negative.{negative_subscript, string_to_parts-negative}

-- a.b[12]
abbrev text : Text
text = b'a' ∷ b'.' ∷ b'b' ∷ b'[' ∷ b'1' ∷ b'2' ∷ b']' ∷ []

abbrev parts : Reference
parts = id_part (b'a' ∷ []) ∷ id_part (b'b' ∷ []) ∷ index_part 12 ∷ []

text_parsed : string_to_parts text ≡ ok parts
unfolding string_to_parts parts_loop next_part
text_parsed = refl

parts_printed : parts_to_string parts ≡ text
unfolding parts_to_string show
parts_printed = refl

junk_after_number : stoi (b'3' ∷ b'x' ∷ []) ≡ stoi (b'3' ∷ [])
unfolding stoi
junk_after_number = refl

parts-IsReference : IsReference parts
unfolding identifier
parts-IsReference = (refl, (refl, (omega arith, tt)))

string_to_parts-parts_to_string_example : string_to_parts (parts_to_string parts) ≡ ok parts
string_to_parts-parts_to_string_example = string_to_parts-parts_to_string parts parts-IsReference

string_to_parts-IsReference_example : IsReference parts
string_to_parts-IsReference_example = string_to_parts-IsReference text parts text_parsed

string_to_parts_again_example : string_to_parts (parts_to_string parts) ≡ ok parts
string_to_parts_again_example = string_to_parts_again text parts text_parsed

string_to_parts-negative_example :
    string_to_parts ((b'a' ∷ []) ++ negative_subscript 4)
    ≡ ok (id_part (b'a' ∷ []) ∷ id_part invalid ∷ [])
unfolding identifier
string_to_parts-negative_example = string_to_parts-negative (b'a' ∷ []) 4 refl (omega arith)
