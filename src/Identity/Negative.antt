-- ===== src/Identity/Negative.antt =====
-- A subscript with a negative number does not stay an index.
use muscle.Prelude.{ℕ, suc, ◌<◌, ◌≡◌, refl, ap, ◌∙◌, [], ◌∷◌, ◌++◌, some, ok, negsuc, length}
use muscle.Identity.{Text, Identifier, id_part, part_of_index, invalid}
use muscle.Identity.Decimal.{show, show-AllDigits, stoi-minus_show}
use muscle.Identity.Parse.{split_bracket, index_then, next_part, parts_loop, string_to_parts}
use muscle.Identity.Wellformed.{
  IsIdentifier, split_bracket-append, index_then-ok, parts_loop-step, identifier_then-id, step-ok,
}

-- The text of a reference with one subscript, -(n + 1).
abbrev pub negative_subscript : ℕ → Text
negative_subscript n = b'[' ∷ b'-' ∷ (show (suc n) ++ b']' ∷ [])

split_negative :
    (n : ℕ) → split_bracket (b'-' ∷ (show (suc n) ++ b']' ∷ [])) ≡ some (b'-' ∷ show (suc n), [])
split_negative n =
    unfold split_bracket in rw (split_bracket-append (show (suc n)) [] (show-AllDigits (suc n)))

next_part-negative :
    (n : ℕ)
    → n < 2147483648
    → next_part b'[' (b'-' ∷ (show (suc n) ++ b']' ∷ [])) ≡ ok (id_part invalid, [])
next_part-negative n h =
    unfold next_part in
    (ap index_then (split_negative n)
      ∙ index_then-ok (b'-' ∷ show (suc n)) [] (negsuc n) (stoi-minus_show n h)
      ∙ unfold part_of_index in refl)

parts_loop-nil : (f : ℕ) → parts_loop f [] ≡ ok []
unfolding parts_loop
parts_loop-nil f = refl

-- A valid identifier that a negative subscript follows, of at least -2^31, is read without an
-- exception, as that identifier and then the identifier "invalid".
pub string_to_parts-negative :
    (i : Identifier) (n : ℕ)
    → IsIdentifier i
    → n < 2147483648
    → string_to_parts (i ++ negative_subscript n) ≡ ok (id_part i ∷ id_part invalid ∷ [])
string_to_parts-negative i n h k =
    unfold string_to_parts in
    rw (identifier_then-id i (negative_subscript n) h refl)
      (rw (loop (length (b'-' ∷ (show (suc n) ++ b']' ∷ [])))))
  where
    loop : (f : ℕ) → parts_loop (suc f) (negative_subscript n) ≡ ok (id_part invalid ∷ [])
    loop f =
        parts_loop-step f b'[' (b'-' ∷ (show (suc n) ++ b']' ∷ [])) (id_part invalid) []
          (next_part-negative n k)
        ∙ step-ok (parts_loop f) (id_part invalid) [] [] (parts_loop-nil f)
