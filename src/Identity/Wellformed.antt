-- ===== src/Identity/Wellformed.antt =====
-- What a reference made from a text looks like, and that printing it and reading it are inverse.
use muscle.Prelude.{
  ℕ, zero, suc, ◌≤◌, ◌<◌, ◌≡◌, refl, ap, ◌∙◌, true, false, List, [], ◌∷◌, ◌++◌, Result, ok, Error,
  ℤ, pos, some, eqb, arith, length, length-append,
}
use mathlib.Core.List.{append_assoc}
use muscle.Identity.{
  Text, Identifier, ReferencePart, id_part, index_part, Reference, identifier, part_of_index,
  valid_char, valid_chars, is_digit,
}
use muscle.Identity.Decimal.{AllDigits, show, stoi, stoi-show, show-AllDigits}
use muscle.Identity.Parse.{
  is_op, split_op, split_bracket, identifier_then, index_then, next_part, parts_loop, step,
  string_to_parts, print_part, print_parts, parts_to_string,
}

-- An identifier that the constructor has checked.
abbrev pub IsIdentifier : Identifier → Type 0
IsIdentifier i = identifier i ≡ ok i

abbrev pub IsPart : ReferencePart → Type 0
IsPart (id_part i) = IsIdentifier i
IsPart (index_part n) = n < 2147483648

abbrev pub AllParts : List ReferencePart → Type 0
AllParts [] = Unit {0}
AllParts (p ∷ ps) = IsPart p × AllParts ps

-- A reference begins with an identifier, and its parts are identifiers and ints from 0.
abbrev pub IsReference : Reference → Type 0
IsReference [] = ⊥
IsReference (id_part i ∷ ps) = IsIdentifier i × AllParts ps
IsReference (index_part n ∷ ps) = ⊥

abbrev pub StartsOp : Text → Type 0
StartsOp [] = Unit {0}
StartsOp (c ∷ cs) = is_op c ≡ true

valid_char-not_op : (c : ℕ) → valid_char c ≡ true → is_op c ≡ false
unfolding valid_char
valid_char-not_op c h = ground arith

split_op-append :
    (s rest : Text) → valid_chars s ≡ true → StartsOp rest → split_op (s ++ rest) ≡ (s, rest)
unfolding split_op valid_chars
split_op-append [] [] h k = refl
split_op-append [] (c ∷ cs) h k = ground arith
split_op-append (c ∷ s) rest h k = ground (arith, split_op-append s rest, valid_char-not_op c)

digit-not_bracket : (c : ℕ) → is_digit c ≡ true → eqb c b']' ≡ false
digit-not_bracket c h = ground arith

pub split_bracket-append :
    (s rest : Text) → AllDigits s → split_bracket (s ++ b']' ∷ rest) ≡ some (s, rest)
unfolding split_bracket
split_bracket-append [] rest h = refl
split_bracket-append (c ∷ s) rest h = rw (digit-not_bracket c h.0, split_bracket-append s rest h.1)

IsIdentifier-valid : (i : Identifier) → IsIdentifier i → valid_chars i ≡ true
unfolding identifier
IsIdentifier-valid [] h = cc
IsIdentifier-valid (c ∷ cs) h = ground arith

pub identifier_then-id :
    (i rest : Text)
    → IsIdentifier i
    → StartsOp rest
    → identifier_then (split_op (i ++ rest)) ≡ ok (id_part i, rest)
identifier_then-id i rest h k =
    rw (split_op-append i rest (IsIdentifier-valid i h) k) (unfold identifier_then in rw h)

pub index_then-ok :
    (s rest : Text) (i : ℤ)
    → stoi s ≡ ok i
    → index_then (some (s, rest)) ≡ ok (part_of_index i, rest)
unfolding index_then
index_then-ok s rest i h = rw h

next_part-index :
    (s rest : Text) (n : ℕ)
    → AllDigits s
    → stoi s ≡ ok (pos n)
    → next_part b'[' ((s ++ b']' ∷ []) ++ rest) ≡ ok (index_part n, rest)
next_part-index s rest n h k = rw (append_assoc s (b']' ∷ []) rest) (
    unfold next_part in
    (ap index_then (split_bracket-append s rest h) ∙ index_then-ok s rest (pos n) k))

next_part-print :
    (p : ReferencePart) (rest : Text)
    → IsPart p
    → StartsOp rest
    → (c : ℕ) × (cs : Text) × (print_part p ++ rest ≡ c ∷ cs) × (next_part c cs ≡ ok (p, rest))
unfolding print_part
next_part-print (id_part i) rest h k =
    (b'.', i ++ rest, refl, unfold next_part in identifier_then-id i rest h k)
next_part-print (index_part n) rest h k = (
  b'[',
  (show n ++ b']' ∷ []) ++ rest,
  refl,
  next_part-index (show n) rest n (show-AllDigits n) (stoi-show n h),
)

StartsOp-print_parts : (ps : List ReferencePart) → StartsOp (print_parts ps)
unfolding print_parts
StartsOp-print_parts [] = tt
StartsOp-print_parts (id_part i ∷ ps) = refl
StartsOp-print_parts (index_part n ∷ ps) = refl

pub parts_loop-step :
    (f : ℕ) (c : ℕ) (cs : Text) (p : ReferencePart) (rest : Text)
    → next_part c cs ≡ ok (p, rest)
    → parts_loop (suc f) (c ∷ cs) ≡ step (parts_loop f) (ok (p, rest))
unfolding parts_loop
parts_loop-step f c cs p rest h = ap (step (parts_loop f)) h

pub step-ok :
    (loop : Text → Result Error (List ReferencePart)) (p : ReferencePart) (rest : Text)
    (ps : List ReferencePart)
    → loop rest ≡ ok ps
    → step loop (ok (p, rest)) ≡ ok (p ∷ ps)
step-ok loop p rest ps h = rw (step, h)

length-print_parts :
    (p : ReferencePart) (ps : List ReferencePart)
    → length (print_parts ps) < length (print_parts (p ∷ ps))
unfolding print_parts
length-print_parts (id_part i) ps = omega (arith, length-append i (print_parts ps))
length-print_parts (index_part n) ps =
    omega (arith, length-append (show n ++ b']' ∷ []) (print_parts ps))

print_parts-cons :
    (p : ReferencePart) (ps : List ReferencePart)
    → print_parts (p ∷ ps) ≡ print_part p ++ print_parts ps
unfolding print_parts
print_parts-cons p ps = refl

parts_loop-print :
    (f : ℕ) (ps : List ReferencePart)
    → AllParts ps
    → length (print_parts ps) ≤ f
    → parts_loop f (print_parts ps) ≡ ok ps
parts_loop-print f [] h k = unfold parts_loop print_parts in refl
parts_loop-print zero (p ∷ ps) h k = absurd (omega (arith, length-print_parts p ps))
parts_loop-print (suc f) (p ∷ ps) h k =
    let (c, cs, e, q) = next_part-print p (print_parts ps) h.0 (StartsOp-print_parts ps) in
    ap (parts_loop (suc f)) (print_parts-cons p ps ∙ e)
    ∙ parts_loop-step f c cs p (print_parts ps) q
    ∙ step-ok (parts_loop f) p (print_parts ps) ps
        (parts_loop-print f ps h.1 (omega (arith, length-print_parts p ps)))

-- A reference that begins with an identifier, whose identifiers are valid and whose indices are below
-- 2^31, is read back from what it is printed as.
pub string_to_parts-parts_to_string :
    (r : Reference) → IsReference r → string_to_parts (parts_to_string r) ≡ ok r
string_to_parts-parts_to_string [] h = absurd h
string_to_parts-parts_to_string (index_part n ∷ ps) h = absurd h
string_to_parts-parts_to_string (id_part i ∷ ps) h =
    unfold string_to_parts parts_to_string in
    rw (
      identifier_then-id i (print_parts ps) h.0 (StartsOp-print_parts ps),
      parts_loop-print (length (print_parts ps)) ps h.1 (omega arith),
    )
