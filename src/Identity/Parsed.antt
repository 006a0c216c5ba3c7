-- ===== src/Identity/Parsed.antt =====
-- What string_to_parts_ returns is a well-formed reference.
use muscle.Prelude.{
  ℕ, zero, suc, ◌≡◌, refl, ap, ◌∙◌, sym, subst, List, [], ◌∷◌, Result, ok, err, >>=-eq-ok, Error, ℤ,
  pos, negsuc, Option, none, some, eqb, arith, Bool-cases, inl, inr, length,
}
use muscle.Identity.{
  Text, Identifier, ReferencePart, id_part, index_part, Reference, identifier, part_of_index,
  invalid,
}
use muscle.Identity.Decimal.{stoi, stoi-lt}
use muscle.Identity.Parse.{
  split_op, split_bracket, identifier_then, index_then, index_or_throw, next_part, next_part-dot,
  next_part-bracket, next_part-other, parts_loop, step, string_to_parts, parts_to_string,
}
use muscle.Identity.Wellformed.{
  IsIdentifier, IsPart, AllParts, IsReference, string_to_parts-parts_to_string,
}

identifier-eq : (s : Text) (i : Identifier) → identifier s ≡ ok i → i ≡ s
unfolding identifier
identifier-eq [] i h = cc
identifier-eq (c ∷ cs) i h = ground arith

identifier_then-id_part :
    (s : Text × Text) (p : ReferencePart) (rest : Text)
    → identifier_then s ≡ ok (p, rest)
    → (i : Identifier) × (p ≡ id_part i) × IsIdentifier i
unfolding identifier_then
identifier_then-id_part (name, after) p rest h =
    let (i, e, q) =
      >>=-eq-ok {B = ReferencePart × Text} (identifier name) (λ i. ok (id_part i, after)) h in
    (i, cc, ap identifier (identifier-eq name i e) ∙ e)

identifier_then-IsPart :
    (s : Text × Text) (p : ReferencePart) (rest : Text)
    → identifier_then s ≡ ok (p, rest)
    → IsPart p
identifier_then-IsPart s p rest h =
    let (i, e, q) = identifier_then-id_part s p rest h in subst IsPart (sym e) q

invalid-IsIdentifier : IsIdentifier invalid
unfolding identifier
invalid-IsIdentifier = refl

index_or_throw-IsPart :
    (s : Text) (r : Result Error ℤ) (p : ReferencePart)
    → stoi s ≡ r
    → index_or_throw r ≡ ok p
    → IsPart p
unfolding part_of_index
index_or_throw-IsPart s (err e) p k h = cc
index_or_throw-IsPart s (ok (pos n)) p k h =
    let e : index_part n ≡ p = cc in subst IsPart e (stoi-lt s n k)
index_or_throw-IsPart s (ok (negsuc n)) p k h =
    let e : id_part invalid ≡ p = cc in subst IsPart e invalid-IsIdentifier

index_then-IsPart :
    (o : Option (Text × Text)) (p : ReferencePart) (rest : Text)
    → index_then o ≡ ok (p, rest)
    → IsPart p
unfolding index_then
index_then-IsPart none p rest h = cc
index_then-IsPart (some (a, b)) p rest h =
    let (q, e, k) =
      >>=-eq-ok {B = ReferencePart × Text} (index_or_throw (stoi a)) (λ q. ok (q, b)) h in
    index_or_throw-IsPart a (stoi a) p refl (cc)

next_part-IsPart :
    (c : ℕ) (cs : Text) (p : ReferencePart) (rest : Text) → next_part c cs ≡ ok (p, rest) → IsPart p
next_part-IsPart c cs p rest h = elim (Bool-cases (eqb c b'.')) [
  | inl e ↦ identifier_then-IsPart (split_op cs) p rest (next_part-dot c cs e ∙ h)
  | inr e ↦ elim (Bool-cases (eqb c b'[')) [
    | inl e' ↦ index_then-IsPart (split_bracket cs) p rest (next_part-bracket c cs e e' ∙ h)
    | inr e' ↦ cc (next_part-other c cs e e')
  ]
]

step-AllParts :
    (loop : Text → Result Error (List ReferencePart)) (r : Result Error (ReferencePart × Text))
    (ps : List ReferencePart)
    → ((p : ReferencePart) (rest : Text) → r ≡ ok (p, rest) → IsPart p)
    → ((rest : Text) (qs : List ReferencePart) → loop rest ≡ ok qs → AllParts qs)
    → step loop r ≡ ok ps
    → AllParts ps
step-AllParts loop (err e) ps first more h = cc
step-AllParts loop (ok (p, rest)) ps first more h = go (loop rest) refl h
  where
    go :
        (l : Result Error (List ReferencePart))
        → loop rest ≡ l
        → (elim l [ err e ↦ err e | ok qs ↦ ok (p ∷ qs) ]) ≡ ok ps
        → AllParts ps
    go (err e) k q = cc
    go (ok qs) k q =
        let e : p ∷ qs ≡ ps = cc in subst AllParts e (first p rest refl, more rest qs k)

parts_loop-AllParts :
    (f : ℕ) (s : Text) (ps : List ReferencePart) → parts_loop f s ≡ ok ps → AllParts ps
unfolding parts_loop
parts_loop-AllParts zero [] ps h = let e : [] ≡ ps = cc in subst AllParts e tt
parts_loop-AllParts (suc f) [] ps h = let e : [] ≡ ps = cc in subst AllParts e tt
parts_loop-AllParts zero (c ∷ cs) ps h = let e : [] ≡ ps = cc in subst AllParts e tt
parts_loop-AllParts (suc f) (c ∷ cs) ps h =
    step-AllParts (parts_loop f) (next_part c cs) ps (next_part-IsPart c cs) (parts_loop-AllParts f)
      h

-- A text that is read without an exception gives a reference that begins with an identifier, whose
-- identifiers are valid and whose indices are below 2^31.
pub string_to_parts-IsReference :
    (s : Text) (r : Reference) → string_to_parts s ≡ ok r → IsReference r
unfolding string_to_parts
string_to_parts-IsReference s r h =
    let (pr, e, k) =
      >>=-eq-ok {A = ReferencePart × Text} {B = Reference} (identifier_then (split_op s)) _ h in
    let (ps, e', k') = >>=-eq-ok {B = Reference} (parts_loop (length pr.1) pr.1) _ k in
    let (i, q, v) = identifier_then-id_part (split_op s) pr.0 pr.1 e in
    let whole : id_part i ∷ ps ≡ r = cc in
    subst IsReference whole (v, parts_loop-AllParts (length pr.1) pr.1 ps e')

-- A text that is read without an exception, printed and read again gives the same reference.
pub string_to_parts_again :
    (s : Text) (r : Reference)
    → string_to_parts s ≡ ok r
    → string_to_parts (parts_to_string r) ≡ ok r
string_to_parts_again s r h = string_to_parts-parts_to_string r (string_to_parts-IsReference s r h)
