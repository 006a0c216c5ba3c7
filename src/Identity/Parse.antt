-- ===== src/Identity/Parse.antt =====
-- identity.cpp: Reference::string_to_parts_ and Reference::parts_to_string_.
use muscle.Prelude.{
  ℕ, zero, suc, ◌≤◌, ◌≡◌, refl, Bool, true, false, ◌||◌, List, [], ◌∷◌, ◌++◌, Result, ok, err,
  ◌>>=◌, ◌+◌, ap, ◌∙◌, Bool-cases, inl, inr, Error, invalid_argument, ℤ, Option, none, some, eqb,
  arith, if◌then◌else◌, length,
}
use native.Mathlib.Nat.{zero-add}
use muscle.Identity.{Text, ReferencePart, id_part, index_part, Reference, identifier, part_of_index}
use muscle.Identity.Decimal.{show, stoi}

abbrev pub is_op : ℕ → Bool
is_op c = eqb c b'.' || eqb c b'['

-- find_next_op: what stands before the next operator, and the text from the operator on.
unfoldable pub split_op : Text → Text × Text
split_op [] = ([], [])
split_op (c ∷ cs) =
    let (name, rest) = split_op cs in if is_op c then ([], c ∷ cs) else (c ∷ name, rest)

-- text.find(']', …): what stands before the bracket, and the text behind it.
unfoldable pub split_bracket : Text → Option (Text × Text)
split_bracket [] = none
split_bracket (c ∷ cs) =
    let rest = split_bracket cs in
    if eqb c b']' then some ([], cs) else elim rest [ none ↦ none | some (a, b) ↦ some (c ∷ a, b) ]

-- Both catch clauses of std::stoi throw std::invalid_argument.
abbrev pub index_or_throw : Result Error ℤ → Result Error ReferencePart
index_or_throw (ok i) = ok (part_of_index i)
index_or_throw (err e) = err invalid_argument

unfoldable pub identifier_then : Text × Text → Result Error (ReferencePart × Text)
unfolding identifier
identifier_then (name, rest) = do i ← identifier name; ok (id_part i, rest)

unfoldable pub index_then : Option (Text × Text) → Result Error (ReferencePart × Text)
unfolding stoi part_of_index
index_then none = err invalid_argument
index_then (some (index_str, rest)) = do p ← index_or_throw (stoi index_str); ok (p, rest)

-- One round of the loop, at text[cur_op] and what follows: the part that is pushed, and the text
-- from the new `cur_op` on.
unfoldable pub next_part : ℕ → Text → Result Error (ReferencePart × Text)
unfolding split_op split_bracket identifier_then index_then
next_part c cs =
    if eqb c b'.'
    then identifier_then (split_op cs)
    else (if eqb c b'[' then index_then (split_bracket cs) else err invalid_argument)

-- A round, and the rest of the loop after it.
abbrev pub step :
    (Text → Result Error (List ReferencePart))
    → Result Error (ReferencePart × Text)
    → Result Error (List ReferencePart)
step loop (err e) = err e
step loop (ok (p, rest)) = elim (loop rest) [ err e ↦ err e | ok ps ↦ ok (p ∷ ps) ]

-- while (cur_op < end). The fuel is the length of the text; `parts_loop_fuel` shows it is enough.
unfoldable pub parts_loop : ℕ → Text → Result Error (List ReferencePart)
parts_loop f [] = ok []
parts_loop zero (c ∷ cs) = ok []
parts_loop (suc f) (c ∷ cs) = step (parts_loop f) (next_part c cs)

unfoldable pub string_to_parts : Text → Result Error Reference
unfolding split_op identifier_then
string_to_parts text = do
  (p, rest) ← identifier_then (split_op text)
  ps ← parts_loop (length rest) rest
  ok (p ∷ ps)

unfoldable pub print_part : ReferencePart → Text
print_part (id_part i) = b'.' ∷ i
print_part (index_part n) = b'[' ∷ (show n ++ b']' ∷ [])

unfoldable pub print_parts : List ReferencePart → Text
unfolding print_part
print_parts [] = []
print_parts (p ∷ ps) = print_part p ++ print_parts ps

-- There is no period before the first part.
unfoldable pub parts_to_string : Reference → Text
unfolding print_parts
parts_to_string [] = []
parts_to_string (id_part i ∷ ps) = i ++ print_parts ps
parts_to_string (index_part n ∷ ps) = print_parts (index_part n ∷ ps)

split_op-le : (s : Text) → length (split_op s).1 ≤ length s
unfolding split_op
split_op-le [] = omega arith
split_op-le (c ∷ cs) = ground (arith, split_op-le cs)

abbrev RestLe : Option (Text × Text) → ℕ → Type 0
RestLe none n = Unit {0}
RestLe (some (a, b)) n = length b ≤ n

RestLe-cons :
    (o : Option (Text × Text)) (c n : ℕ)
    → RestLe o n
    → RestLe (elim o [ none ↦ none | some (a, b) ↦ some (c ∷ a, b) ]) (suc n)
RestLe-cons none c n h = tt
RestLe-cons (some (a, b)) c n h = omega arith

split_bracket-RestLe : (s : Text) → RestLe (split_bracket s) (length s)
unfolding split_bracket
split_bracket-RestLe [] = tt
split_bracket-RestLe (c ∷ cs) = elim (Bool-cases (eqb c b']')) [
  | inl e ↦ rw e (omega arith)
  | inr e ↦ rw e (RestLe-cons (split_bracket cs) c (length cs) (split_bracket-RestLe cs))
]

identifier_then-le :
    (name rest : Text) (p : ReferencePart) (r : Text)
    → identifier_then (name, rest) ≡ ok (p, r)
    → r ≡ rest
unfolding identifier_then
identifier_then-le [] rest p r h = ground arith
identifier_then-le (c ∷ cs) rest p r h = ground arith

bind_index-rest :
    (i : Result Error ReferencePart) (rest : Text) (p : ReferencePart) (r : Text)
    → ◌>>=◌ {B = ReferencePart × Text} i (λ q. ok (q, rest)) ≡ ok (p, r)
    → r ≡ rest
bind_index-rest (ok q) rest p r h = ground arith
bind_index-rest (err e) rest p r h = cc

index_then-le :
    (o : Option (Text × Text)) (n : ℕ) (p : ReferencePart) (r : Text)
    → RestLe o n
    → index_then o ≡ ok (p, r)
    → length r ≤ n
unfolding index_then
index_then-le none n p r h e = cc
index_then-le (some (a, b)) n p r h e =
    omega (arith, ap (length {A = ℕ}) (bind_index-rest (index_or_throw (stoi a)) b p r e))

pub next_part-dot :
    (c : ℕ) (cs : Text) → eqb c b'.' ≡ true → identifier_then (split_op cs) ≡ next_part c cs
next_part-dot c cs e = unfold next_part in rw e

pub next_part-bracket :
    (c : ℕ) (cs : Text)
    → eqb c b'.' ≡ false
    → eqb c b'[' ≡ true
    → index_then (split_bracket cs) ≡ next_part c cs
next_part-bracket c cs e e' = unfold next_part in rw (e, e')

pub next_part-other :
    (c : ℕ) (cs : Text)
    → eqb c b'.' ≡ false
    → eqb c b'[' ≡ false
    → next_part c cs ≡ err invalid_argument
next_part-other c cs e e' = unfold next_part in rw (e, e')

next_part-le :
    (c : ℕ) (cs : Text) (p : ReferencePart) (rest : Text)
    → next_part c cs ≡ ok (p, rest)
    → length rest ≤ length cs
next_part-le c cs p rest h = elim (Bool-cases (eqb c b'.')) [
  | inl e ↦ omega (
    arith,
    split_op-le cs,
    ap (length {A = ℕ})
        (identifier_then-le (split_op cs).0 (split_op cs).1 p rest (next_part-dot c cs e ∙ h)),
  )
  | inr e ↦ elim (Bool-cases (eqb c b'[')) [
    | inl e' ↦
        index_then-le (split_bracket cs) (length cs) p rest (split_bracket-RestLe cs)
          (next_part-bracket c cs e e' ∙ h)
    | inr e' ↦ cc (next_part-other c cs e e')
  ]
]

step-eq :
    (f g : Text → Result Error (List ReferencePart)) (r : Result Error (ReferencePart × Text))
    → ((p : ReferencePart) (rest : Text) → r ≡ ok (p, rest) → f rest ≡ g rest)
    → step f r ≡ step g r
step-eq f g (err e) h = refl
step-eq f g (ok (p, rest)) h = rw (step, h p rest refl)

parts_loop-suc : (f : ℕ) (cs : Text) → length cs ≤ f → parts_loop (suc f) cs ≡ parts_loop f cs
unfolding parts_loop
parts_loop-suc zero [] h = refl
parts_loop-suc (suc f) [] h = refl
parts_loop-suc zero (c ∷ cs) h = absurd (omega arith)
parts_loop-suc (suc f) (c ∷ cs) h =
    step-eq (parts_loop (suc f)) (parts_loop f) (next_part c cs)
      (λ p rest e. parts_loop-suc f rest (omega (arith, next_part-le c cs p rest e)))

suc_shift : (k n : ℕ) → suc k + n ≡ suc (k + n)
suc_shift k n = omega arith

-- With more fuel than the text is long, the loop does the same.
pub parts_loop_fuel :
    (k : ℕ) (cs : Text) → parts_loop (k + length cs) cs ≡ parts_loop (length cs) cs
parts_loop_fuel zero cs = rw zero-add
parts_loop_fuel (suc k) cs =
    ap (λ n. parts_loop n cs) (suc_shift k (length cs))
    ∙ parts_loop-suc (k + length cs) cs (omega arith)
    ∙ parts_loop_fuel k cs
