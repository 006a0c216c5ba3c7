-- ===== src/Instance/Named.antt =====
-- The parts of the name of an instance, and log levels in any case.
use muscle.Prelude.{
  ℕ, ◌-◌, ◌≡◌, refl, ap, ◌∙◌, true, ◌&&◌, [], ◌∷◌, ◌++◌, map, leb, arith, if◌then◌else◌,
}
use muscle.Identity.{Text, Reference, id_part, index_part}
use muscle.Model.{skip_identifiers, only_indices}
use muscle.Instance.Names.{name_, index_, leading_indices, to_upper, string_to_level, level_of}

indices_all : (r : Reference) → only_indices r ≡ true → map index_part (leading_indices r) ≡ r
unfolding only_indices
indices_all [] h = refl
indices_all (id_part i ∷ ps) h = cc
indices_all (index_part n ∷ ps) h = ap (λ ps. index_part n ∷ ps) (indices_all ps h)

-- The component's name and the index of an instance whose name is identifiers and then indices make
-- up its name.
pub name_-index_ :
    (r : Reference)
    → only_indices (skip_identifiers r) ≡ true
    → name_ r ++ map index_part (index_ r) ≡ r
unfolding name_ index_ skip_identifiers
name_-index_ [] h = refl
name_-index_ (id_part i ∷ ps) h = ap (λ ps. id_part i ∷ ps) (name_-index_ ps h)
name_-index_ (index_part n ∷ ps) h = indices_all (index_part n ∷ ps) h

abbrev upper : ℕ → ℕ
upper c = if leb b'a' c && leb c b'z' then c - 32 else c

upper_twice : (c : ℕ) → upper (upper c) ≡ upper c
upper_twice c = ground arith

to_upper-to_upper : (t : Text) → to_upper (to_upper t) ≡ to_upper t
to_upper-to_upper [] = refl
to_upper-to_upper (c ∷ cs) =
    ap (λ d. d ∷ to_upper (to_upper cs)) (upper_twice c)
    ∙ ap (λ t. upper c ∷ t) (to_upper-to_upper cs)

-- A log level is found for a text exactly as for the text in upper case, also when there is none.
pub string_to_level-to_upper : (t : Text) → string_to_level (to_upper t) ≡ string_to_level t
unfolding string_to_level
string_to_level-to_upper t = ap level_of (to_upper-to_upper t)
