-- ===== src/Settings/Names.antt =====
-- The names that an instance sees.
use muscle.Prelude.{
  ◌≡◌, ◌≢◌, ◌↔◌, refl, ap, sym, ◌∙◌, ◌<◌, ◌≤◌, true, [], ◌∷◌, ◌++◌, Option, none, some, length,
  eq_iff, eq_refl, arith, ltb, if◌then◌else◌, length-append, lt→ltb,
}
use muscle.Identity.{Reference, ReferencePart, part_eq, Text}
use muscle.Identity.Parse.{parts_to_string}
use muscle.Settings.{starts_with, rest_of, name_for}

starts_with-append : (instance_ name : Reference) → starts_with (instance_ ++ name) instance_ ≡ true
unfolding starts_with
starts_with-append [] [] = refl
starts_with-append [] (p ∷ name) = refl
starts_with-append (i ∷ instance_) name =
    ground (arith, eq_refl i, starts_with-append instance_ name)

rest_of-append : (instance_ name : Reference) → rest_of (instance_ ++ name) instance_ ≡ name
unfolding rest_of
rest_of-append [] [] = refl
rest_of-append [] (p ∷ name) = refl
rest_of-append (i ∷ instance_) name = rest_of-append instance_ name

append-rest_of :
    (name instance_ : Reference)
    → starts_with name instance_ ≡ true
    → name ≡ instance_ ++ rest_of name instance_
unfolding starts_with rest_of
append-rest_of [] [] h = refl
append-rest_of (p ∷ name) [] h = refl
append-rest_of [] (i ∷ instance_) h = cc
append-rest_of (p ∷ name) (i ∷ instance_) h =
    ground (arith, eq_iff p i, append-rest_of name instance_)

abbrev long_name : Reference → Reference → Option Text
long_name instance_ name =
    if ltb (length instance_) (length name)
    then (if starts_with name instance_
        then some (parts_to_string (rest_of name instance_))
        else none)
    else none

name_for-long :
    (instance_ name : Reference)
    → length name ≢ 1
    → name_for instance_ name ≡ long_name instance_ name
unfolding name_for
name_for-long instance_ name h = ground arith

long_name-some :
    (instance_ name : Reference) (t : Text)
    → long_name instance_ name ≡ some t
    → (length instance_ < length name)
      × (starts_with name instance_ ≡ true)
      × (t ≡ parts_to_string (rest_of name instance_))
long_name-some instance_ name t h = ground arith

-- A setting whose name does not have exactly one part is seen by an instance exactly if the name is the id of the
-- instance and then something more, and it is seen under what follows the id.
pub name_for_iff :
    (instance_ name : Reference) (t : Text)
    → length name ≢ 1
    → (name_for instance_ name ≡ some t) ↔ (
        (rest : Reference) × (name ≡ instance_ ++ rest)
        × (1 ≤ length rest)
        × (t ≡ parts_to_string rest))
name_for_iff instance_ name t h = (
  λ e.
      let (lt, starts, shown) =
        long_name-some instance_ name t (sym (name_for-long instance_ name h) ∙ e) in
      let whole = append-rest_of name instance_ starts in
      (
        rest_of name instance_,
        whole,
        omega (
          arith,
          ap (length {A = ReferencePart}) whole,
          length-append instance_ (rest_of name instance_),
          lt,
        ),
        shown,
      ),
  λ (rest, whole, some_left, shown).
      name_for-long instance_ name h
      ∙ ap (long_name instance_) whole
      ∙ seen rest some_left
      ∙ ap some (sym shown),
)
  where
    seen :
        (rest : Reference)
        → 1 ≤ length rest
        → long_name instance_ (instance_ ++ rest) ≡ some (parts_to_string rest)
    seen rest left = rw (
      lt→ltb (length instance_) (length (instance_ ++ rest))
          (omega (arith, length-append instance_ rest)),
      starts_with-append instance_ rest,
      rest_of-append instance_ rest,
    )
