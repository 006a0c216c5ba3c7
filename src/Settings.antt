-- ===== src/Settings.antt =====
-- libmuscle/cpp/src/libmuscle/settings_manager.{hpp,cpp}: where the value of a setting is found, and
-- which names an instance sees. The values are of any type; ymmsl::Settings is a dictionary.
pub mod Nearest
pub mod Names
pub mod Values
pub mod Assigned
pub mod Ranges
mod Examples
use muscle.Prelude.{
  ◌≡◌, Bool, true, false, not, ◌&&◌, List, [], ◌∷◌, ◌++◌, Option, none, some, Result, ok, err,
  or_throw, Error, out_of_range, ltb, eqb, length, ◌==◌, Eq, list_eq, nat_eq, if◌then◌else◌,
}
use muscle.Prelude.Dict.{Dict, lookup}
use mathlib.Core.List.{reverse}
use muscle.Identity.{Text, Reference, ReferencePart, part_eq}
use muscle.Identity.Parse.{parts_to_string}

pub record SettingsManager (V : Type 0) : Type 0 where
  pub base : Dict Reference V
  pub overlay : Dict Reference V

-- The comparison of a name with the instance's id, part by part. The name is longer.
unfoldable pub starts_with : Reference → Reference → Bool
starts_with name [] = true
starts_with [] (i ∷ instance_) = false
starts_with (p ∷ name) (i ∷ instance_) = p == i && starts_with name instance_

-- What is left of a name after the instance's id.
unfoldable pub rest_of : Reference → Reference → Reference
rest_of name [] = name
rest_of [] (i ∷ instance_) = []
rest_of (p ∷ name) (i ∷ instance_) = rest_of name instance_

-- The name that the instance sees a setting under, if it does.
unfoldable pub name_for : Reference → Reference → Option Text
unfolding starts_with rest_of parts_to_string
name_for instance_ name =
    if eqb (length name) 1
    then some (parts_to_string name)
    else (if ltb (length instance_) (length name)
        then (if starts_with name instance_
            then some (parts_to_string (rest_of name instance_))
            else none)
        else none)

-- std::unordered_set::insert, of what there is
unfoldable pub insert_name : Option Text → List Text → List Text
insert_name none names = names
insert_name (some t) [] = t ∷ []
insert_name (some t) (u ∷ names) =
    let rest = insert_name (some t) names in if u == t then u ∷ names else u ∷ rest

unfoldable pub extract_names : {V : Type 0} → Reference → Dict Reference V → List Text → List Text
unfolding name_for insert_name
extract_names instance_ [] names = names
extract_names instance_ ((name, v) ∷ settings) names =
    extract_names instance_ settings (insert_name (name_for instance_ name) names)

module _ {V : Type 0} where
  -- The value under one name: that of the overlay, or else that of the base.
  unfoldable pub found : SettingsManager V → Reference → Option V
  unfolding lookup
  found m name = elim (lookup name m.overlay) [ none ↦ lookup name m.base | some v ↦ some v ]

  -- The loop of get_setting. It goes from the end of the instance's id to its front, so it runs over
  -- the id reversed.
  unfoldable pub search : SettingsManager V → Reference → Reference → Result Error V
  unfolding found
  search m setting_name [] = or_throw (found m setting_name) out_of_range
  search m setting_name (p ∷ ps) =
      let rest = search m setting_name ps in
      elim (found m (reverse (p ∷ ps) ++ setting_name)) [ none ↦ rest | some v ↦ ok v ]

  unfoldable pub get_setting : SettingsManager V → Reference → Reference → Result Error V
  unfolding search
  get_setting m instance_ setting_name = search m setting_name (reverse instance_)
