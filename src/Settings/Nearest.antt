-- ===== src/Settings/Nearest.antt =====
-- get_setting finds the value under the longest part of the instance's id that has one.
use muscle.Prelude.{◌≡◌, refl, [], ◌∷◌, ◌++◌, Option, none, some, Result, ok, Error, list_eq}
use muscle.Prelude.Dict.{lookup}
use muscle.Identity.{Reference, part_eq}
use muscle.Settings.{SettingsManager, found}

module _ {V : Type 0} (m : SettingsManager V) (setting_name : Reference) where
  -- The value under a name, of the settings that were received, or else of those that were set.
  abbrev pub overlay_first : Reference → Option V
  overlay_first name = elim (lookup name m.overlay) [ some v ↦ some v | none ↦ lookup name m.base ]

  found-overlay_first : (name : Reference) → found m name ≡ overlay_first name
  unfolding found
  found-overlay_first name = refl

  -- The value under the longest name that has one, of the parts of an instance's id that are longer
  -- than `pre`, where the id goes on with `post`.
  unfoldable pub longest : Reference → Reference → Option V
  longest pre [] = none
  longest pre (p ∷ post) = elim (longest (pre ++ p ∷ []) post) [
    | none ↦ overlay_first ((pre ++ p ∷ []) ++ setting_name)
    | some v ↦ some v
  ]

  abbrev pub either : Option V → Result Error V → Result Error V
  either o r = elim o [ none ↦ r | some v ↦ ok v ]
