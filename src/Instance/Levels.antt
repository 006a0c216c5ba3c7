-- ===== src/Instance/Levels.antt =====
-- instance.cpp: the levels of logging and profiling, which come from settings. What is logged about
-- them is left out; without a level, the default is kept.
use muscle.Prelude.{
  ◌&&◌, not, [], ◌∷◌, Option, none, some, Result, ok, err, ◌>>=◌, Error, runtime_error,
  out_of_range, if◌then◌else◌, list_eq, nat_eq, ◌==◌,
}
use muscle.Identity.{Text, Reference, id_part, part_eq}
use muscle.Settings as Settings
use muscle.Settings.Values.{SettingValue, as_string}
use muscle.Instance.{Instance}
use muscle.Instance.Names.{LogLevel, string_to_level}

-- catch (std::runtime_error const &) and catch (std::out_of_range const &)
abbrev pub caught : {A : Type 0} → Result Error A → Result Error (Option A)
caught (ok a) = ok (some a)
caught (err runtime_error) = ok none
caught (err out_of_range) = ok none
caught (err e) = err e

abbrev pub muscle_local_log_level : Reference
muscle_local_log_level =
    id_part (
      b'm' ∷ b'u' ∷ b's' ∷ b'c' ∷ b'l' ∷ b'e' ∷ b'_' ∷ b'l' ∷ b'o' ∷ b'c' ∷ b'a' ∷ b'l' ∷ b'_'
      ∷ b'l' ∷ b'o' ∷ b'g' ∷ b'_' ∷ b'l' ∷ b'e' ∷ b'v' ∷ b'e' ∷ b'l' ∷ [])
    ∷ []

abbrev pub muscle_remote_log_level : Reference
muscle_remote_log_level =
    id_part (
      b'm' ∷ b'u' ∷ b's' ∷ b'c' ∷ b'l' ∷ b'e' ∷ b'_' ∷ b'r' ∷ b'e' ∷ b'm' ∷ b'o' ∷ b't' ∷ b'e'
      ∷ b'_' ∷ b'l' ∷ b'o' ∷ b'g' ∷ b'_' ∷ b'l' ∷ b'e' ∷ b'v' ∷ b'e' ∷ b'l' ∷ [])
    ∷ []

abbrev pub muscle_profile_level : Reference
muscle_profile_level =
    id_part (
      b'm' ∷ b'u' ∷ b's' ∷ b'c' ∷ b'l' ∷ b'e' ∷ b'_' ∷ b'p' ∷ b'r' ∷ b'o' ∷ b'f' ∷ b'i' ∷ b'l'
      ∷ b'e' ∷ b'_' ∷ b'l' ∷ b'e' ∷ b'v' ∷ b'e' ∷ b'l' ∷ [])
    ∷ []

abbrev pub all_level : Text
all_level = b'a' ∷ b'l' ∷ b'l' ∷ []

abbrev pub none_level : Text
none_level = b'n' ∷ b'o' ∷ b'n' ∷ b'e' ∷ []

abbrev pub profile_level : Option Text → Text
profile_level none = all_level
profile_level (some t) = if not (t == none_level) && not (t == all_level) then all_level else t

module _ {F X : Type 0} where
  unfoldable pub text_setting : Reference → Instance (SettingValue F) X → Result Error Text
  unfolding Settings.get_setting as_string
  text_setting name st = do
    value ← Settings.get_setting st.settings_manager st.instance_name name
    as_string value

  -- Impl::set_local_log_level_, and the remote one
  unfoldable pub set_local_log_level_ : Instance (SettingValue F) X → Result Error (Option LogLevel)
  unfolding text_setting string_to_level
  set_local_log_level_ st = caught (text_setting muscle_local_log_level st >>= string_to_level)

  unfoldable pub set_remote_log_level_ :
      Instance (SettingValue F) X → Result Error (Option LogLevel)
  unfolding text_setting string_to_level
  set_remote_log_level_ st = caught (text_setting muscle_remote_log_level st >>= string_to_level)

  -- Impl::setup_profiling_
  unfoldable pub setup_profiling_ : Instance (SettingValue F) X → Result Error Text
  unfolding text_setting
  setup_profiling_ st = caught (text_setting muscle_profile_level st) >>= λ t. ok (profile_level t)
