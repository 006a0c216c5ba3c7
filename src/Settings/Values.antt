-- ===== src/Settings/Values.antt =====
-- libmuscle/cpp/src/ymmsl/settings.{hpp,tpp,cpp}: the values of settings, with their kind. A double is
-- of any type F, with the test and the conversion that the language has for it.
use muscle.Prelude.{
  ℕ, Bool, true, false, ◌&&◌, List, [], ◌∷◌, Result, ok, err, Error, bad_cast, ℤ, pos, negsuc, eqb,
  eqb_ℤ, leb_ℤ, if◌then◌else◌, list_eq, nat_eq, ◌==◌,
}
use muscle.Identity.{Text}

pub data SettingValue (F : Type 0) : Type 0 where
  inactive : SettingValue F
  string_value : Text → SettingValue F
  int_value : ℤ → SettingValue F
  float_value : F → SettingValue F
  bool_value : Bool → SettingValue F
  list_value : List F → SettingValue F
  list_list_value : List (List F) → SettingValue F

abbrev pub lists_equal : {A : Type 0} → (A → A → Bool) → List A → List A → Bool
lists_equal same [] [] = true
lists_equal same (x ∷ xs) (y ∷ ys) = same x y && lists_equal same xs ys
lists_equal same _ _ = false

abbrev pub bools_equal : Bool → Bool → Bool
bools_equal true b = b
bools_equal false true = false
bools_equal false false = true

-- The range of a 32-bit int.
abbrev pub is_int32 : ℤ → Bool
is_int32 n = leb_ℤ (negsuc 2147483647) n && leb_ℤ n (pos 2147483647)

module _ {F : Type 0} where
  -- SettingValue::operator==
  unfoldable pub values_equal : (F → F → Bool) → SettingValue F → SettingValue F → Bool
  values_equal same inactive inactive = true
  values_equal same (string_value s) (string_value t) = s == t
  values_equal same (int_value m) (int_value n) = eqb_ℤ m n
  values_equal same (float_value x) (float_value y) = same x y
  values_equal same (bool_value a) (bool_value b) = bools_equal a b
  values_equal same (list_value xs) (list_value ys) = lists_equal same xs ys
  values_equal same (list_list_value xs) (list_list_value ys) = lists_equal (lists_equal same) xs ys
  values_equal same _ _ = false

  -- SettingValue::as
  unfoldable pub as_string : SettingValue F → Result Error Text
  as_string (string_value s) = ok s
  as_string _ = err bad_cast

  unfoldable pub as_int64 : SettingValue F → Result Error ℤ
  as_int64 (int_value n) = ok n
  as_int64 _ = err bad_cast

  unfoldable pub as_int32 : SettingValue F → Result Error ℤ
  as_int32 (int_value n) = if is_int32 n then ok n else err bad_cast
  as_int32 _ = err bad_cast

  unfoldable pub as_double : (ℤ → F) → SettingValue F → Result Error F
  as_double to_double (int_value n) = ok (to_double n)
  as_double to_double (float_value x) = ok x
  as_double to_double _ = err bad_cast

  unfoldable pub as_bool : SettingValue F → Result Error Bool
  as_bool (bool_value b) = ok b
  as_bool _ = err bad_cast

  unfoldable pub as_list : SettingValue F → Result Error (List F)
  as_list (list_value xs) = ok xs
  as_list _ = err bad_cast

  unfoldable pub as_list_list : SettingValue F → Result Error (List (List F))
  as_list_list (list_list_value xs) = ok xs
  as_list_list _ = err bad_cast

  -- Objects by their numbers, of which two names may be one.
  abbrev pub set_object : ℕ → SettingValue F → (ℕ → SettingValue F) → ℕ → SettingValue F
  set_object x v objects y = if eqb y x then v else objects y

  -- SettingValue::operator=, of a reference: the value that is there is given up first.
  unfoldable pub copy_assign : ℕ → ℕ → (ℕ → SettingValue F) → ℕ → SettingValue F
  copy_assign this_ other objects =
      let deactivated = set_object this_ inactive objects in
      set_object this_ (deactivated other) deactivated

  -- SettingValue::operator=, of what is moved from, which is inactive after it.
  unfoldable pub move_assign : ℕ → ℕ → (ℕ → SettingValue F) → ℕ → SettingValue F
  move_assign this_ other objects =
      let deactivated = set_object this_ inactive objects in
      set_object other inactive (set_object this_ (deactivated other) deactivated)
