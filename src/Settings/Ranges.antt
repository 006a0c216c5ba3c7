-- ===== src/Settings/Ranges.antt =====
-- Reading whole numbers from settings.
use muscle.Prelude.{
  ◌≡◌, ◌↔◌, refl, sym, ap, subst, ◌∙◌, Bool, true, false, Result, ok, err, Error, bad_cast, ℤ, pos,
  negsuc, ◌≤ℤ◌, if◌then◌else◌, arith,
}
use muscle.Settings.Values.{
  SettingValue, inactive, string_value, int_value, float_value, bool_value, list_value,
  list_list_value, is_int32, as_int32, as_int64,
}

int32_iff : (n : ℤ) → (is_int32 n ≡ true) ↔ ((negsuc 2147483647 ≤ℤ n) × (n ≤ℤ pos 2147483647))
int32_iff n = ground arith

-- A value is read as a 32-bit int exactly when it is read as a 64-bit one of the same value that is
-- from -2147483648 to 2147483647.
pub as_int32_iff :
    {F : Type 0} (v : SettingValue F) (n : ℤ)
    → (as_int32 v ≡ ok n) ↔ ((as_int64 v ≡ ok n) × (negsuc 2147483647 ≤ℤ n) × (n ≤ℤ pos 2147483647))
unfolding as_int32 as_int64
as_int32_iff (int_value m) n = (λ e. narrow (is_int32 m) refl e, λ (e, lo, hi). widen e lo hi)
  where
    narrow :
        (b : Bool)
        → is_int32 m ≡ b
        → ◌≡◌ {A = Result Error ℤ} (if b then ok m else err bad_cast) (ok n)
        → (◌≡◌ {A = Result Error ℤ} (ok m) (ok n))
          × (negsuc 2147483647 ≤ℤ n)
          × (n ≤ℤ pos 2147483647)
    narrow true b' e =
        let same : m ≡ n = cc in
        let (lo, hi) = (int32_iff m).0 b' in
        subst
          (λ z.
            (◌≡◌ {A = Result Error ℤ} (ok m) (ok z))
            × (negsuc 2147483647 ≤ℤ z)
            × (z ≤ℤ pos 2147483647))
          same (refl, lo, hi)
    narrow false b' e = cc

    widen :
        ◌≡◌ {A = Result Error ℤ} (ok m) (ok n)
        → negsuc 2147483647 ≤ℤ n
        → n ≤ℤ pos 2147483647
        → ◌≡◌ {A = Result Error ℤ} (if is_int32 m then ok m else err bad_cast) (ok n)
    widen e lo hi =
        let same : m ≡ n = cc in
        ap (λ b. if b then ok m else err bad_cast)
          (subst (λ z. is_int32 z ≡ true) (sym same) ((int32_iff n).1 (lo, hi)))
        ∙ e
as_int32_iff inactive n = (λ e. cc, λ p. let e = p.0 in cc)
as_int32_iff (string_value s) n = (λ e. cc, λ p. let e = p.0 in cc)
as_int32_iff (float_value x) n = (λ e. cc, λ p. let e = p.0 in cc)
as_int32_iff (bool_value b) n = (λ e. cc, λ p. let e = p.0 in cc)
as_int32_iff (list_value xs) n = (λ e. cc, λ p. let e = p.0 in cc)
as_int32_iff (list_list_value xs) n = (λ e. cc, λ p. let e = p.0 in cc)
