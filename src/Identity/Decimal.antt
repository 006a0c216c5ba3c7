-- ===== src/Identity/Decimal.antt =====
-- What the references use of the C++ library: `std::ostream << int` and `std::stoi`.
use muscle.Prelude.{
  ℕ, zero, suc, ◌+◌, ◌-◌, ◌*◌, ◌/◌, ◌%◌, ◌<◌, ◌≡◌, refl, Bool, true, false, ◌&&◌, ◌||◌, [], ◌∷◌,
  ◌++◌, Result, ok, err, Error, invalid_argument, out_of_range, ℤ, pos, negsuc, leb, ltb, eqb,
  arith, if◌then◌else◌, Option, none, some, ◌∙◌, ◌≢◌, Bool-cases, ltb→lt, lt→ltb, inl, inr,
}
use muscle.Identity.{Text, is_digit}

-- Decimal digits, the first ones last; the fuel bounds their number.
unfoldable pub show_fuel : ℕ → ℕ → Text
show_fuel zero n = []
show_fuel (suc f) n =
    let more = show_fuel f (n / 10) ++ (b'0' + n % 10) ∷ [] in
    if ltb n 10 then (b'0' + n) ∷ [] else more

unfoldable pub show : ℕ → Text
unfolding show_fuel
show n = show_fuel (suc n) n

abbrev pub is_space : ℕ → Bool
is_space c = (leb 9 c && leb c 13) || eqb c 32

unfoldable pub skip_spaces : Text → Text
skip_spaces [] = []
skip_spaces (c ∷ cs) = let rest = skip_spaces cs in if is_space c then rest else c ∷ cs

-- The value of the digits at the front, after those that were read.
unfoldable pub read_digits : ℕ → Text → ℕ
read_digits acc [] = acc
read_digits acc (c ∷ cs) =
    let rest = read_digits (acc * 10 + (c - b'0')) cs in if is_digit c then rest else acc

unfoldable pub magnitude : Text → Option ℕ
unfolding read_digits
magnitude [] = none
magnitude (c ∷ cs) = if is_digit c then some (read_digits 0 (c ∷ cs)) else none

-- The int is in range, with the sign given.
unfoldable pub int_of : Bool → Option ℕ → Result Error ℤ
int_of negative none = err invalid_argument
int_of false (some n) = if ltb n 2147483648 then ok (pos n) else err out_of_range
int_of true (some zero) = ok (pos 0)
int_of true (some (suc n)) = if ltb n 2147483648 then ok (negsuc n) else err out_of_range

unfoldable pub signed : Text → Result Error ℤ
unfolding magnitude int_of
signed [] = err invalid_argument
signed (c ∷ cs) =
    if eqb c b'-'
    then int_of true (magnitude cs)
    else (if eqb c b'+' then int_of false (magnitude cs) else int_of false (magnitude (c ∷ cs)))

-- std::stoi: leading spaces, a sign, digits, and whatever follows them.
unfoldable pub stoi : Text → Result Error ℤ
unfolding skip_spaces signed
stoi s = signed (skip_spaces s)

abbrev pub AllDigits : Text → Type 0
AllDigits [] = Unit {0}
AllDigits (c ∷ cs) = (is_digit c ≡ true) × AllDigits cs

AllDigits-append : (s t : Text) → AllDigits s → AllDigits t → AllDigits (s ++ t)
AllDigits-append [] t h k = k
AllDigits-append (c ∷ s) t h k = (h.0, AllDigits-append s t h.1 k)

show_fuel-AllDigits : (f n : ℕ) → AllDigits (show_fuel f n)
unfolding show_fuel
show_fuel-AllDigits zero n = tt
show_fuel-AllDigits (suc f) n = ground (
  arith,
  AllDigits-append (show_fuel f (n / 10)) ((b'0' + n % 10) ∷ []) (show_fuel-AllDigits f (n / 10)),
)

read_digits-append :
    (acc : ℕ) (s : Text) (c : ℕ)
    → AllDigits s
    → is_digit c ≡ true
    → read_digits acc (s ++ c ∷ []) ≡ read_digits acc s * 10 + (c - b'0')
unfolding read_digits
read_digits-append acc [] c h k = ground arith
read_digits-append acc (d ∷ s) c h k =
    ground (arith, read_digits-append (acc * 10 + (d - b'0')) s c h.1 k)

digit-is_digit : (n : ℕ) → n < 10 → is_digit (b'0' + n) ≡ true
digit-is_digit n h = ground arith

read_digits-one : (n : ℕ) → n < 10 → read_digits 0 ((b'0' + n) ∷ []) ≡ n
unfolding read_digits
read_digits-one n h = ground arith

read_digits-show_fuel : (f n : ℕ) → n < f → read_digits 0 (show_fuel f n) ≡ n
unfolding show_fuel
read_digits-show_fuel zero n h = absurd (omega arith)
read_digits-show_fuel (suc f) n h = elim (Bool-cases (ltb n 10)) [
  | inl small ↦ rw small (read_digits-one n (ltb→lt n 10 small))
  | inr large ↦
      rw
        (
          large,
          read_digits-append 0 (show_fuel f (n / 10)) (b'0' + n % 10)
              (show_fuel-AllDigits f (n / 10)) (digit-is_digit (n % 10) (omega arith)),
          read_digits-show_fuel f (n / 10) (ground arith),
        )
        (omega arith)
]

show_fuel-ne-nil : (f n : ℕ) → show_fuel (suc f) n ≢ []
unfolding show_fuel
show_fuel-ne-nil f n h =
    elim (show_fuel f (n / 10))
        as (λ s. (if ltb n 10 then (b'0' + n) ∷ [] else s ++ (b'0' + n % 10) ∷ []) ≡ [] → ⊥) [
          | [] ↦ λ h. ground arith
          | c ∷ s ↦ λ h. ground arith
        ]
      h

stoi-digits :
    (s : Text)
    → AllDigits s
    → s ≢ []
    → stoi s
      ≡ (if ltb (read_digits 0 s) 2147483648 then ok (pos (read_digits 0 s)) else err out_of_range)
unfolding stoi
stoi-digits [] h k = absurd (k refl)
stoi-digits (c ∷ s) h k = ground arith

-- What is printed as an int is read back.
pub stoi-show : (n : ℕ) → n < 2147483648 → stoi (show n) ≡ ok (pos n)
unfolding show
stoi-show n h =
    stoi-digits (show_fuel (suc n) n) (show_fuel-AllDigits (suc n) n) (show_fuel-ne-nil n n)
    ∙ rw (read_digits-show_fuel (suc n) n (omega arith), lt→ltb n 2147483648 h)

stoi-minus :
    (s : Text) (n : ℕ)
    → AllDigits s
    → s ≢ []
    → read_digits 0 s ≡ suc n
    → n < 2147483648
    → stoi (b'-' ∷ s) ≡ ok (negsuc n)
unfolding stoi
stoi-minus [] n h k e lt = absurd (k refl)
stoi-minus (c ∷ s) n h k e lt = ground arith

-- And so is a negative one.
pub stoi-minus_show : (n : ℕ) → n < 2147483648 → stoi (b'-' ∷ show (suc n)) ≡ ok (negsuc n)
unfolding show
stoi-minus_show n h =
    stoi-minus (show_fuel (suc (suc n)) (suc n)) n (show_fuel-AllDigits (suc (suc n)) (suc n))
      (show_fuel-ne-nil (suc n) (suc n)) (read_digits-show_fuel (suc (suc n)) (suc n) (omega arith))
      h

pub show-AllDigits : (n : ℕ) → AllDigits (show n)
unfolding show
show-AllDigits n = show_fuel-AllDigits (suc n) n

int_of-lt : (b : Bool) (o : Option ℕ) (n : ℕ) → int_of b o ≡ ok (pos n) → n < 2147483648
unfolding int_of
int_of-lt b none n h = cc
int_of-lt false (some m) n h = ground arith
int_of-lt true (some zero) n h = ground arith
int_of-lt true (some (suc m)) n h = ground arith

signed-lt : (s : Text) (n : ℕ) → signed s ≡ ok (pos n) → n < 2147483648
unfolding signed
signed-lt [] n h = cc
signed-lt (c ∷ cs) n h = ground (
  arith,
  int_of-lt true (magnitude cs) n,
  int_of-lt false (magnitude cs) n,
  int_of-lt false (magnitude (c ∷ cs)) n,
)

-- A value that is read is an int.
pub stoi-lt : (s : Text) (n : ℕ) → stoi s ≡ ok (pos n) → n < 2147483648
unfolding stoi
stoi-lt s n h = signed-lt (skip_spaces s) n h
