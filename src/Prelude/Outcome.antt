-- ===== src/Prelude/Outcome.antt =====
-- Calls that may throw. A `Result` is what a call returns or throws; an `Exec` also changes an
-- object, and what it wrote before it threw stays written.
use mathlib.Core.Path.{◌≡◌, refl, ap}
use mathlib.Core.Bool.{Bool, true, false}
use mathlib.Core.Option.{Option, none, some}

pub data Result {ℓ κ} (E : Type ℓ) (A : Type κ) : Type (ℓ ⊔ κ) where
  ok : A → Result E A
  err : E → Result E A

-- The C++ classes of the exceptions; the texts are left out. `undefined` stands for what the
-- language leaves undefined, such as `v[i]` out of bounds.
pub data Error : Type 0 where
  runtime_error logic_error invalid_argument out_of_range length_error bad_cast undefined : Error

infixl 5 ◌>>=◌ ◌>>◌
abbrev pub ◌>>=◌ {ℓ κ μ} :
    {E : Type ℓ} {A : Type κ} {B : Type μ} → Result E A → (A → Result E B) → Result E B
ok a >>= f = f a
err e >>= f = err e

abbrev pub ◌>>◌ {ℓ κ} : {E : Type ℓ} {B : Type κ} → Result E (Unit {0}) → Result E B → Result E B
m >> k = m >>= λ _. k

-- `if (!test) throw e;`
abbrev pub require {ℓ} : {E : Type ℓ} → Bool → E → Result E (Unit {0})
require true e = ok tt
require false e = err e

abbrev pub or_throw {ℓ κ} : {E : Type ℓ} {A : Type κ} → Option A → E → Result E A
or_throw none e = err e
or_throw (some a) e = ok a

pub >>=-eq-ok {ℓ κ μ} :
    {E : Type ℓ} {A : Type κ} {B : Type μ} (call : Result E A) (next : A → Result E B) {y : B}
    → (call >>= next) ≡ ok y
    → (x : A) × (call ≡ ok x) × (next x ≡ ok y)
>>=-eq-ok (ok x) next h = (x, refl, h)
>>=-eq-ok (err e) next h = cc

pub or_throw-some {ℓ κ} :
    {E : Type ℓ} {A : Type κ} (o : Option A) (e : E) (a : A) → or_throw o e ≡ ok a → o ≡ some a
or_throw-some none e a h = cc
or_throw-some (some b) e a h = let q : b ≡ a = cc in ap some q

pub ok_pair {ℓ κ μ} :
    {E : Type ℓ} {A : Type κ} {B : Type μ} {a a' : A} {b b' : B}
    → ◌≡◌ {A = Result E (A × B)} (ok (a, b)) (ok (a', b'))
    → (a ≡ a') × (b ≡ b')
ok_pair {E} {A} {B} {a} {b} h =
    let e = ap first h in (ap (λ (x : A × B). x.0) e, ap (λ (x : A × B). x.1) e)
  where
    first : Result E (A × B) → A × B
    first (ok p) = p
    first (err e) = (a, b)

pub ok_triple {ℓ κ μ ν} :
    {E : Type ℓ} {A : Type κ} {B : Type μ} {C : Type ν} {a a' : A} {b b' : B} {c c' : C}
    → ◌≡◌ {A = Result E (A × B × C)} (ok (a, b, c)) (ok (a', b', c'))
    → (a ≡ a') × (b ≡ b') × (c ≡ c')
ok_triple {E} {A} {B} {C} {a} {b} {c} h =
    let e = ap first h in
    (ap (λ (x : A × B × C). x.0) e, ap (λ (x : A × B × C). x.1) e, ap (λ (x : A × B × C). x.2) e)
  where
    first : Result E (A × B × C) → A × B × C
    first (ok p) = p
    first (err e) = (a, b, c)
