-- ===== src/Common/Outcome.antt =====
-- Results of fallible code: a value, or an error of the component's own type.
use mathlib.Core.Path.{◌≡◌, refl, ap, subst}
use mathlib.Core.Logic.{◌⊎◌, inl, inr}
use mathlib.Core.Bool.{Bool, true, false}

pub data Result {ℓ κ} (E : Type ℓ) (A : Type κ) : Type (ℓ ⊔ κ) where
  ok : A → Result E A
  err : E → Result E A

infixl 5 ◌>>=◌ ◌>>◌
abbrev pub ◌>>=◌ {ℓ κ μ} :
    {E : Type ℓ} {A : Type κ} {B : Type μ} → Result E A → (A → Result E B) → Result E B
ok a >>= f = f a
err e >>= f = err e

abbrev pub ◌>>◌ {ℓ κ} : {E : Type ℓ} {B : Type κ} → Result E (Unit {0}) → Result E B → Result E B
m >> k = m >>= λ _. k

abbrev pub guard {ℓ} : {E : Type ℓ} → Bool → E → Result E (Unit {0})
guard true e = ok tt
guard false e = err e

-- A value of which `P` holds, or an error of which `R` holds.
abbrev pub Ensures {ℓ κ} :
    {E : Type ℓ} {A : Type κ} → (A → Type 0) → (E → Type 0) → Result E A → Type 0
Ensures P R (ok a) = P a
Ensures P R (err e) = R e

pub Ensures-bind {ℓ κ μ} :
    {E : Type ℓ} {A : Type κ} {B : Type μ} (P : A → Type 0) (Q : B → Type 0) (R : E → Type 0)
    (r : Result E A) (f : A → Result E B)
    → Ensures P R r
    → ((a : A) → P a → Ensures Q R (f a))
    → Ensures Q R (r >>= f)
Ensures-bind P Q R (ok a) f h k = k a h
Ensures-bind P Q R (err e) f h k = h

pub Ensures-ok {ℓ κ} :
    {E : Type ℓ} {A : Type κ} (P : A → Type 0) (R : E → Type 0) (r : Result E A) {a : A}
    → Ensures P R r
    → r ≡ ok a
    → P a
Ensures-ok P R (ok b) h e = subst P (cc) h
Ensures-ok P R (err x) h e = cc

pub Ensures-mono {ℓ κ} :
    {E : Type ℓ} {A : Type κ} (P Q : A → Type 0) (R : E → Type 0) (r : Result E A)
    → ((a : A) → P a → Q a)
    → Ensures P R r
    → Ensures Q R r
Ensures-mono P Q R (ok a) f h = f a h
Ensures-mono P Q R (err e) f h = h

pub Ensures-err {ℓ κ} :
    {E : Type ℓ} {A : Type κ} (P : A → Type 0) (R : E → Type 0) (r : Result E A) {e : E}
    → Ensures P R r
    → r ≡ err e
    → R e
Ensures-err P R (ok b) h q = cc
Ensures-err P R (err x) h q = subst R (cc) h

-- To split on a check and keep the equation.
pub check_cases {ℓ} : {E : Type ℓ} (r : Result E (Unit {0})) → (r ≡ ok tt) ⊎ ((e : E) × (r ≡ err e))
check_cases (ok u) = inl refl
check_cases (err e) = inr (e, refl)

pub Ensures-err_mono {ℓ κ} :
    {E : Type ℓ} {A : Type κ} (P : A → Type 0) (R S : E → Type 0) (r : Result E A)
    → ((e : E) → R e → S e)
    → Ensures P R r
    → Ensures P S r
Ensures-err_mono P R S (ok a) f h = h
Ensures-err_mono P R S (err e) f h = f e h

-- A step that is chosen by a test.
pub Ensures-choose {ℓ κ} :
    {E : Type ℓ} {A : Type κ} (P : A → Type 0) (R : E → Type 0) (b : Bool) (x y : Result E A)
    → (b ≡ false → Ensures P R x)
    → (b ≡ true → Ensures P R y)
    → Ensures P R (elim b [ false ↦ x | true ↦ y ])
Ensures-choose P R false x y hx hy = hx refl
Ensures-choose P R true x y hx hy = hy refl

pub choose_false {ℓ} :
    {A : Type ℓ} (b : Bool) (x y : A) → b ≡ false → elim b [ false ↦ x | true ↦ y ] ≡ x
choose_false false x y h = refl
choose_false true x y h = cc

pub choose_true {ℓ} :
    {A : Type ℓ} (b : Bool) (x y : A) → b ≡ true → elim b [ false ↦ x | true ↦ y ] ≡ y
choose_true false x y h = cc
choose_true true x y h = refl

pub bind-ok {ℓ κ μ} :
    {E : Type ℓ} {A : Type κ} {B : Type μ} (m : Result E A) (f : A → Result E B) {a : A}
    → m ≡ ok a
    → (m >>= f) ≡ f a
bind-ok m f h = ap (λ r. r >>= f) h
