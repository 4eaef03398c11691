-- ===== src/Common/Outcome.antt =====
-- Go's `(value, error)` pairs: a value or an error, chained by `do`.

use mathlib.Core.Path.{◌≡◌, refl}
use mathlib.Core.Logic.{◌⊎◌, inl, inr}
use mathlib.Core.Bool.{Bool, true, false}

pub data Result {ℓ κ} (E : Type ℓ) (A : Type κ) : Type (ℓ ⊔ κ) where
  ok : A → Result E A
  err : E → Result E A

infixl 5 ◌>>=◌ ◌>>◌
abbrev pub ◌>>=◌ {ℓ κ μ} :
    {E : Type ℓ} {A : Type κ} {B : Type μ} → Result E A → (A → Result E B) → Result E B
ok a >>= f = f a
err e >>= f = err e

abbrev pub ◌>>◌ {ℓ μ} : {E : Type ℓ} {B : Type μ} → Result E (Unit {0}) → Result E B → Result E B
m >> k = m >>= λ _. k

-- `if !test { return e }`
abbrev pub guard {ℓ} : {E : Type ℓ} → Bool → E → Result E (Unit {0})
guard true e = ok tt
guard false e = err e

-- A step that fails with another error in place of its own.
abbrev pub relabel {ℓ κ μ} : {E : Type ℓ} {F : Type κ} {A : Type μ} → F → Result E A → Result F A
relabel f (ok a) = ok a
relabel f (err e) = err f

-- A chain that gives a value has given one at its first step.
pub >>=-eq-ok {ℓ κ μ} :
    {E : Type ℓ} {A : Type κ} {B : Type μ} (first : Result E A) (next : A → Result E B) {out : B}
    → (first >>= next) ≡ ok out
    → (mid : A) × (first ≡ ok mid) × (next mid ≡ ok out)
>>=-eq-ok (ok mid) next run = (mid, refl, run)
>>=-eq-ok (err e) next run = cc

pub guard-ok {ℓ} : {E : Type ℓ} (b : Bool) (e : E) {u : Unit {0}} → guard b e ≡ ok u → b ≡ true
guard-ok true e h = refl
guard-ok false e h = cc

pub Result-cases {ℓ κ} :
    {E : Type ℓ} {A : Type κ} (r : Result E A) → ((a : A) × (r ≡ ok a)) ⊎ ((e : E) × (r ≡ err e))
Result-cases (ok a) = inl (a, refl)
Result-cases (err e) = inr (e, refl)

pub relabel-ok {ℓ κ μ} :
    {E : Type ℓ} {F : Type κ} {A : Type μ} (f : F) (r : Result E A) (a : A)
    → relabel f r ≡ ok a
    → r ≡ ok a
relabel-ok f (ok b) a h = cc
relabel-ok f (err e) a h = cc

-- A chain whose first step gives a value goes on with it.
pub >>=-ok {ℓ κ μ} :
    {E : Type ℓ} {A : Type κ} {B : Type μ} (first : Result E A) (next : A → Result E B) {mid : A}
    → first ≡ ok mid
    → (first >>= next) ≡ next mid
>>=-ok first next e = rw e refl

pub ok-inj {ℓ κ} : {E : Type ℓ} {A : Type κ} (a b : A) → Path (Result E A) (ok a) (ok b) → a ≡ b
ok-inj a b h = cc
