-- ===== src/Base/Results.antt =====
-- What a Rust call comes to: a value, an `Err`, or a panic. `?` is the bind.
use mathlib.Core.Path.{◌≡◌, refl, ap}
use mathlib.Core.Option.{Option, none, some}

pub data Outcome {ℓ κ} (E : Type ℓ) (A : Type κ) : Type (ℓ ⊔ κ) where
  ok : A → Outcome E A
  err : E → Outcome E A
  panicked : Outcome E A

infixl 5 ◌>>=◌ ◌>>◌
abbrev pub ◌>>=◌ {ℓ κ μ} :
    {E : Type ℓ} {A : Type κ} {B : Type μ} → Outcome E A → (A → Outcome E B) → Outcome E B
ok a >>= f = f a
err e >>= f = err e
panicked >>= f = panicked

abbrev pub ◌>>◌ {ℓ κ} : {E : Type ℓ} {B : Type κ} → Outcome E (Unit {0}) → Outcome E B → Outcome E B
m >> k = m >>= λ _. k

-- `Result::map_err`
abbrev pub map_err {ℓ κ μ} :
    {E : Type ℓ} {F : Type κ} {A : Type μ} → (E → F) → Outcome E A → Outcome F A
map_err f (ok a) = ok a
map_err f (err e) = err (f e)
map_err f panicked = panicked

-- `Option::ok_or`
abbrev pub ok_or {ℓ κ} : {E : Type ℓ} {A : Type κ} → E → Option A → Outcome E A
ok_or e none = err e
ok_or e (some a) = ok a

-- `Option::unwrap`
abbrev pub unwrap {ℓ κ} : {E : Type ℓ} {A : Type κ} → Option A → Outcome E A
unwrap none = panicked
unwrap (some a) = ok a

-- What the call returns, if it does.
abbrev pub returned {ℓ κ} : {E : Type ℓ} {A : Type κ} → Outcome E A → Option A
returned (ok a) = some a
returned _ = none

-- Inversion of a `?` that went on.
pub bind-eq-ok {ℓ κ μ} :
    {E : Type ℓ} {A : Type κ} {B : Type μ} (m : Outcome E A) (f : A → Outcome E B) {b : B}
    → (m >>= f) ≡ ok b
    → (a : A) × (m ≡ ok a) × (f a ≡ ok b)
bind-eq-ok (ok a) f h = (a, refl, h)
bind-eq-ok (err e) f h = cc
bind-eq-ok panicked f h = cc

pub bind-ok {ℓ κ μ} :
    {E : Type ℓ} {A : Type κ} {B : Type μ} {m : Outcome E A} (f : A → Outcome E B) {a : A}
    → m ≡ ok a
    → (m >>= f) ≡ f a
bind-ok f h = ap (λ m. m >>= f) h
