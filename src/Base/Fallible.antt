-- ===== src/Base/Fallible.antt =====
-- What a fallible Rust function ends in: `Ok`, an `Err` of the component's own errors, or a panic.
use mathlib.Core.Path.{◌≡◌, refl, ap}
use mathlib.Core.Option.{Option, none, some}
use mathlib.Core.Bool.{Bool, true, false}

pub data Outcome {ℓ} (E : Type 0) (A : Type ℓ) : Type ℓ where
  ok : A → Outcome E A
  err : E → Outcome E A
  panic : Outcome E A

infixl 5 ◌>>=◌ ◌>>◌
abbrev pub ◌>>=◌ {ℓ κ} :
    {E : Type 0} {A : Type ℓ} {B : Type κ} → Outcome E A → (A → Outcome E B) → Outcome E B
ok a >>= f = f a
err e >>= f = err e
panic >>= f = panic

abbrev pub ◌>>◌ {ℓ} : {E : Type 0} {B : Type ℓ} → Outcome E (Unit {0}) → Outcome E B → Outcome E B
first >> then_do = first >>= λ done. then_do

-- `if bad { bail!(e) }`.
abbrev pub bail_if : {E : Type 0} → Bool → E → Outcome E (Unit {0})
bail_if true e = err e
bail_if false e = ok tt

-- `o.ok_or(e)?`.
abbrev pub ok_or {ℓ} : {E : Type 0} {A : Type ℓ} → Option A → E → Outcome E A
ok_or none e = err e
ok_or (some a) e = ok a

-- A checked operation: `none` is a panic.
abbrev pub checked {ℓ} : {E : Type 0} {A : Type ℓ} → Option A → Outcome E A
checked none = panic
checked (some a) = ok a

-- A chain that ends in `Ok` had an `Ok` in its first step.
pub bind-eq-ok {ℓ κ} :
    {E : Type 0} {A : Type ℓ} {B : Type κ} (next : A → Outcome E B) (first : Outcome E A) (out : B)
    → (first >>= next) ≡ ok out
    → (a : A) × (next a ≡ ok out) × (first ≡ ok a)
bind-eq-ok next (ok a) out e = (a, e, refl)
bind-eq-ok next (err _) out e = cc
bind-eq-ok next panic out e = cc

value {ℓ} : {E : Type 0} {A : Type ℓ} → A → Outcome E A → A
value d (ok a) = a
value d _ = d

pub ok-injective {ℓ} :
    {E : Type 0} {A : Type ℓ} {a b : A} → ◌≡◌ {A = Outcome E A} (ok a) (ok b) → a ≡ b
unfolding value
ok-injective {a = a} e = ap (value a) e

-- A passed guard: its test was false, and what follows it gave the result.
pub bail_if-eq-ok {ℓ} :
    {E : Type 0} {A : Type ℓ} (b : Bool) (e : E) (k : Outcome E A) (out : A)
    → (bail_if b e >> k) ≡ ok out
    → (b ≡ false) × (k ≡ ok out)
bail_if-eq-ok true e k out h = cc
bail_if-eq-ok false e k out h = (refl, h)
