-- ===== src/Prelude/Result.antt =====
-- Code that stops the process: `exit(0)`, `abort()`, an exception that nobody catches, or a fault.
use mathlib.Core.Path.{◌≡◌, refl}
use mathlib.Core.Bool.{Bool, true, false}
use xitao.Prelude.Tests.{if◌then◌else◌}

pub data Result {ℓ κ} (E : Type ℓ) (A : Type κ) : Type (ℓ ⊔ κ) where
  ok : A → Result E A
  exit : E → Result E A

infixl 5 ◌>>=◌
abbrev pub ◌>>=◌ {ℓ κ μ} :
    {E : Type ℓ} {A : Type κ} {B : Type μ} → Result E A → (A → Result E B) → Result E B
ok a >>= f = f a
exit e >>= f = exit e

-- What a chain that ends without an exit has passed.
pub >>=-eq-ok {ℓ κ μ} :
    {E : Type ℓ} {A : Type κ} {B : Type μ} (first : Result E A) (next : A → Result E B) {last : B}
    → (first >>= next) ≡ ok last
    → (between : A) × (first ≡ ok between) × (next between ≡ ok last)
>>=-eq-ok (exit e) next ended = cc
>>=-eq-ok (ok between) next ended = (between, refl, ended)

-- What passes a test that stops the process.
pub unless-eq-ok {ℓ κ} :
    {E : Type ℓ} {A : Type κ} (b : Bool) (e : E) (m : Result E A) {a : A}
    → (if b then exit e else m) ≡ ok a
    → (b ≡ false) × (m ≡ ok a)
unless-eq-ok true e m h = cc
unless-eq-ok false e m h = (refl, h)
