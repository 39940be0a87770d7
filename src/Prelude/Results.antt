-- ===== src/Prelude/Results.antt =====
-- A thrown error as a value: a computation either returns or throws.
use mathlib.Core.Path.{◌≡◌, refl}
use mathlib.Core.Bool.{Bool, true, false}
use pwdnow_password_manager.Prelude.Tests.{if◌then◌else◌}

-- The error type comes first, so that a module can fix its own.
pub data Result {ℓ κ} (E : Type ℓ) (A : Type κ) : Type (ℓ ⊔ κ) where
  ok : A → Result E A
  err : E → Result E A

infixl 5 ◌>>=◌
abbrev pub ◌>>=◌ {ℓ κ ι} :
    {E : Type ℓ} {A : Type κ} {B : Type ι} → Result E A → (A → Result E B) → Result E B
err e >>= next = err e
ok v >>= next = next v

-- What succeeded as a whole succeeded in both of its parts.
pub >>=-eq-ok {ℓ κ ι} :
    {E : Type ι} {A : Type ℓ} {B : Type κ} (first : Result E A) (next : A → Result E B) {w : B}
    → (first >>= next) ≡ ok w
    → (v : A) × (first ≡ ok v) × (next v ≡ ok w)
>>=-eq-ok (err e) next both = cc
>>=-eq-ok (ok v) next both = (v, refl, both)

pub ok-injective {ℓ κ} :
    {E : Type ℓ} {A : Type κ} {a b : A} → ◌≡◌ {A = Result E A} (ok a) (ok b) → a ≡ b
ok-injective e = cc

-- A guard that did not throw.
pub unless-eq-ok {ℓ κ} :
    {E : Type ℓ} {A : Type κ} (b : Bool) (e : E) {m : Result E A} {a : A}
    → (if b then err e else m) ≡ ok a
    → (b ≡ false) × (m ≡ ok a)
unless-eq-ok true e h = cc
unless-eq-ok false e h = (refl, h)

pub when-eq-ok {ℓ κ} :
    {E : Type ℓ} {A : Type κ} (b : Bool) (e : E) {m : Result E A} {a : A}
    → (if b then m else err e) ≡ ok a
    → (b ≡ true) × (m ≡ ok a)
when-eq-ok true e h = (refl, h)
when-eq-ok false e h = cc
