-- ===== src/Prelude/Bits.antt =====
-- Facts about `bit_or` and `bit_xor` on bytes, each checked at every value.
use Prim.Native.Nat.{ℕ, zero, suc, ◌<◌, bit_or, bit_xor}
use mathlib.Core.Path.{◌≡◌, refl}
use mathlib.Core.Bool.{Bool, true, false, ◌&&◌}
use native.Mathlib.Omega.{arith}
use pwdnow_password_manager.Prelude.Tests.{◌==◌, ltb, if◌then◌else◌}

unfoldable pub every : (ℕ → Bool) → ℕ → Bool
every test zero = true
every test (suc k) = every test k && test k

pub every-at : (test : ℕ → Bool) (v k : ℕ) → v < k → every test k ≡ true → test v ≡ true
unfolding every
every-at test v zero small passed = absurd (omega arith)
every-at test v (suc k) small passed = ground (arith, every-at test v k)

-- `f` keeps bytes within bytes, and answers 0 exactly where `zero_at` says so.
abbrev vanishes : (ℕ → ℕ → ℕ) → (ℕ → ℕ → Bool) → ℕ → ℕ → Bool
vanishes f zero_at a b =
    ltb (f a b) 256 && (if f a b == 0 then zero_at a b else if zero_at a b then false else true)

table : (ℕ → ℕ → ℕ) → (ℕ → ℕ → Bool) → Bool
table f zero_at = every (λ a. every (λ b. vanishes f zero_at a b) 256) 256

table_sound :
    (f : ℕ → ℕ → ℕ) (zero_at : ℕ → ℕ → Bool) (a b : ℕ)
    → table f zero_at ≡ true
    → a < 256
    → b < 256
    → vanishes f zero_at a b ≡ true
unfolding table
table_sound f zero_at a b h ha hb = every-at _ b 256 hb (every-at _ a 256 ha h)

xor_table : table bit_xor (λ a b. a == b) ≡ true
unfolding table every
xor_table = refl

or_table : table bit_or (λ a b. a == 0 && b == 0) ≡ true
unfolding table every
or_table = refl

pub bit_xor_byte :
    (a b : ℕ)
    → a < 256
    → b < 256
    → (bit_xor a b < 256) × (bit_xor a b ≡ 0 → a ≡ b) × (a ≡ b → bit_xor a b ≡ 0)
bit_xor_byte a b ha hb =
    let t = table_sound bit_xor _ a b xor_table ha hb in
    (ground arith, λ e. ground arith, λ e. ground arith)

pub bit_or_byte :
    (a b : ℕ)
    → a < 256
    → b < 256
    → (bit_or a b < 256) × (bit_or a b ≡ 0 → (a ≡ 0) × (b ≡ 0)) × (a ≡ 0 → b ≡ 0 → bit_or a b ≡ 0)
bit_or_byte a b ha hb =
    let t = table_sound bit_or _ a b or_table ha hb in
    (ground arith, λ e. ground arith, λ e k. ground arith)
