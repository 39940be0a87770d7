-- ===== src/P2w/Writer.antt =====
-- `BufWriter` of web/src/utils/p2wFormat.ts: the byte parts written so far and their total length.
pub mod Contents
use pwdnow_password_manager.Prelude.{
  ℕ, ◌+◌, ◌/◌, ◌%◌, List, [], ◌∷◌, ◌++◌, length, take, drop, replicate,
}

pub record BufWriter : Type 0 where
  pub parts : List (List ℕ)
  pub len : ℕ

-- `new BufWriter()`
abbrev pub new : BufWriter
new = record { parts = []; len = 0 }

unfoldable pub append : BufWriter → List ℕ → BufWriter
append w d = record { parts = w.parts ++ d ∷ []; len = w.len + length d }

-- `v & 0xFF` is `v % 256`, and `v >> k` is `v / 2 ^ k`.
unfoldable pub u8 : BufWriter → ℕ → BufWriter
u8 w v = append w (v % 256 ∷ [])

unfoldable pub u16 : BufWriter → ℕ → BufWriter
u16 w v = append w (v / 256 % 256 ∷ v % 256 ∷ [])

unfoldable pub u32 : BufWriter → ℕ → BufWriter
u32 w v = append w (v / 0x1000000 % 256 ∷ v / 0x10000 % 256 ∷ v / 256 % 256 ∷ v % 256 ∷ [])

unfoldable pub write : BufWriter → List ℕ → BufWriter
write w d = append w d

-- `out.set(p, off)`
abbrev pub set_bytes : List ℕ → List ℕ → ℕ → List ℕ
set_bytes out p off = take off out ++ p ++ drop (off + length p) out

fill : List ℕ → ℕ → List (List ℕ) → List ℕ
fill out off [] = out
fill out off (p ∷ ps) = fill (set_bytes out p off) (off + length p) ps

unfoldable pub to_uint8_array : BufWriter → List ℕ
unfolding fill
to_uint8_array w = fill (replicate w.len 0) 0 w.parts
