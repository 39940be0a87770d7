-- ===== src/P2w/Reader/Guards.antt =====
-- Reads that the caller has guarded by `remaining()` do not throw, and move the position on.
use pwdnow_password_manager.Prelude.{ℕ, ◌+◌, ◌*◌, ◌≤◌, ◌≡◌, slice, ok, arith}
use pwdnow_password_manager.P2w.Reader.{BufReader, remaining, advance, byte_at, u8, u16, u32, bytes}

module _ (r : BufReader) where
  pub remaining-advance : (n : ℕ) → n ≤ remaining r → remaining (advance r n) + n ≡ remaining r
  unfolding remaining
  remaining-advance n h = omega arith

  pub u8_guarded : 1 ≤ remaining r → u8 r ≡ ok (byte_at r 0, advance r 1)
  unfolding u8
  u8_guarded h = ground arith

  pub u16_guarded : 2 ≤ remaining r → (v : ℕ) × (u16 r ≡ ok (v, advance r 2))
  unfolding u16
  u16_guarded h = (byte_at r 0 * 256 + byte_at r 1, ground arith)

  pub u32_guarded : 4 ≤ remaining r → (v : ℕ) × (u32 r ≡ ok (v, advance r 4))
  unfolding u32
  u32_guarded h = (
    byte_at r 0 * 0x1000000 + byte_at r 1 * 0x10000 + byte_at r 2 * 256 + byte_at r 3,
    ground arith,
  )

  pub bytes_guarded :
      (n : ℕ) → n ≤ remaining r → bytes n r ≡ ok (slice r.pos (r.pos + n) r.bytes_of, advance r n)
  unfolding bytes
  bytes_guarded n h = ground arith
