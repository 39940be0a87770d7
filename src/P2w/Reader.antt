-- ===== src/P2w/Reader.antt =====
-- `BufReader` of web/src/utils/p2wFormat.ts: the bytes and the position of the next one. Every
-- read is checked against the end of the bytes.
pub mod Views
pub mod Guards
use pwdnow_password_manager.Prelude.{
  ℕ, ◌+◌, ◌-◌, ◌*◌, List, length, get_or, slice, ltb, if◌then◌else◌, ok, err,
}
use pwdnow_password_manager.P2w.Format.{Outcome, past_end}

pub record BufReader : Type 0 where
  pub bytes_of : List ℕ
  pub pos : ℕ

-- `new BufReader(data)`
abbrev pub new : List ℕ → BufReader
new bytes_of = record { bytes_of = bytes_of; pos = 0 }

unfoldable pub remaining : BufReader → ℕ
remaining r = length r.bytes_of - r.pos

abbrev pub advance : BufReader → ℕ → BufReader
advance r n = record r { pos = r.pos + n }

-- `this.data[this.pos + i]`, which the callers check to be in range
abbrev pub byte_at : BufReader → ℕ → ℕ
byte_at r i = get_or r.bytes_of (r.pos + i) 0

unfoldable pub u8 : BufReader → Outcome (ℕ × BufReader)
unfolding remaining
u8 r = if ltb (remaining r) 1 then err past_end else ok (byte_at r 0, advance r 1)

-- On bytes the shifted parts share no bit, so `|` adds them.
unfoldable pub u16 : BufReader → Outcome (ℕ × BufReader)
unfolding remaining
u16 r =
    if ltb (remaining r) 2 then err past_end else ok (byte_at r 0 * 256 + byte_at r 1, advance r 2)

unfoldable pub u32 : BufReader → Outcome (ℕ × BufReader)
unfolding remaining
u32 r =
    if ltb (remaining r) 4
    then err past_end
    else ok (
      byte_at r 0 * 0x1000000 + byte_at r 1 * 0x10000 + byte_at r 2 * 256 + byte_at r 3,
      advance r 4,
    )

-- `n < 0` cannot hold of a number.
unfoldable pub bytes : ℕ → BufReader → Outcome (List ℕ × BufReader)
unfolding remaining
bytes n r =
    if ltb (remaining r) n
    then err past_end
    else ok (slice r.pos (r.pos + n) r.bytes_of, advance r n)
