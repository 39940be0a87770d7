-- ===== src/P2w/Fields.antt =====
-- Tag-length-value fields of web/src/utils/p2wFormat.ts: a record's body is a row of fields and
-- an end mark.
pub mod Written
pub mod RoundTrip
pub mod Errors
use pwdnow_password_manager.Prelude.{
  ℕ, zero, suc, ◌+◌, ◌*◌, ◌/◌, ◌%◌, List, [], ◌∷◌, Option, none, some, length, get_or, ltb, leb,
  ◌==◌, if◌then◌else◌, ok, err, ◌>>=◌,
}
use pwdnow_password_manager.Text.{TextCodec}
use pwdnow_password_manager.P2w.Format.{Outcome, f_end, field_exceeds, tlv_exceeds, out_of_fuel}
use pwdnow_password_manager.P2w.Writer
use pwdnow_password_manager.P2w.Writer.{BufWriter}
use pwdnow_password_manager.P2w.Reader
use pwdnow_password_manager.P2w.Reader.{BufReader}

-- `undefined`, `null` and the empty string are not written.
unfoldable pub write_str_field : TextCodec → BufWriter → ℕ → Option (List ℕ) → Outcome BufWriter
write_str_field codec w tag none = ok w
write_str_field codec w tag (some []) = ok w
write_str_field codec w tag (some (c ∷ s)) =
    let d = codec.encode (c ∷ s) in
    if ltb 0xffff (length d)
    then err (field_exceeds tag)
    else ok (Writer.write (Writer.u16 (Writer.u8 w tag) (length d)) d)

unfoldable pub write_u32_field : BufWriter → ℕ → ℕ → BufWriter
write_u32_field w tag v =
    let w1 = Writer.u16 (Writer.u8 w tag) 4 in
    let w2 = Writer.u8 (Writer.u8 w1 (v / 0x1000000 % 256)) (v / 0x10000 % 256) in
    Writer.u8 (Writer.u8 w2 (v / 256 % 256)) (v % 256)

unfoldable pub end_fields : BufWriter → BufWriter
end_fields w = Writer.u16 (Writer.u8 w f_end) 0

-- `Map<number, Uint8Array>`, in order of insertion
abbrev pub FieldMap : Type 0
FieldMap = List (ℕ × List ℕ)

unfoldable pub get : FieldMap → ℕ → Option (List ℕ)
get [] tag = none
get ((t, v) ∷ m) tag = if t == tag then some v else get m tag

-- `m.set(tag, v)`
unfoldable pub set : FieldMap → ℕ → List ℕ → FieldMap
set [] tag v = (tag, v) ∷ []
set ((t, u) ∷ m) tag v = if t == tag then (t, v) ∷ m else (t, u) ∷ set m tag v

-- The loop of `readFields`; the source's map and reader are changed in place.
unfoldable pub read_fields_loop : ℕ → BufReader → FieldMap → Outcome (FieldMap × BufReader)
read_fields_loop zero r m = err out_of_fuel
read_fields_loop (suc fuel) r m = if ltb (Reader.remaining r) 3 then ok (m, r) else do
  (tag, r1) ← Reader.u8 r
  (len, r2) ← Reader.u16 r1
  if tag == f_end
      then ok (m, r2)
      else if ltb (Reader.remaining r2) len
      then err tlv_exceeds
      else do (v, r3) ← Reader.bytes len r2; read_fields_loop fuel r3 (set m tag v)

-- Each round reads three bytes at least, so the bytes that remain bound the rounds.
unfoldable pub read_fields : BufReader → Outcome (FieldMap × BufReader)
unfolding read_fields_loop
read_fields r = read_fields_loop (suc (Reader.remaining r)) r []

-- An absent field reads as the empty string.
unfoldable pub str_f : TextCodec → FieldMap → ℕ → List ℕ
str_f codec fields tag = elim (get fields tag) [ none ↦ [] | some v ↦ codec.decode v ]

unfoldable pub u32_f : FieldMap → ℕ → ℕ
u32_f fields tag = elim (get fields tag) [
  | none ↦ 0
  | some v ↦
      if ltb (length v) 4
      then 0
      else get_or v 0 0 * 0x1000000 + get_or v 1 0 * 0x10000 + get_or v 2 0 * 256 + get_or v 3 0
]
