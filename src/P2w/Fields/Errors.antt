-- ===== src/P2w/Fields/Errors.antt =====
-- Reading fields from any bytes: the loop ends, and the only error is a field that is longer
-- than the record.
use pwdnow_password_manager.Prelude.{
  ℕ, zero, suc, ◌<◌, ◌≡◌, refl, ◌⊎◌, inl, inr, [], ltb, ◌==◌, ok, err, arith, Bool-cases,
}
use pwdnow_password_manager.P2w.Format.{Outcome, f_end, tlv_exceeds}
use pwdnow_password_manager.P2w.Reader
use pwdnow_password_manager.P2w.Reader.{BufReader}
use pwdnow_password_manager.P2w.Reader.Guards.{
  remaining-advance, u8_guarded, u16_guarded, bytes_guarded,
}
use pwdnow_password_manager.P2w.Fields.{FieldMap, read_fields_loop, read_fields}

abbrev pub ReadsOrExceeds : Outcome (FieldMap × BufReader) → Type 0
ReadsOrExceeds o = ((p : FieldMap × BufReader) × (o ≡ ok p)) ⊎ (o ≡ err tlv_exceeds)

loop-ReadsOrExceeds :
    (fuel : ℕ) (r : BufReader) (m : FieldMap)
    → Reader.remaining r < fuel
    → ReadsOrExceeds (read_fields_loop fuel r m)
unfolding read_fields_loop
loop-ReadsOrExceeds zero r m h = absurd (omega arith)
loop-ReadsOrExceeds (suc fuel) r m h = elim (Bool-cases (ltb (Reader.remaining r) 3)) [
  | inl short ↦ rw short (inl (_, refl))
  | inr long ↦
      let e1 = u8_guarded r (ground arith) in
      let r1 = Reader.advance r 1 in
      let n1 = remaining-advance r 1 (ground arith) in
      let (len, e2) = u16_guarded r1 (ground arith) in
      let r2 = Reader.advance r1 2 in
      let n2 = remaining-advance r1 2 (ground arith) in
      rw (long, e1, e2)
        (elim (Bool-cases (Reader.byte_at r 0 == f_end)) [
          | inl at_end ↦ rw at_end (inl (_, refl))
          | inr field ↦ rw field (elim (Bool-cases (ltb (Reader.remaining r2) len)) [
            | inl exceeds ↦ rw exceeds (inr refl)
            | inr fits ↦
                let e3 = bytes_guarded r2 len (ground arith) in
                let n3 = remaining-advance r2 len (ground arith) in
                rw (fits, e3) (loop-ReadsOrExceeds fuel (Reader.advance r2 len) _ (omega arith))
          ])
        ])
]

-- Whatever the bytes, reading the fields ends, and throws nothing but "TLV field exceeds
-- remaining record".
pub read_fields-ReadsOrExceeds : (r : BufReader) → ReadsOrExceeds (read_fields r)
unfolding read_fields
read_fields-ReadsOrExceeds r = loop-ReadsOrExceeds (suc (Reader.remaining r)) r [] (omega arith)
