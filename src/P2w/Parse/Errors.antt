-- ===== src/P2w/Parse/Errors.antt =====
-- What the parser throws on arbitrary bytes.
use pwdnow_password_manager.Prelude.{
  ℕ, zero, suc, ◌<◌, inl, inr, List, ltb, ◌==◌, ok, err, ◌>>=◌, arith, Bool-cases, Bool, true,
  false, if◌then◌else◌,
}
use pwdnow_password_manager.Text.{TextCodec}
use pwdnow_password_manager.P2w.Format.{Outcome, fail_msg, tlv_exceeds}
use pwdnow_password_manager.P2w.Reader
use pwdnow_password_manager.P2w.Reader.{BufReader}
use pwdnow_password_manager.P2w.Reader.Guards.{
  remaining-advance, u8_guarded, u32_guarded, bytes_guarded,
}
use pwdnow_password_manager.P2w.Fields.{FieldMap, read_fields}
use pwdnow_password_manager.P2w.Fields.Errors.{read_fields-ReadsOrExceeds}
use pwdnow_password_manager.P2w.Parse.{
  Parser, leave, go_on, start, parse_meta, parse_folder, parse_entry, parse_record, handle_record,
  parse_loop, finish, parse_payload,
}

-- A result, FAIL_MSG, or the error of an overlong field.
pub data IsExpected {A : Type 0} : Outcome A → Type 0 where
  returned : (a : A) → IsExpected (ok a)
  failed : IsExpected (err fail_msg)
  exceeded : IsExpected (err tlv_exceeds)

IsExpected-bind :
    {A B : Type 0} {o : Outcome A} (f : A → Outcome B)
    → IsExpected o
    → ((a : A) → IsExpected (f a))
    → IsExpected (o >>= f)
IsExpected-bind f (returned a) k = k a
IsExpected-bind f failed k = failed
IsExpected-bind f exceeded k = exceeded

IsExpected-if :
    {A : Type 0} (b : Bool) (x y : Outcome A)
    → IsExpected x
    → IsExpected y
    → IsExpected (if b then x else y)
IsExpected-if true x y h k = h
IsExpected-if false x y h k = k

module _ (codec : TextCodec) (uuid : ℕ → List ℕ) where
  parse_meta-IsExpected : (m : FieldMap) (p : Parser) → IsExpected (parse_meta m p)
  unfolding parse_meta
  parse_meta-IsExpected m p = IsExpected-if _ _ _ (IsExpected-if _ _ _ failed (returned _)) failed

  parse_folder-IsExpected : (m : FieldMap) (p : Parser) → IsExpected (parse_folder codec uuid m p)
  unfolding parse_folder
  parse_folder-IsExpected m p = search (IsExpected-if, failed, returned)

  parse_entry-IsExpected : (m : FieldMap) (p : Parser) → IsExpected (parse_entry codec uuid m p)
  unfolding parse_entry
  parse_entry-IsExpected m p = search (IsExpected-if, failed, returned)

  read_fields-IsExpected : (r : BufReader) → IsExpected (read_fields r)
  read_fields-IsExpected r = elim (read_fields-ReadsOrExceeds r) [
    | inl (p, e) ↦ rw e (returned p)
    | inr e ↦ rw e exceeded
  ]

  parse_record-IsExpected :
      (rtype : ℕ) (body : List ℕ) (p : Parser) → IsExpected (parse_record codec uuid rtype body p)
  unfolding parse_record
  parse_record-IsExpected rtype body p = IsExpected-bind _ (read_fields-IsExpected _) λ read.
      IsExpected-if _ _ _ failed (
        IsExpected-if _ _ _ (parse_meta-IsExpected read.0 p) (
          IsExpected-if _ _ _ (parse_folder-IsExpected read.0 p)
            (IsExpected-if _ _ _ (parse_entry-IsExpected read.0 p) failed)))

  handle_record-IsExpected :
      (rtype : ℕ) (body : List ℕ) (left : ℕ) (p : Parser)
      → IsExpected (handle_record codec uuid rtype body left p)
  unfolding handle_record
  handle_record-IsExpected rtype body left p = search (
    IsExpected-if,
    failed,
    returned,
    IsExpected-bind (λ p'. ok (go_on p')) (parse_record-IsExpected rtype body p)
        (λ p'. returned (go_on p')),
  )

  parse_loop-IsExpected :
      (fuel : ℕ) (r : BufReader) (p : Parser)
      → Reader.remaining r < fuel
      → IsExpected (parse_loop codec uuid fuel r p)
  unfolding parse_loop
  parse_loop-IsExpected zero r p h = absurd (omega arith)
  parse_loop-IsExpected (suc fuel) r p h = elim (Bool-cases (Reader.remaining r == 0)) [
    | inl at_end ↦ rw at_end (returned p)
    | inr more ↦ rw more (elim (Bool-cases (ltb (Reader.remaining r) 5)) [
      | inl short ↦ rw short failed
      | inr long ↦
          let r1 = Reader.advance r 1 in
          let n1 = remaining-advance r 1 (ground arith) in
          let (rlen, e2) = u32_guarded r1 (ground arith) in
          let r2 = Reader.advance r1 4 in
          let n2 = remaining-advance r1 4 (ground arith) in
          rw (long, u8_guarded r (ground arith), e2)
            (elim (Bool-cases (ltb (Reader.remaining r2) rlen)) [
              | inl exceeds ↦ rw exceeds failed
              | inr fits ↦
                  let n3 = remaining-advance r2 rlen (ground arith) in
                  rw (fits, bytes_guarded r2 rlen (ground arith))
                    (IsExpected-bind _ (handle_record-IsExpected _ _ _ p) (elim [
                      | leave p' ↦ returned p'
                      | go_on p' ↦
                          parse_loop-IsExpected fuel (Reader.advance r2 rlen) p' (omega arith)
                    ]))
            ])
    ])
  ]

  finish-IsExpected : (p : Parser) → IsExpected (finish p)
  unfolding finish
  finish-IsExpected p = IsExpected-if _ _ _ failed (IsExpected-if _ _ _ (returned _) failed)

  -- On any bytes the parser ends: it returns, or throws FAIL_MSG, or throws "TLV field exceeds
  -- remaining record". It never reads past the end of its buffer.
  pub parse_payload-IsExpected :
      (bytes_of : List ℕ) → IsExpected (parse_payload codec uuid bytes_of)
  unfolding parse_payload
  parse_payload-IsExpected bytes_of =
      let r = Reader.new bytes_of in
      elim (Bool-cases (ltb (Reader.remaining r) 4)) [
        | inl short ↦ rw short failed
        | inr long ↦
            rw (long, bytes_guarded r 4 (ground arith))
              (IsExpected-if _ _ _
                (IsExpected-bind _
                  (parse_loop-IsExpected _ (Reader.advance r 4) start (omega arith))
                  finish-IsExpected)
                failed)
      ]
