-- ===== src/P2w/Parse/Steps.antt =====
-- What a step of the parser that did not throw has checked and changed.
use pwdnow_password_manager.Prelude.{
  ℕ, zero, suc, subst, ◌+◌, ◌≤◌, ◌≡◌, ◌⊎◌, inl, inr, List, [], ◌∷◌, ◌++◌, true, ok, some, arith,
  length, ltb, ◌==◌, >>=-eq-ok, unless-eq-ok, when-eq-ok, ok-injective, sym, Bool-cases,
}
use pwdnow_password_manager.Text.{TextCodec, text_eq}
use pwdnow_password_manager.Types.{Credential, Folder}
use pwdnow_password_manager.P2w.Format.{
  fail_msg, prf_magic, fm_ncreds, fm_nfolds, ff_id, fe_id, r_end, r_padding, r_meta, r_folder,
  r_entry,
}
use pwdnow_password_manager.P2w.Reader
use pwdnow_password_manager.P2w.Reader.{BufReader}
use pwdnow_password_manager.P2w.Fields.{FieldMap, read_fields, str_f, u32_f}
use pwdnow_password_manager.P2w.Parse.{
  Parser, Round, leave, go_on, is_valid_id, is_empty, parse_meta, fields_folder, parse_folder,
  entry_credential, parse_entry, parse_record, handle_record, parse_loop, next_round, start, finish,
  parse_payload,
}

-- The variables after a round.
abbrev pub round_parser : Round → Parser
round_parser (leave p) = p
round_parser (go_on p) = p

module _ (codec : TextCodec) (uuid : ℕ → List ℕ) (m : FieldMap) (p : Parser) {p' : Parser} where
  pub parse_meta-eq-ok :
      parse_meta m p ≡ ok p'
      → (p.state ≡ 0)
        × (u32_f m fm_ncreds ≤ 50000)
        × (u32_f m fm_nfolds ≤ 5000)
        × (p' ≡ record p {
          meta_creds = some (u32_f m fm_ncreds);
          meta_folds = some (u32_f m fm_nfolds);
          state = 1;
        })
  unfolding parse_meta
  parse_meta-eq-ok e = ground arith

  pub parse_folder-eq-ok :
      parse_folder codec uuid m p ≡ ok p'
      → (p.state ≤ 2)
        × (is_valid_id (str_f codec m ff_id) ≡ true)
        × (length p.folders + 1 ≤ 5000)
        × (p' ≡ record p { folders = p.folders ++ (fields_folder codec uuid m ∷ []); state = 2 })
  unfolding parse_folder
  parse_folder-eq-ok e = ground arith

  pub parse_entry-eq-ok :
      parse_entry codec uuid m p ≡ ok p'
      → (p.state ≤ 3)
        × ((is_empty (str_f codec m fe_id) ≡ true) ⊎ (is_valid_id (str_f codec m fe_id) ≡ true))
        × (length p.credentials + 1 ≤ 50000)
        × (p' ≡ record p {
          credentials =
              p.credentials ++ (entry_credential codec uuid m (length p.credentials) ∷ []);
          state = 3;
        })
  unfolding parse_entry
  parse_entry-eq-ok e = ground arith

module _ (codec : TextCodec) (uuid : ℕ → List ℕ) (rtype : ℕ) (body : List ℕ) (p : Parser) where
  -- A record with fields went to the parser of its type.
  pub parse_record-eq-ok :
      {p' : Parser}
      → parse_record codec uuid rtype body p ≡ ok p'
      → (m : FieldMap) × (((rtype ≡ r_meta) × (parse_meta m p ≡ ok p'))
          ⊎ ((rtype ≡ r_folder) × (parse_folder codec uuid m p ≡ ok p'))
          ⊎ ((rtype ≡ r_entry) × (parse_entry codec uuid m p ≡ ok p')))
  unfolding parse_record
  parse_record-eq-ok e =
      let (read, read_ok, e') = >>=-eq-ok (read_fields (Reader.new body)) _ e in
      (read.0, ground arith)

  pub handle_record-eq-ok :
      (left : ℕ) {round : Round}
      → handle_record codec uuid rtype body left p ≡ ok round
      → ((rtype ≡ r_end) × (1 ≤ p.state) × (left ≡ 0) × (round ≡ leave (record p { state = 5 })))
        ⊎ ((rtype ≡ r_padding) × (1 ≤ p.state) × (round ≡ go_on (record p { state = 4 })))
        ⊎ ((p' : Parser) × (parse_record codec uuid rtype body p ≡ ok p') × (round ≡ go_on p'))
  unfolding handle_record
  handle_record-eq-ok left {round} e = elim (Bool-cases (rtype == r_end)) [
    | inl is_end ↦ inl (ground arith)
    | inr not_end ↦ elim (Bool-cases (rtype == r_padding)) [
      | inl is_padding ↦ inr (inl (ground arith))
      | inr not_padding ↦
          let (p', parsed, e') =
            >>=-eq-ok (parse_record codec uuid rtype body p) (λ p'. ok (go_on p'))
              (rw (not_end, not_padding) at e) in
          inr (inr (p', parsed, sym (ok-injective e')))
    ]
  ]

module _ (codec : TextCodec) (uuid : ℕ → List ℕ) where
  -- A round of the loop that did not throw: it read nothing, or it handled one record.
  pub parse_loop-eq-ok :
      (fuel : ℕ) (r : BufReader) (p : Parser) {p' : Parser}
      → parse_loop codec uuid (suc fuel) r p ≡ ok p'
      → ((Reader.remaining r ≡ 0) × (p' ≡ p))
        ⊎ ((rtype : ℕ) × (body : List ℕ) × (r3 : BufReader) × (round : Round) × (handle_record codec
                uuid rtype body
                (Reader.remaining r3)
                p
              ≡ ok round)
            × (next_round (parse_loop codec uuid fuel r3) round ≡ ok p'))
  unfolding parse_loop
  parse_loop-eq-ok fuel r p e = elim (Bool-cases (Reader.remaining r == 0)) [
    | inl at_end ↦ inl (ground arith, sym (ok-injective (rw at_end at e)))
    | inr more ↦ elim (Bool-cases (ltb (Reader.remaining r) 5)) [
      | inl short ↦ cc (rw (more, short) at e)
      | inr long ↦
          let (typed, _, e1) = >>=-eq-ok (Reader.u8 r) _ (rw (more, long) at e) in
          let (sized, _, e2) = >>=-eq-ok (Reader.u32 typed.1) _ e1 in
          elim (Bool-cases (ltb (Reader.remaining sized.1) sized.0)) [
            | inl exceeds ↦ cc (rw exceeds at e2)
            | inr fits ↦
                let (cut, _, e3) = >>=-eq-ok (Reader.bytes sized.0 sized.1) _ (rw fits at e2) in
                let (round, handled, e4) =
                  >>=-eq-ok (handle_record codec uuid typed.0 cut.0 (Reader.remaining cut.1) p) _
                    e3 in
                inr (typed.0, cut.0, cut.1, round, handled, e4)
          ]
    ]
  ]

  -- What every round keeps holds when the loop ends.
  pub parse_loop_inv :
      (P : Parser → Type 0)
      → ((rtype : ℕ) (body : List ℕ) (left : ℕ) (p : Parser) (round : Round)
          → P p
          → handle_record codec uuid rtype body left p ≡ ok round
          → P (round_parser round))
      → (fuel : ℕ) (r : BufReader) (p : Parser) {p' : Parser} → P p
      → parse_loop codec uuid fuel r p ≡ ok p'
      → P p'
  parse_loop_inv P keep zero r p h e = unfold parse_loop in cc
  parse_loop_inv P keep (suc fuel) r p h e = elim (parse_loop-eq-ok fuel r p e) [
    | inl (_, same) ↦ rw same h
    | inr (rtype, body, r3, leave q, handled, last) ↦
        subst P (ok-injective last) (keep rtype body _ p _ h handled)
    | inr (rtype, body, r3, go_on q, handled, more) ↦
        parse_loop_inv P keep fuel r3 q (keep rtype body _ p _ h handled) more
  ]

  -- A payload that was accepted: its loop ended, and the check behind the loop let it through.
  pub parse_payload-eq-ok :
      (bytes_of : List ℕ) {v : List Credential × List Folder}
      → parse_payload codec uuid bytes_of ≡ ok v
      → (fuel : ℕ) × (r : BufReader) × (p : Parser) × (parse_loop codec uuid fuel r start ≡ ok p)
        × (finish p ≡ ok v)
  unfolding parse_payload
  parse_payload-eq-ok bytes_of e =
      let (long, e1) = unless-eq-ok (ltb (Reader.remaining (Reader.new bytes_of)) 4) fail_msg e in
      let (magic, _, e2) = >>=-eq-ok (Reader.bytes 4 (Reader.new bytes_of)) _ e1 in
      let (known, e3) = when-eq-ok (text_eq prf_magic magic.0) fail_msg e2 in
      let (p, looped, e4) = >>=-eq-ok (parse_loop codec uuid _ magic.1 start) finish e3 in
      (suc (Reader.remaining magic.1), magic.1, p, looped, e4)
