-- ===== src/P2w/RoundTrip/Parsed.antt =====
-- Parsing the records of a built payload one after the other.
use pwdnow_password_manager.Prelude.{
  ℕ, zero, suc, ◌+◌, ◌^◌, ◌≤◌, ◌<◌, ◌≡◌, refl, List, [], ◌∷◌, ◌++◌, some, ok, length, All, ap, ◌∙◌,
  sym, arith, subst, append_assoc, append-nil, map, length-append,
}
use pwdnow_password_manager.Text.{TextCodec}
use pwdnow_password_manager.Types.{Folder, Credential}
use pwdnow_password_manager.P2w.Format.{r_meta, r_folder, r_entry, r_padding, r_end}
use pwdnow_password_manager.P2w.Reader
use pwdnow_password_manager.P2w.Reader.{BufReader}
use pwdnow_password_manager.P2w.Reader.Views.{Sees, Sees-remaining}
use pwdnow_password_manager.P2w.Writer.Contents.{be32}
use pwdnow_password_manager.P2w.Fields.Written.{Fits, row}
use pwdnow_password_manager.P2w.Parse.{Parser, go_on, start, handle_record, parse_loop}
use pwdnow_password_manager.P2w.RoundTrip.Items.{
  meta_items, folder_items, entry_items, body_of, restore_folder, restore_credential, FolderIsPlain,
  CredentialIsPlain,
}
use pwdnow_password_manager.P2w.RoundTrip.Built.{
  payload_records, end_record, record_bytes, folder_records, entry_records, FolderFits, EntryFits,
}
use pwdnow_password_manager.P2w.RoundTrip.Records.{
  parse_loop_step, parse_folder-row, parse_entry-row, parse_meta-row,
}

module _ (codec : TextCodec) (uuid : ℕ → List ℕ) where
  -- The loop goes on in front of `bs` with the variables `q`, and has `k` rounds left at least.
  record GoesOn (fuel : ℕ) (r : BufReader) (p q : Parser) (bs : List ℕ) (k : ℕ) : Type 0 where
    fuel_left : ℕ
    reader : BufReader
    in_front : Sees reader bs
    enough : k ≤ fuel_left
    same : parse_loop codec uuid fuel r p ≡ parse_loop codec uuid fuel_left reader q

  GoesOn-step :
      (fuel : ℕ) (r : BufReader) (p q : Parser) (type : ℕ) (body bs : List ℕ)
      → length (record_bytes type body ++ bs) < 2 ^ 32
      → Sees r (record_bytes type body ++ bs)
      → ((left : ℕ) → handle_record codec uuid type body left p ≡ ok (go_on q))
      → GoesOn (suc fuel) r p q bs fuel
  GoesOn-step fuel r p q type body bs small s handled =
      let (r', s', step) =
        parse_loop_step codec uuid fuel r p type body bs
          (omega (arith, length-append (be32 (length body) ++ body) bs)) s in
      record {
        fuel_left = fuel;
        reader = r';
        in_front = s';
        enough = omega arith;
        same = step ∙ rw (handled (Reader.remaining r'));
      }

  GoesOn-trans :
      {fuel n k : ℕ} {r : BufReader} {p q t : Parser} {bs cs : List ℕ}
      → (a : GoesOn fuel r p q bs n) → GoesOn a.fuel_left a.reader q t cs k
      → GoesOn fuel r p t cs k
  GoesOn-trans a b = record {
    fuel_left = b.fuel_left;
    reader = b.reader;
    in_front = b.in_front;
    enough = b.enough;
    same = a.same ∙ b.same;
  }

  handle_folder :
      (f : Folder) (p : Parser)
      → FolderIsPlain f
      → FolderFits codec f
      → p.state ≤ 2
      → length p.folders + 1 ≤ 5000
      → (left : ℕ)
      → handle_record codec uuid r_folder (body_of codec (folder_items f)) left p
        ≡ ok (go_on (record p { folders = p.folders ++ (restore_folder f ∷ []); state = 2 }))
  unfolding handle_record
  handle_folder f p plain fits early few left =
      rw (parse_folder-row codec uuid f p plain fits early few)

  handle_entry :
      (c : Credential) (p : Parser)
      → CredentialIsPlain c
      → EntryFits codec c
      → p.state ≤ 3
      → length p.credentials + 1 ≤ 50000
      → (left : ℕ)
      → handle_record codec uuid r_entry (body_of codec (entry_items c)) left p
        ≡ ok (
            go_on
              (record p { credentials = p.credentials ++ (restore_credential c ∷ []); state = 3 }))
  unfolding handle_record
  handle_entry c p plain fits early few left =
      rw (parse_entry-row codec uuid c p plain fits early few)

  cut_record :
      (r : BufReader) (type : ℕ) (body rs bs : List ℕ)
      → length ((record_bytes type body ++ rs) ++ bs) < 2 ^ 32
      → Sees r ((record_bytes type body ++ rs) ++ bs)
      → (length (record_bytes type body ++ (rs ++ bs)) < 2 ^ 32)
        × (length (rs ++ bs) < 2 ^ 32)
        × Sees r (record_bytes type body ++ (rs ++ bs))
  cut_record r type body rs bs small seen =
      let e = append_assoc (record_bytes type body) rs bs in
      (
        subst (λ l. length l < 2 ^ 32) e small,
        omega (arith, ap length e, length-append (record_bytes type body) (rs ++ bs)),
        subst (Sees r) e seen,
      )

  abbrev with_folders : Parser → List Folder → ℕ → Parser
  with_folders p fs s = record p { folders = p.folders ++ map restore_folder fs; state = s }

  GoesOn-folders :
      (fs : List Folder) (fuel k : ℕ) (r : BufReader) (p : Parser) (bs : List ℕ)
      → All FolderIsPlain fs
      → All (FolderFits codec) fs
      → (1 ≤ p.state) × (p.state ≤ 2)
      → length p.folders + length fs ≤ 5000
      → length fs + k ≤ fuel
      → length (folder_records codec fs ++ bs) < 2 ^ 32
      → Sees r (folder_records codec fs ++ bs)
      → (s : ℕ) × ((1 ≤ s) × (s ≤ 2)) × GoesOn fuel r p (with_folders p fs s) bs k
  GoesOn-folders [] fuel k r p bs plain fits early few enough small seen = (
    p.state,
    early,
    record {
      fuel_left = fuel;
      reader = r;
      in_front = seen;
      enough = omega arith;
      same =
          ap (λ fs. parse_loop codec uuid fuel r (record p { folders = fs }))
            (sym (append-nil p.folders));
    },
  )
  GoesOn-folders (f ∷ fs) zero k r p bs plain fits early few enough small seen =
      absurd (omega arith)
  GoesOn-folders (f ∷ fs) (suc fuel) k r p bs (pl, plain) (ft, fits) early few enough small seen =
      let q : Parser = record p { folders = p.folders ++ (restore_folder f ∷ []); state = 2 } in
      let body = body_of codec (folder_items f) in
      let (small', fewer, seen') =
        cut_record r r_folder body (folder_records codec fs) bs small seen in
      let step =
        GoesOn-step fuel r p q r_folder body (folder_records codec fs ++ bs) small' seen'
          (handle_folder f p pl ft early.1 (omega arith)) in
      let (s, range, rest) =
        GoesOn-folders fs step.fuel_left k step.reader q bs plain fits (omega arith, omega arith)
          (omega (arith, length-append p.folders (restore_folder f ∷ [])))
          (omega (arith, step.enough)) fewer step.in_front in
      (
        s,
        range,
        subst (λ fs'. GoesOn (suc fuel) r p (record p { folders = fs'; state = s }) bs k)
            (append_assoc p.folders (restore_folder f ∷ []) (map restore_folder fs))
            (GoesOn-trans step rest),
      )

  abbrev with_credentials : Parser → List Credential → ℕ → Parser
  with_credentials p cs s = record p {
    credentials = p.credentials ++ map restore_credential cs;
    state = s;
  }

  GoesOn-entries :
      (cs : List Credential) (fuel k : ℕ) (r : BufReader) (p : Parser) (bs : List ℕ)
      → All CredentialIsPlain cs
      → All (EntryFits codec) cs
      → (1 ≤ p.state) × (p.state ≤ 3)
      → length p.credentials + length cs ≤ 50000
      → length cs + k ≤ fuel
      → length (entry_records codec cs ++ bs) < 2 ^ 32
      → Sees r (entry_records codec cs ++ bs)
      → (s : ℕ) × ((1 ≤ s) × (s ≤ 3)) × GoesOn fuel r p (with_credentials p cs s) bs k
  GoesOn-entries [] fuel k r p bs plain fits early few enough small seen = (
    p.state,
    early,
    record {
      fuel_left = fuel;
      reader = r;
      in_front = seen;
      enough = omega arith;
      same =
          ap (λ cs. parse_loop codec uuid fuel r (record p { credentials = cs }))
            (sym (append-nil p.credentials));
    },
  )
  GoesOn-entries (c ∷ cs) zero k r p bs plain fits early few enough small seen =
      absurd (omega arith)
  GoesOn-entries (c ∷ cs) (suc fuel) k r p bs (pl, plain) (ft, fits) early few enough small seen =
      let q : Parser = record p {
        credentials = p.credentials ++ (restore_credential c ∷ []);
        state = 3;
      } in
      let body = body_of codec (entry_items c) in
      let (small', fewer, seen') =
        cut_record r r_entry body (entry_records codec cs) bs small seen in
      let step =
        GoesOn-step fuel r p q r_entry body (entry_records codec cs ++ bs) small' seen'
          (handle_entry c p pl ft early.1 (omega arith)) in
      let (s, range, rest) =
        GoesOn-entries cs step.fuel_left k step.reader q bs plain fits (omega arith, omega arith)
          (omega (arith, length-append p.credentials (restore_credential c ∷ [])))
          (omega (arith, step.enough)) fewer step.in_front in
      (
        s,
        range,
        subst (λ cs'. GoesOn (suc fuel) r p (record p { credentials = cs'; state = s }) bs k)
            (append_assoc p.credentials (restore_credential c ∷ []) (map restore_credential cs))
            (GoesOn-trans step rest),
      )

  -- The end record ends the loop.
  ends :
      (fuel : ℕ) (r : BufReader) (p : Parser)
      → 1 ≤ p.state
      → 1 ≤ fuel
      → Sees r end_record
      → parse_loop codec uuid fuel r p ≡ ok (record p { state = 5 })
  unfolding handle_record
  ends zero r p started enough seen = absurd (omega arith)
  ends (suc fuel) r p started enough seen =
      let (r', s', step) = parse_loop_step codec uuid fuel r p r_end [] [] (omega arith) seen in
      step ∙ ground (arith, Sees-remaining s')

  handle_padding :
      (p : Parser) (pad : List ℕ) (left : ℕ)
      → 1 ≤ p.state
      → handle_record codec uuid r_padding pad left p ≡ ok (go_on (record p { state = 4 }))
  unfolding handle_record
  handle_padding p pad left started = ground arith

  -- So do a padding record and the end record.
  ends_padded :
      (fuel : ℕ) (r : BufReader) (p : Parser) (pad : List ℕ)
      → 1 ≤ p.state
      → 2 ≤ fuel
      → length (record_bytes r_padding pad ++ end_record) < 2 ^ 32
      → Sees r (record_bytes r_padding pad ++ end_record)
      → parse_loop codec uuid fuel r p ≡ ok (record p { state = 5 })
  ends_padded zero r p pad started enough small seen = absurd (omega arith)
  ends_padded (suc fuel) r p pad started enough small seen =
      let padded =
        GoesOn-step fuel r p (record p { state = 4 }) r_padding pad end_record small seen
          (λ left. handle_padding p pad left started) in
      padded.same
      ∙ ends padded.fuel_left padded.reader (record p { state = 4 }) (omega arith)
          (omega (arith, padded.enough)) padded.in_front

  handle_meta :
      (date : List ℕ) (n k : ℕ)
      → All Fits (row codec (meta_items date n k))
      → n ≤ 50000
      → k ≤ 5000
      → (left : ℕ)
      → handle_record codec uuid r_meta (body_of codec (meta_items date n k)) left start
        ≡ ok (go_on (record start { meta_creds = some n; meta_folds = some k; state = 1 }))
  unfolding handle_record
  handle_meta date n k fits n_le k_le left =
      rw (parse_meta-row codec uuid date n k start fits n_le k_le refl)

  -- All the records of a built payload, read from their front.
  pub parse_loop-records :
      (creds : List Credential) (folds : List Folder) (date pad : List ℕ) (fuel : ℕ) (r : BufReader)
      → All CredentialIsPlain creds
      → All FolderIsPlain folds
      → All Fits (row codec (meta_items date (length creds) (length folds)))
      → All (EntryFits codec) creds
      → All (FolderFits codec) folds
      → length creds ≤ 50000
      → length folds ≤ 5000
      → suc (length folds + (length creds + 2)) ≤ fuel
      → length (payload_records codec creds folds date pad) < 2 ^ 32
      → Sees r (payload_records codec creds folds date pad)
      → parse_loop codec uuid fuel r start
        ≡ ok (record {
          credentials = map restore_credential creds;
          folders = map restore_folder folds;
          meta_creds = some (length creds);
          meta_folds = some (length folds);
          state = 5;
        })
  parse_loop-records creds folds date pad zero r cp fp mf cf ff c_le f_le enough small seen =
      absurd (omega arith)
  parse_loop-records creds folds date pad (suc fuel) r cp fp mf cf ff c_le f_le enough small seen =
      let n = length creds in
      let k = length folds in
      let q : Parser = record start { meta_creds = some n; meta_folds = some k; state = 1 } in
      let meta = body_of codec (meta_items date n k) in
      let tail = record_bytes r_padding pad ++ end_record in
      let entries = entry_records codec creds ++ tail in
      let step =
        GoesOn-step fuel r start q r_meta meta (folder_records codec folds ++ entries) small seen
          (handle_meta date n k mf c_le f_le) in
      let small1 : length (folder_records codec folds ++ entries) < 2 ^ 32 =
        omega (
          arith,
          length-append (record_bytes r_meta meta) (folder_records codec folds ++ entries),
        ) in
      let (s1, range1, a) =
        GoesOn-folders folds step.fuel_left (length creds + 2) step.reader q entries fp ff
          (omega arith, omega arith) (omega arith) (omega (arith, step.enough)) small1
          step.in_front in
      let small2 : length entries < 2 ^ 32 =
        omega (arith, length-append (folder_records codec folds) entries) in
      let p1 = with_folders q folds s1 in
      let (s2, range2, b) =
        GoesOn-entries creds a.fuel_left 2 a.reader p1 tail cp cf (range1.0, omega arith)
          (omega arith) a.enough small2 a.in_front in
      step.same
      ∙ a.same
      ∙ b.same
      ∙ ends_padded b.fuel_left b.reader (with_credentials p1 creds s2) pad range2.0 b.enough
          (omega (arith, length-append (entry_records codec creds) tail)) b.in_front
