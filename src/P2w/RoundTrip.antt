-- ===== src/P2w/RoundTrip.antt =====
-- Exporting and importing the payload gives the vault back, as far as the format keeps it.
pub mod Items
pub mod Built
pub mod Records
pub mod Parsed
use pwdnow_password_manager.Prelude.{
  ℕ, suc, ◌+◌, ◌^◌, ◌≤◌, ◌<◌, ◌≡◌, refl, ◌>>=◌, ◌∙◌, ap, subst, List, [], ◌∷◌, ◌++◌, Option, ok,
  length, length-append, length-map, some, append_assoc, All, map, arith, le→ltb_false,
}
use pwdnow_password_manager.Text.{TextCodec, text_eq, text_eq_refl}
use pwdnow_password_manager.Types.{Folder, Credential}
use pwdnow_password_manager.P2w.Format.{prf_magic, r_padding, r_folder, r_entry}
use pwdnow_password_manager.P2w.Reader
use pwdnow_password_manager.P2w.Reader.Views.{
  Sees, new-Sees, Sees-advance, Sees-remaining, bytes_lem,
}
use pwdnow_password_manager.P2w.Build.{build_payload}
use pwdnow_password_manager.P2w.Parse.{start, parse_loop, finish, parse_payload}
use Items.{
  folder_items, entry_items, body_of, restore_folder, restore_credential, FolderIsPlain,
  CredentialIsPlain,
}
use Built.{
  record_bytes, end_record, folder_records, entry_records, meta_record, payload_records,
  build_payload-bytes,
}
use Parsed.{parse_loop-records}

module _ (codec : TextCodec) where
  folder_records-le : (fs : List Folder) → length fs ≤ length (folder_records codec fs)
  folder_records-le [] = omega arith
  folder_records-le (f ∷ fs) = omega (
    arith,
    folder_records-le fs,
    length-append (record_bytes r_folder (body_of codec (folder_items f)))
        (folder_records codec fs),
  )

  entry_records-le : (cs : List Credential) → length cs ≤ length (entry_records codec cs)
  entry_records-le [] = omega arith
  entry_records-le (c ∷ cs) = omega (
    arith,
    entry_records-le cs,
    length-append (record_bytes r_entry (body_of codec (entry_items c))) (entry_records codec cs),
  )

  regroup : (p m f e t : List ℕ) → (p ++ (m ++ (f ++ e))) ++ t ≡ p ++ (m ++ (f ++ (e ++ t)))
  regroup p m f e t = simp append_assoc

  -- Every record takes bytes, so the bytes bound the rounds of the loop.
  rounds-le :
      (creds : List Credential) (folds : List Folder) (date pad : List ℕ)
      → length folds + (length creds + 2) ≤ length (payload_records codec creds folds date pad)
  rounds-le creds folds date pad =
      let tail = record_bytes r_padding pad ++ end_record in
      let entries = entry_records codec creds ++ tail in
      omega (
        arith,
        folder_records-le folds,
        entry_records-le creds,
        length-append (entry_records codec creds) tail,
        length-append (folder_records codec folds) entries,
        length-append (meta_record codec date (length creds) (length folds))
            (folder_records codec folds ++ entries),
      )

  parse_payload-records :
      (uuid : ℕ → List ℕ) (creds : List Credential) (folds : List Folder) (date pad : List ℕ)
      {v : List Credential × List Folder}
      → ((fuel : ℕ) (r : Reader.BufReader)
          → length folds + (length creds + 2) < fuel
          → Sees r (payload_records codec creds folds date pad)
          → (parse_loop codec uuid fuel r start >>= finish) ≡ ok v)
      → parse_payload codec uuid (prf_magic ++ payload_records codec creds folds date pad) ≡ ok v
  unfolding parse_payload
  parse_payload-records uuid creds folds date pad loop =
      let all_bytes = prf_magic ++ payload_records codec creds folds date pad in
      let s = new-Sees all_bytes in
      let s1 = Sees-advance prf_magic _ s refl in
      rw
        (
          le→ltb_false (Reader.remaining (Reader.new all_bytes)) 4
              (omega (arith, Sees-remaining s)),
          bytes_lem prf_magic (payload_records codec creds folds date pad) s,
        )
        (loop _ _ (omega (arith, Sees-remaining s1, rounds-le creds folds date pad)) s1)

  finish-restored :
      (creds : List Credential) (folds : List Folder)
      → finish (record {
        credentials = map restore_credential creds;
        folders = map restore_folder folds;
        meta_creds = some (length creds);
        meta_folds = some (length folds);
        state = 5;
      })
        ≡ ok (map restore_credential creds, map restore_folder folds)
  unfolding finish
  finish-restored creds folds =
      ground (arith, length-map restore_credential creds, length-map restore_folder folds)

  -- Import after export: if the payload of a vault was built, and it is shorter than 4 GiB, and
  -- the vault has at most 50000 credentials and 5000 folders, each with an id of the pattern and
  -- with texts that can be encoded, then parsing it succeeds and gives back every folder and every
  -- credential in order, as far as the format keeps them.
  pub parse_payload-build_payload :
      (uuid : ℕ → List ℕ) (random : ℕ → Option (List ℕ)) (creds : List Credential)
      (folds : List Folder) (date : List ℕ) {out : List ℕ}
      → All CredentialIsPlain creds
      → All FolderIsPlain folds
      → length creds ≤ 50000
      → length folds ≤ 5000
      → build_payload codec random creds folds date ≡ ok out
      → length out < 2 ^ 32
      → parse_payload codec uuid out ≡ ok (map restore_credential creds, map restore_folder folds)
  parse_payload-build_payload uuid random creds folds date cp fp c_le f_le built small =
      let (pad, _, out_eq, mf, ff, cf) = build_payload-bytes codec random creds folds date built in
      let tail = record_bytes r_padding pad ++ end_record in
      let eq =
        out_eq
        ∙ regroup prf_magic (meta_record codec date (length creds) (length folds))
            (folder_records codec folds) (entry_records codec creds) tail in
      let small' : length (payload_records codec creds folds date pad) < 2 ^ 32 =
        omega (arith, ap length eq) in
      rw eq (
        parse_payload-records uuid creds folds date pad λ fuel r enough s.
          rw
            (parse_loop-records codec uuid creds folds date pad fuel r cp fp mf cf ff c_le f_le
              enough small' s)
            (finish-restored creds folds))
