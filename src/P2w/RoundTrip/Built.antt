-- ===== src/P2w/RoundTrip/Built.antt =====
-- The bytes of a payload that was built.
use pwdnow_password_manager.Prelude.{
  ℕ, suc, ◌+◌, ◌-◌, ◌%◌, ◌≤◌, ◌<◌, ◌≡◌, refl, true, List, [], ◌∷◌, ◌++◌, Option, none, some, ok,
  length, ltb, All, ◌>>=◌, >>=-eq-ok, ok-injective, ap, ◌∙◌, sym, arith, inl, inr, append_assoc,
  append-nil, length-append, Option-cases, subst,
}
use pwdnow_password_manager.Text.{TextCodec}
use pwdnow_password_manager.Types.{Folder, Credential}
use pwdnow_password_manager.P2w.Format.{prf_magic, r_meta, r_folder, r_entry, r_padding, r_end}
use pwdnow_password_manager.P2w.Writer
use pwdnow_password_manager.P2w.Writer.{BufWriter}
use pwdnow_password_manager.P2w.Writer.Contents.{
  Holds, new-Holds, u8-Holds, u32-Holds, write-Holds, be32, Holds-to_uint8_array,
}
use pwdnow_password_manager.P2w.Fields.Written.{Fits, row, moved}
use pwdnow_password_manager.P2w.Padding.{get_padding_target}
use pwdnow_password_manager.P2w.Padding.Buckets.{IsBucket, get_padding_target_fits}
use pwdnow_password_manager.P2w.Build.{
  write_record, encode_meta, encode_folder, encode_entry, write_folders, write_entries,
  write_padding, build_payload,
}
use pwdnow_password_manager.P2w.RoundTrip.Items.{
  meta_items, folder_items, entry_items, body_of, encode_meta-row, encode_folder-row,
  encode_entry-row,
}

abbrev pub record_bytes : ℕ → List ℕ → List ℕ
record_bytes type body = type ∷ (be32 (length body) ++ body)

write_record-Holds :
    (w : BufWriter) (type : ℕ) (body : List ℕ) {bs : List ℕ}
    → type % 256 ≡ type
    → Holds w bs
    → Holds (write_record w type body) (bs ++ record_bytes type body)
unfolding write_record
write_record-Holds w type body {bs} small h =
    let written = write-Holds body (u32-Holds (length body) (u8-Holds type h)) in
    subst (Holds _) (simp append_assoc (rw small)) written

abbrev pub end_record : List ℕ
end_record = r_end ∷ be32 0

module _ (codec : TextCodec) where
  abbrev pub folder_records : List Folder → List ℕ
  folder_records [] = []
  folder_records (f ∷ fs) =
      record_bytes r_folder (body_of codec (folder_items f)) ++ folder_records fs

  abbrev pub entry_records : List Credential → List ℕ
  entry_records [] = []
  entry_records (c ∷ cs) = record_bytes r_entry (body_of codec (entry_items c)) ++ entry_records cs

  abbrev pub meta_record : List ℕ → ℕ → ℕ → List ℕ
  meta_record date n m = record_bytes r_meta (body_of codec (meta_items date n m))

  -- All that stands in front of the padding.
  abbrev pub vault_bytes : List Credential → List Folder → List ℕ → List ℕ
  vault_bytes creds folds date =
      prf_magic
      ++ (meta_record date (length creds) (length folds)
          ++ (folder_records folds ++ entry_records creds))

  -- A whole payload but for the magic word.
  abbrev pub payload_records : List Credential → List Folder → List ℕ → List ℕ → List ℕ
  payload_records creds folds date pad =
      meta_record date (length creds) (length folds)
      ++ (folder_records folds
          ++ (entry_records creds ++ (record_bytes r_padding pad ++ end_record)))

  abbrev pub FolderFits : Folder → Type 0
  FolderFits f = All Fits (row codec (folder_items f))

  abbrev pub EntryFits : Credential → Type 0
  EntryFits c = All Fits (row codec (entry_items c))

module _ (codec : TextCodec) where
  write_folders-Holds :
      (fs : List Folder) (w : BufWriter) {w' : BufWriter} {bs : List ℕ}
      → Holds w bs
      → write_folders codec w fs ≡ ok w'
      → Holds w' (bs ++ folder_records codec fs) × All (FolderFits codec) fs
  unfolding write_folders
  write_folders-Holds [] w h e = (rw append-nil (moved (ok-injective e) h), tt)
  write_folders-Holds (f ∷ fs) w {bs = bs} h e =
      let (body, encoded, e') = >>=-eq-ok (encode_folder codec f) _ e in
      let (body_eq, fits) = encode_folder-row codec f encoded in
      let h' = write_record-Holds w r_folder body refl h in
      let (held, all_fit) = write_folders-Holds fs (write_record w r_folder body) h' e' in
      (rw (body_eq, append_assoc) at held, (fits, all_fit))

  write_entries-Holds :
      (cs : List Credential) (w : BufWriter) {w' : BufWriter} {bs : List ℕ}
      → Holds w bs
      → write_entries codec w cs ≡ ok w'
      → Holds w' (bs ++ entry_records codec cs) × All (EntryFits codec) cs
  unfolding write_entries
  write_entries-Holds [] w h e = (rw append-nil (moved (ok-injective e) h), tt)
  write_entries-Holds (c ∷ cs) w {bs = bs} h e =
      let (body, encoded, e') = >>=-eq-ok (encode_entry codec c) _ e in
      let (body_eq, fits) = encode_entry-row codec c encoded in
      let h' = write_record-Holds w r_entry body refl h in
      let (held, all_fit) = write_entries-Holds cs (write_record w r_entry body) h' e' in
      (rw (body_eq, append_assoc) at held, (fits, all_fit))

  regroup : (p q f e : List ℕ) → ((p ++ q) ++ f) ++ e ≡ p ++ (q ++ (f ++ e))
  regroup p q f e = simp append_assoc

  -- The writer before the padding, and what has been written to it.
  build_payload-parts :
      (random : ℕ → Option (List ℕ)) (creds : List Credential) (folds : List Folder) (date : List ℕ)
      {out : List ℕ}
      → build_payload codec random creds folds date ≡ ok out
      → (w : BufWriter) × Holds w (vault_bytes codec creds folds date)
        × All Fits (row codec (meta_items date (length creds) (length folds)))
        × All (FolderFits codec) folds
        × All (EntryFits codec) creds
        × ((write_padding random w (get_padding_target (w.len + 5) - (w.len + 5)) >>= λ w3.
              ok (Writer.to_uint8_array (Writer.u32 (Writer.u8 w3 r_end) 0)))
            ≡ ok out)
  unfolding build_payload
  build_payload-parts random creds folds date e =
      let (meta, encoded, e1) =
        >>=-eq-ok (encode_meta codec date (length creds) (length folds)) _ e in
      let (meta_eq, meta_fits) = encode_meta-row codec date (length creds) (length folds) encoded in
      let h0 = write-Holds prf_magic new-Holds in
      let h1 = write_record-Holds (Writer.write Writer.new prf_magic) r_meta meta refl h0 in
      let (w1, wrote1, e2) =
        >>=-eq-ok
          (write_folders codec (write_record (Writer.write Writer.new prf_magic) r_meta meta) folds)
          _ e1 in
      let (h2, folds_fit) = write_folders-Holds folds _ h1 wrote1 in
      let (w2, wrote2, e3) = >>=-eq-ok (write_entries codec w1 creds) _ e2 in
      let (h3, creds_fit) = write_entries-Holds creds w1 h2 wrote2 in
      (
        w2,
        subst (Holds w2)
            (regroup prf_magic (record_bytes r_meta meta) _ _
              ∙ ap
                  (λ body.
                    prf_magic
                    ++ (record_bytes r_meta body
                        ++ (folder_records codec folds ++ entry_records codec creds)))
                  meta_eq)
            h3,
        meta_fits,
        folds_fit,
        creds_fit,
        e3,
      )

-- How many random bytes the padding record of a vault of n bytes holds.
abbrev pub padding_size : ℕ → ℕ
padding_size n = get_padding_target (n + 5) - (n + 5) - 5

padding_room : (n : ℕ) → ltb 5 (get_padding_target (n + 5) - (n + 5)) ≡ true
padding_room n = ground (arith, get_padding_target_fits (n + 5))

module _ (codec : TextCodec) (random : ℕ → Option (List ℕ)) where
  padding-Holds :
      (w : BufWriter) {bs out : List ℕ}
      → Holds w bs
      → (write_padding random w (get_padding_target (w.len + 5) - (w.len + 5)) >>= λ w3.
          ok (Writer.to_uint8_array (Writer.u32 (Writer.u8 w3 r_end) 0)))
        ≡ ok out
      → (pad : List ℕ) × (random (padding_size (length bs)) ≡ some pad)
        × (out ≡ bs ++ (record_bytes r_padding pad ++ end_record))
  unfolding write_padding
  padding-Holds w {bs} {out} h e = elim (Option-cases (random (padding_size w.len))) [
    | inl threw ↦ cc (rw (padding_room w.len, threw) at e)
    | inr (pad, filled) ↦
        let e' = rw (padding_room w.len, filled) at e in
        let h' = u32-Holds 0 (u8-Holds r_end (write_record-Holds w r_padding pad refl h)) in
        (
          pad,
          rw (← h.counted) filled,
          sym (ok-injective e') ∙ Holds-to_uint8_array h' ∙ simp append_assoc,
        )
  ]

  -- A payload that was built: the vault's records, one padding record and the end record.
  pub build_payload-bytes :
      (creds : List Credential) (folds : List Folder) (date : List ℕ) {out : List ℕ}
      → build_payload codec random creds folds date ≡ ok out
      → (pad : List ℕ) × (random (padding_size (length (vault_bytes codec creds folds date)))
          ≡ some pad)
        × (out ≡ vault_bytes codec creds folds date ++ (record_bytes r_padding pad ++ end_record))
        × All Fits (row codec (meta_items date (length creds) (length folds)))
        × All (FolderFits codec) folds
        × All (EntryFits codec) creds
  build_payload-bytes creds folds date e =
      let (w, held, meta_fits, folds_fit, creds_fit, e') =
        build_payload-parts codec random creds folds date e in
      let (pad, filled, out_eq) = padding-Holds w held e' in
      (pad, filled, out_eq, meta_fits, folds_fit, creds_fit)

  -- If the random source fills what it is asked for, a payload that was built is exactly as long as
  -- the padding target of its records, whatever they hold and whatever was drawn, and that is a
  -- bucket. So there is no jitter above a megabyte either, where the comment of the source
  -- announces one.
  pub length-build_payload :
      (creds : List Credential) (folds : List Folder) (date : List ℕ) {out : List ℕ}
      → ((n : ℕ) (pad : List ℕ) → random n ≡ some pad → length pad ≡ n)
      → build_payload codec random creds folds date ≡ ok out
      → (length out ≡ get_padding_target (length (vault_bytes codec creds folds date) + 5))
        × IsBucket (length out)
  length-build_payload creds folds date {out} fills e =
      let (pad, filled, out_eq, _, _, _) = build_payload-bytes creds folds date e in
      sized _ _ _ _ (fills _ pad filled)
        (ap length out_eq ∙ length-append (vault_bytes codec creds folds date) _)
        (length-append pad end_record)
    where
      sized :
          (n k m t : ℕ)
          → k ≡ padding_size n
          → t ≡ n + suc (suc (suc (suc (suc m))))
          → m ≡ k + 5
          → (t ≡ get_padding_target (n + 5)) × IsBucket t
      sized n k m t a b c =
          let (bucket, room) = get_padding_target_fits (n + 5) in
          let eq : t ≡ get_padding_target (n + 5) = omega arith in (eq, rw eq bucket)

  -- The browser fills at most 65536 bytes at a time. A vault whose records take from 65404 to
  -- 196597 bytes needs a longer padding record, so it cannot be exported at all.
  pub build_payload_quota :
      (creds : List Credential) (folds : List Folder) (date : List ℕ)
      → ((n : ℕ) → 65536 < n → random n ≡ none)
      → 65404 ≤ length (vault_bytes codec creds folds date)
      → length (vault_bytes codec creds folds date) ≤ 196597
      → ¬ ((out : List ℕ) × (build_payload codec random creds folds date ≡ ok out))
  build_payload_quota creds folds date quota lo hi (out, e) =
      let (pad, filled, _, _, _, _) = build_payload-bytes creds folds date e in
      cc (filled, quota _ (too_long _ lo hi))
    where
      too_long : (n : ℕ) → 65404 ≤ n → n ≤ 196597 → 65536 < padding_size n
      too_long n lo hi = unfold get_padding_target in ground arith
