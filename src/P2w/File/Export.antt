-- ===== src/P2w/File/Export.antt =====
-- Importing what `exportToP2W` (web/src/utils/p2wFormat.ts) wrote.
use pwdnow_password_manager.Prelude.{
  ℕ, ◌^◌, ◌<◌, ◌≤◌, ◌≡◌, refl, ap, sym, ◌∙◌, ◌⊎◌, List, true, false, ◌||◌, Option, some, length,
  ltb, ok, err, >>=-eq-ok, ok-injective, unless-eq-ok, or_else, map, All, arith, le→ltb_false,
  slice,
}
use pwdnow_password_manager.Text.{TextCodec}
use pwdnow_password_manager.Types.{Folder, Credential}
use pwdnow_password_manager.P2w.Format.{fail_msg, invalid_params}
use pwdnow_password_manager.P2w.Build.{build_payload}
use pwdnow_password_manager.P2w.Parse.{parse_payload}
use pwdnow_password_manager.P2w.RoundTrip.{parse_payload-build_payload}
use pwdnow_password_manager.P2w.RoundTrip.Items.{
  restore_folder, restore_credential, FolderIsPlain, CredentialIsPlain,
}
use pwdnow_password_manager.P2w.File.{
  Crypto, Nonces, KdfParams, default_params, out_of_range, build_header, export_to_p2w, import_body,
  import_v2, import_from_p2w,
}
use pwdnow_password_manager.P2w.File.Ciphers.{double_decrypt-double_encrypt, length-double_encrypt}
use pwdnow_password_manager.P2w.File.Layout.{
  NoncesAreSized, seal_keys, sealed_ciphertext, sealed, sealed-length, kdf_params_at, salt_at,
  xcha_at, aes_at, header_at, has_right_length-sealed, ciphertext_of-sealed, macs_match-sealed,
  is_p2w_file-sealed, fixed_part-sealed,
}

-- Parameters that the export takes.
abbrev pub InRange : KdfParams → Type 0
InRange k = ((12 ≤ k.log2_m) × (k.log2_m ≤ 18)) × ((1 ≤ k.t) × (k.t ≤ 3)) × ((1 ≤ k.p) × (k.p ≤ 4))

range_lem :
    (m t p : ℕ)
    → (out_of_range 12 18 m || out_of_range 1 3 t || out_of_range 1 4 p) ≡ false
    → ((12 ≤ m) × (m ≤ 18)) × ((1 ≤ t) × (t ≤ 3)) × ((1 ≤ p) × (p ≤ 4))
range_lem m t p h = ground arith

range_true :
    (m t p : ℕ)
    → ((12 ≤ m) × (m ≤ 18)) × ((1 ≤ t) × (t ≤ 3)) × ((1 ≤ p) × (p ≤ 4))
    → (out_of_range 12 18 m || out_of_range 1 3 t || out_of_range 1 4 p) ≡ false
range_true m t p h = ground arith

over_lem : (m t : ℕ) → (16 < m) ⊎ (2 < t) → (ltb 16 m || ltb 2 t) ≡ true
over_lem m t h = ground arith

within_lem : (m t : ℕ) → m ≤ 16 → t ≤ 2 → (ltb 16 m || ltb 2 t) ≡ false
within_lem m t h k = ground arith

module _ (codec : TextCodec) (crypto : Crypto) (uuid : ℕ → List ℕ) where
  export_to_p2w-eq-ok :
      (random : ℕ → Option (List ℕ)) (n : Nonces) (date : List ℕ) (creds : List Credential)
      (folds : List Folder) (passphrase : List ℕ) (options : Option KdfParams) {file : List ℕ}
      → export_to_p2w codec crypto random n date creds folds passphrase options ≡ ok file
      → (payload : List ℕ) × InRange (or_else options default_params)
        × (build_payload codec random creds folds date ≡ ok payload)
        × (file ≡ sealed crypto passphrase payload n (or_else options default_params))
  unfolding export_to_p2w
  export_to_p2w-eq-ok random n date creds folds passphrase options e =
      let k = or_else options default_params in
      let (in_range, e1) =
        unless-eq-ok (out_of_range 12 18 k.log2_m || out_of_range 1 3 k.t || out_of_range 1 4 k.p)
          invalid_params e in
      let (payload, built, e2) = >>=-eq-ok (build_payload codec random creds folds date) _ e1 in
      (payload, range_lem _ _ _ in_range, built, sym (ok-injective e2))

  module _ (passphrase payload : List ℕ) (n : Nonces) (k : KdfParams) (sized : NoncesAreSized n)
      (in_range : InRange k) where
    abbrev pub file : List ℕ
    file = sealed crypto passphrase payload n k

    import-dispatch :
        (other : List ℕ)
        → import_from_p2w codec crypto uuid file other ≡ import_v2 codec crypto uuid file other
    unfolding import_from_p2w
    import-dispatch other =
        let (version, suite, _) = fixed_part-sealed crypto passphrase payload n k sized in
        rw
          (
            is_p2w_file-sealed crypto passphrase payload n k sized,
            le→ltb_false (length file) 230
                (omega (arith, sealed-length crypto passphrase payload n k sized)),
            version,
            suite,
          )
          refl

    -- Outside the budget for unverified files nothing is read.
    sealed-over_budget :
        (16 < k.log2_m) ⊎ (2 < k.t)
        → (other : List ℕ) → import_from_p2w codec crypto uuid file other ≡ err fail_msg
    unfolding import_v2
    sealed-over_budget over other =
        let (_, _, reserved) = fixed_part-sealed crypto passphrase payload n k sized in
        let (m_at, t_at, p_at) =
          kdf_params_at crypto passphrase payload n k sized (omega arith) (omega arith)
            (omega arith) in
        rw
          (
            import-dispatch other,
            reserved,
            m_at,
            t_at,
            p_at,
            range_true _ _ _ in_range,
            over_lem _ _ over,
          )
          refl

    sealed-body :
        length (sealed_ciphertext crypto passphrase payload n k) < 2 ^ 32
        → import_body codec crypto uuid crypto.mac_v2
            (seal_keys crypto passphrase payload n k)
            (some (build_header n k))
            file
          ≡ parse_payload codec uuid payload
    unfolding import_body
    sealed-body small =
        rw
          (
            macs_match-sealed crypto passphrase payload n k sized,
            ciphertext_of-sealed crypto passphrase payload n k sized small,
            xcha_at crypto passphrase payload n k sized,
            aes_at crypto passphrase payload n k sized,
            double_decrypt-double_encrypt crypto payload (seal_keys crypto passphrase payload n k)
                n.aes_nonce n.xcha_nonce (some (build_header n k)),
          )
          refl

    pub sealed-opened :
        k.log2_m ≤ 16
        → k.t ≤ 2
        → length (sealed_ciphertext crypto passphrase payload n k) < 2 ^ 32
        → import_from_p2w codec crypto uuid file passphrase ≡ parse_payload codec uuid payload
    unfolding import_v2
    sealed-opened m_le t_le small =
        let (_, _, reserved) = fixed_part-sealed crypto passphrase payload n k sized in
        let (m_at, t_at, p_at) =
          kdf_params_at crypto passphrase payload n k sized (omega arith) (omega arith)
            (omega arith) in
        rw
          (
            import-dispatch passphrase,
            reserved,
            m_at,
            t_at,
            p_at,
            range_true _ _ _ in_range,
            within_lem _ _ m_le t_le,
            has_right_length-sealed crypto passphrase payload n k sized small,
          )
          (ap
              (λ salt.
                import_body codec crypto uuid crypto.mac_v2
                  (crypto.derive_keys_v2 passphrase salt k.log2_m k.t k.p) (some (slice 2 98 file))
                  file)
              (salt_at crypto passphrase payload n k sized)
            ∙ ap
                (λ header.
                  import_body codec crypto uuid crypto.mac_v2
                    (seal_keys crypto passphrase payload n k) (some header) file)
                (header_at crypto passphrase payload n k sized)
            ∙ sealed-body small)

  -- Import after export: if a vault was exported with Argon2id parameters within the budget for
  -- unverified files (log2 m at most 16 and t at most 2), with nonces of the right lengths, and
  -- the file is shorter than 4 GiB, and the vault has at most 50000 credentials and 5000 folders,
  -- each with an id of the pattern and with texts that can be encoded, then importing the file
  -- under the same passphrase succeeds and gives back every folder and every credential in order,
  -- as far as the format keeps them.
  pub import_from_p2w-export_to_p2w :
      (random : ℕ → Option (List ℕ)) (n : Nonces) (date : List ℕ) (creds : List Credential)
      (folds : List Folder) (passphrase : List ℕ) (k : KdfParams) {file : List ℕ}
      → NoncesAreSized n
      → k.log2_m ≤ 16
      → k.t ≤ 2
      → All CredentialIsPlain creds
      → All FolderIsPlain folds
      → length creds ≤ 50000
      → length folds ≤ 5000
      → export_to_p2w codec crypto random n date creds folds passphrase (some k) ≡ ok file
      → length file < 2 ^ 32
      → import_from_p2w codec crypto uuid file passphrase
        ≡ ok (map restore_credential creds, map restore_folder folds)
  import_from_p2w-export_to_p2w random n date creds folds passphrase k sized m_le t_le cp fp c_le
        f_le exported small =
      let (payload, in_range, built, eq) =
        export_to_p2w-eq-ok random n date creds folds passphrase (some k) exported in
      let ct_length =
        length-double_encrypt crypto payload (seal_keys crypto passphrase payload n k) n.aes_nonce
          n.xcha_nonce (some (build_header n k)) in
      let file_length = sealed-length crypto passphrase payload n k sized in
      let small' = ap length eq in
      rw eq (
        sealed-opened passphrase payload n k sized in_range m_le t_le (omega arith)
        ∙ parse_payload-build_payload codec uuid random creds folds date cp fp c_le f_le built
            (omega arith))

  -- A file exported with parameters above the budget for unverified files is never imported: with
  -- nonces of the right lengths, and log2 m above 16 or t above 2 among the parameters used, the
  -- import throws FAIL_MSG whatever the vault and the passphrases are. The default parameters
  -- (log2 m 18) are such.
  pub import_from_p2w-over_budget :
      (random : ℕ → Option (List ℕ)) (n : Nonces) (date : List ℕ) (creds : List Credential)
      (folds : List Folder) (passphrase : List ℕ) (options : Option KdfParams) {file : List ℕ}
      → NoncesAreSized n
      → (16 < (or_else options default_params).log2_m) ⊎ (2 < (or_else options default_params).t)
      → export_to_p2w codec crypto random n date creds folds passphrase options ≡ ok file
      → (other : List ℕ) → import_from_p2w codec crypto uuid file other ≡ err fail_msg
  import_from_p2w-over_budget random n date creds folds passphrase options sized over exported
        other =
      let k = or_else options default_params in
      let (payload, in_range, built, eq) =
        export_to_p2w-eq-ok random n date creds folds passphrase options exported in
      rw eq (sealed-over_budget passphrase payload n k sized in_range over other)
