-- ===== src/P2w/File/Layout.antt =====
-- The bytes of an exported file, found at the offsets where the import reads them.
use pwdnow_password_manager.Prelude.{
  ℕ, zero, suc, ◌+◌, ◌-◌, ◌%◌, ◌^◌, ◌<◌, ◌≡◌, refl, ap, sym, ◌∙◌, List, [], ◌∷◌, ◌++◌, true, some,
  length, get_or, take, drop, slice, eq→==, take_all, le→ltb_false, append_assoc, drop-add,
  take-append, drop-append, length-append, arith, All,
}
use pwdnow_password_manager.P2w.Format.{nz_stub}
use pwdnow_password_manager.P2w.File.{
  DerivedKeys, Crypto, double_encrypt, Nonces, KdfParams, at, is_p2w_file, build_header,
  uint32_bytes, seal_payload, payload_len, ciphertext_of, has_right_length, reserved_zero,
  macs_match, timing_safe_eq,
}
use pwdnow_password_manager.P2w.File.Comparison.{timing_safe_eq_iff}

-- The lengths of the arrays that getRandomValues fills.
pub record NoncesAreSized (n : Nonces) : Type 0 where
  pub salt_length : length n.salt ≡ 32
  pub xcha_length : length n.xcha_nonce ≡ 24
  pub aes_length : length n.aes_nonce ≡ 12

get_or-drop : (n i : ℕ) (xs : List ℕ) → get_or xs (n + i) 0 ≡ get_or (drop n xs) i 0
get_or-drop zero i xs = ap (λ k. get_or xs k 0) (omega arith)
get_or-drop (suc n) i [] = refl
get_or-drop (suc n) i (x ∷ xs) =
    let e : suc n + i ≡ suc (n + i) = omega arith in
    ap (λ k. get_or (x ∷ xs) k 0) e ∙ get_or-drop n i xs

-- A part found at an offset, and what follows it.
part_at :
    (n m : ℕ) (file part rest : List ℕ)
    → length part ≡ m
    → drop n file ≡ part ++ rest
    → (take m (drop n file) ≡ part) × (drop (n + m) file ≡ rest)
part_at n m file part rest size e =
    rw (drop-add n m file, e, sym size) (take-append part rest, drop-append part rest)

-- A list cut before its last part.
ends :
    (xs ys : List ℕ) {m : ℕ}
    → length ys ≡ m
    → (slice 0 (length (xs ++ ys) - m) (xs ++ ys) ≡ xs)
      × (slice (length (xs ++ ys) - m) (length (xs ++ ys)) (xs ++ ys) ≡ ys)
ends xs ys {m = m} size =
    let start : length (xs ++ ys) - m - 0 ≡ length xs = omega (arith, length-append xs ys) in
    let before : length (xs ++ ys) - m ≡ length xs = omega (arith, length-append xs ys) in
    let after : length (xs ++ ys) - length xs ≡ length ys = omega (arith, length-append xs ys) in
    (
      ap (λ c. take c (xs ++ ys)) start ∙ take-append xs ys,
      rw (before, after, drop-append xs ys) (take_all (length ys) ys (omega arith)),
    )

timing_safe_eq_refl : (xs : List ℕ) → All (λ b. b < 256) xs → timing_safe_eq xs xs ≡ true
timing_safe_eq_refl xs h = (timing_safe_eq_iff xs xs h h).1 refl

regroup :
    (salt kdf xn an hm len ct fm : List ℕ)
    → ((salt ++ (kdf ++ (xn ++ an))) ++ (hm ++ (len ++ ct))) ++ fm
      ≡ salt ++ (kdf ++ (xn ++ (an ++ (hm ++ (len ++ (ct ++ fm))))))
regroup salt kdf xn an hm len ct fm = simp append_assoc

-- The sealed file and its parts.
module _ (crypto : Crypto) (passphrase payload : List ℕ) (n : Nonces) (k : KdfParams) where
  abbrev pub seal_keys : DerivedKeys
  seal_keys = crypto.derive_keys_v2 passphrase n.salt k.log2_m k.t k.p

  abbrev pub sealed_ciphertext : List ℕ
  sealed_ciphertext =
      double_encrypt crypto payload seal_keys n.aes_nonce n.xcha_nonce (some (build_header n k))

  abbrev header_mac : List ℕ
  header_mac = crypto.mac_v2 seal_keys.k_mac (build_header n k)

  abbrev after_header : List ℕ
  after_header = header_mac ++ (uint32_bytes (length sealed_ciphertext) ++ sealed_ciphertext)

  abbrev sealed_body : List ℕ
  sealed_body = nz_stub ++ (build_header n k ++ after_header)

  abbrev file_mac : List ℕ
  file_mac = crypto.mac_v2 seal_keys.k_mac sealed_body

  abbrev pub sealed : List ℕ
  sealed = seal_payload crypto passphrase n k payload

  abbrev kdf_bytes : List ℕ
  kdf_bytes = k.log2_m % 256 ∷ k.t % 256 ∷ k.p % 256 ∷ 0 ∷ []

  seal_payload-parts : sealed ≡ sealed_body ++ file_mac
  unfolding seal_payload
  seal_payload-parts = refl

  -- What follows each part.
  abbrev after_mac : List ℕ
  after_mac = uint32_bytes (length sealed_ciphertext) ++ (sealed_ciphertext ++ file_mac)

  abbrev after_nonces : List ℕ
  after_nonces = header_mac ++ after_mac

  abbrev after_kdf : List ℕ
  after_kdf = n.xcha_nonce ++ (n.aes_nonce ++ after_nonces)

  from_salt : drop 26 sealed ≡ n.salt ++ (kdf_bytes ++ after_kdf)
  unfolding seal_payload build_header
  from_salt =
      regroup n.salt kdf_bytes n.xcha_nonce n.aes_nonce header_mac
        (uint32_bytes (length sealed_ciphertext)) sealed_ciphertext file_mac

  module _ (sized : NoncesAreSized n) where
    build_header-length : length (build_header n k) ≡ 96
    unfolding build_header
    build_header-length = omega (
      arith,
      length-append n.salt (kdf_bytes ++ (n.xcha_nonce ++ n.aes_nonce)),
      length-append n.xcha_nonce n.aes_nonce,
      sized.salt_length,
      sized.xcha_length,
      sized.aes_length,
    )

    body_length : length sealed_body ≡ 166 + length sealed_ciphertext
    body_length = omega (
      arith,
      build_header-length,
      length-append (build_header n k) after_header,
      length-append header_mac (uint32_bytes (length sealed_ciphertext) ++ sealed_ciphertext),
      crypto.mac_v2_length seal_keys.k_mac (build_header n k),
    )

    pub sealed-length : length sealed ≡ 166 + length sealed_ciphertext + 64
    sealed-length = omega (
      arith,
      ap length seal_payload-parts,
      body_length,
      length-append sealed_body file_mac,
      crypto.mac_v2_length seal_keys.k_mac sealed_body,
    )

    -- The header's fields, at their offsets.
    salt_part : (slice 26 58 sealed ≡ n.salt) × (drop 58 sealed ≡ kdf_bytes ++ after_kdf)
    salt_part = part_at 26 32 sealed n.salt _ sized.salt_length from_salt

    kdf_part : (slice 58 62 sealed ≡ kdf_bytes) × (drop 62 sealed ≡ after_kdf)
    kdf_part = part_at 58 4 sealed kdf_bytes after_kdf refl salt_part.1

    xcha_part : (slice 62 86 sealed ≡ n.xcha_nonce) × (drop 86 sealed ≡ n.aes_nonce ++ after_nonces)
    xcha_part = part_at 62 24 sealed n.xcha_nonce _ sized.xcha_length kdf_part.1

    aes_part : (slice 86 98 sealed ≡ n.aes_nonce) × (drop 98 sealed ≡ after_nonces)
    aes_part = part_at 86 12 sealed n.aes_nonce after_nonces sized.aes_length xcha_part.1

    mac_part : (slice 98 162 sealed ≡ header_mac) × (drop 162 sealed ≡ after_mac)
    mac_part =
        part_at 98 64 sealed header_mac after_mac
          (crypto.mac_v2_length seal_keys.k_mac (build_header n k)) aes_part.1

    len_part :
        (slice 162 166 sealed ≡ uint32_bytes (length sealed_ciphertext))
        × (drop 166 sealed ≡ sealed_ciphertext ++ file_mac)
    len_part = part_at 162 4 sealed _ _ refl mac_part.1

    pub salt_at : slice 26 58 sealed ≡ n.salt
    salt_at = salt_part.0

    pub xcha_at : slice 62 86 sealed ≡ n.xcha_nonce
    xcha_at = xcha_part.0

    pub aes_at : slice 86 98 sealed ≡ n.aes_nonce
    aes_at = aes_part.0

    pub kdf_params_at :
        k.log2_m < 256
        → k.t < 256
        → k.p < 256
        → (at sealed 58 ≡ k.log2_m) × (at sealed 59 ≡ k.t) × (at sealed 60 ≡ k.p)
    kdf_params_at m_lt t_lt p_lt =
        rw (get_or-drop 58 0 sealed, get_or-drop 58 1 sealed, get_or-drop 58 2 sealed, salt_part.1)
          (omega arith, omega arith, omega arith)

    pub payload_len-sealed :
        length sealed_ciphertext < 2 ^ 32 → payload_len sealed ≡ length sealed_ciphertext
    payload_len-sealed small =
        rw
          (
            get_or-drop 162 0 sealed,
            get_or-drop 162 1 sealed,
            get_or-drop 162 2 sealed,
            get_or-drop 162 3 sealed,
            mac_part.1,
          )
          (omega arith)

    pub ciphertext_of-sealed :
        length sealed_ciphertext < 2 ^ 32 → ciphertext_of sealed ≡ sealed_ciphertext
    ciphertext_of-sealed small =
        let count : 166 + payload_len sealed - 166 ≡ length sealed_ciphertext =
          omega (arith, payload_len-sealed small) in
        ap (λ m. take m (drop 166 sealed)) count
        ∙ (part_at 166 _ sealed sealed_ciphertext file_mac refl len_part.1).0

    pub has_right_length-sealed : length sealed_ciphertext < 2 ^ 32 → has_right_length sealed ≡ true
    has_right_length-sealed small =
        eq→== _ _ (omega (arith, payload_len-sealed small, sealed-length))

    pub header_at : slice 2 98 sealed ≡ build_header n k
    unfolding seal_payload build_header
    header_at =
        (part_at 2 96 sealed (build_header n k) (after_header ++ file_mac) build_header-length
          (append_assoc (build_header n k) after_header file_mac)).0

    pub macs_match-sealed : macs_match crypto.mac_v2 seal_keys sealed ≡ true
    unfolding macs_match
    macs_match-sealed =
        let (body_at, mac_at) = ends sealed_body file_mac (crypto.mac_v2_length _ _) in
        rw
          (
            ap (λ f. slice 0 (length f - 64) f) seal_payload-parts ∙ body_at,
            ap (λ f. slice (length f - 64) (length f) f) seal_payload-parts ∙ mac_at,
            header_at,
            mac_part.0,
            timing_safe_eq_refl file_mac (crypto.mac_v2_bytes _ _),
            timing_safe_eq_refl header_mac (crypto.mac_v2_bytes _ _),
          )
          refl

    pub is_p2w_file-sealed : is_p2w_file sealed ≡ true
    unfolding is_p2w_file seal_payload build_header
    is_p2w_file-sealed = rw (le→ltb_false (length sealed) 98 (omega (arith, sealed-length))) refl

    pub fixed_part-sealed : (at sealed 6 ≡ 1) × (at sealed 7 ≡ 2) × (reserved_zero sealed ≡ true)
    unfolding seal_payload build_header
    fixed_part-sealed = (refl, refl, refl)
