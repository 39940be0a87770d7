-- ===== src/P2w/File/Ciphers.antt =====
-- The two layers of encryption of a payload: `doubleEncrypt` and `doubleDecrypt` of
-- web/src/utils/p2wFormat.ts.
use pwdnow_password_manager.Prelude.{ℕ, ◌+◌, ◌≡◌, List, Option, some, length, arith}
use pwdnow_password_manager.P2w.File.{DerivedKeys, Crypto, double_encrypt, double_decrypt}

module _ (crypto : Crypto) (plain : List ℕ) (keys : DerivedKeys) (a x : List ℕ)
    (aad : Option (List ℕ)) where
  pub double_decrypt-double_encrypt :
      double_decrypt crypto (double_encrypt crypto plain keys a x aad) keys a x aad ≡ some plain
  unfolding double_decrypt double_encrypt
  double_decrypt-double_encrypt =
      let inner = crypto.aes_encrypt keys.k_aes a aad plain in
      rw (double_decrypt, crypto.xchacha_decrypt-xchacha_encrypt keys.k_xcha x aad inner)
        (crypto.aes_decrypt-aes_encrypt keys.k_aes a aad plain)

  -- Two tags of 16 bytes.
  pub length-double_encrypt : length (double_encrypt crypto plain keys a x aad) ≡ length plain + 32
  unfolding double_encrypt
  length-double_encrypt =
      let inner = crypto.aes_encrypt keys.k_aes a aad plain in
      omega (
        arith,
        crypto.xchacha_encrypt_length keys.k_xcha x aad inner,
        crypto.aes_encrypt_length keys.k_aes a aad plain,
      )
