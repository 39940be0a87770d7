-- ===== src/SecurityModes/Travel/Hex.antt =====
-- Hexadecimal texts are read back (web/src/utils/securityModes.ts).
use pwdnow_password_manager.Prelude.{ℕ, ◌<◌, ◌≡◌, refl, List, [], ◌∷◌, All, ap}
use pwdnow_password_manager.SecurityModes.Travel.{hex_pair, bytes_to_hex, hex_to_bytes}

pub hex_to_bytes-bytes_to_hex :
    (parse_int : List ℕ → ℕ) (bytes : List ℕ)
    → ((b : ℕ) → b < 256 → parse_int (hex_pair b) ≡ b)
    → All (λ b. b < 256) bytes
    → hex_to_bytes parse_int (bytes_to_hex bytes) ≡ bytes
unfolding hex_to_bytes bytes_to_hex
hex_to_bytes-bytes_to_hex parse_int [] read small = refl
hex_to_bytes-bytes_to_hex parse_int (b ∷ bytes) read (small, rest) =
    rw (read b small) (ap (λ r. b ∷ r) (hex_to_bytes-bytes_to_hex parse_int bytes read rest))
