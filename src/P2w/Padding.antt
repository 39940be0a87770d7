-- ===== src/P2w/Padding.antt =====
-- The padding target of web/src/utils/p2wFormat.ts, which hides the size of the vault.
pub mod Buckets
use pwdnow_password_manager.Prelude.{ℕ, ◌+◌, ◌-◌, ◌*◌, ◌/◌, leb, if◌then◌else◌}
use pwdnow_password_manager.P2w.Format.{min_padding_bytes}

-- `Math.ceil(len / mb) * mb`
unfoldable pub get_padding_target : ℕ → ℕ
get_padding_target current_len =
    let len = current_len + min_padding_bytes in
    if leb len 65536
    then 65536
    else if leb len 262144
    then 262144
    else if leb len 1048576
    then 1048576
    else (len + 1048576 - 1) / 1048576 * 1048576
