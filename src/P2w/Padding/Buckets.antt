-- ===== src/P2w/Padding/Buckets.antt =====
-- The sizes that a payload can have.
use pwdnow_password_manager.Prelude.{ℕ, ◌+◌, ◌-◌, ◌*◌, ◌/◌, ◌%◌, ◌≤◌, ◌≡◌, ◌⊎◌, arith}
use pwdnow_password_manager.P2w.Padding.{get_padding_target}

-- A payload's size tells only its bucket: 64 KB, 256 KB, or a whole number of megabytes.
abbrev pub IsBucket : ℕ → Type 0
IsBucket n = (n ≡ 65536) ⊎ (n ≡ 262144) ⊎ ((1048576 ≤ n) × (n % 1048576 ≡ 0))

pub get_padding_target_fits :
    (n : ℕ) → IsBucket (get_padding_target n) × (n + 128 ≤ get_padding_target n)
unfolding get_padding_target
get_padding_target_fits n = ground arith

-- The next whole number of megabytes is at most any other.
ceiling_least : (n m : ℕ) → m % 1048576 ≡ 0 → n ≤ m → (n + 1048576 - 1) / 1048576 * 1048576 ≤ m
ceiling_least n m whole room = omega arith

-- The target for n bytes of records is the least bucket (64 KB, 256 KB or a whole number of
-- megabytes) with room for them and 128 bytes of padding: it is a bucket, it has that room, and
-- any bucket m with that room is at least as large. The size n alone decides it: above a megabyte
-- too, where the comment of the source speaks of a random jitter, the target has none.
pub get_padding_target-IsBucket :
    (n m : ℕ)
    → IsBucket m
    → n + 128 ≤ m
    → IsBucket (get_padding_target n)
      × (n + 128 ≤ get_padding_target n)
      × (get_padding_target n ≤ m)
unfolding get_padding_target
get_padding_target-IsBucket n m bucket room =
    let (is_bucket, fits) = get_padding_target_fits n in
    (is_bucket, fits, ground (arith, ceiling_least (n + 128) m))

pub get_padding_target_mono : (n m : ℕ) → n ≤ m → get_padding_target n ≤ get_padding_target m
unfolding get_padding_target
get_padding_target_mono n m h = ground arith
