-- ===== src/CardUtils/Networks.antt =====
-- When a number counts as complete for its network.
use pwdnow_password_manager.Prelude.{
  ℕ, ◌≤◌, ◌≡◌, List, [], ◌∷◌, true, Option, none, some, arith, length, any, ◌==◌,
}
use pwdnow_password_manager.CardUtils.{
  CardNetwork, only_digits, is_pan_complete, max_pan_length, largest,
}

largest-any : (ns : List ℕ) (k : ℕ) → any (λ l. l == k) ns ≡ true → k ≤ largest ns
unfolding largest
largest-any [] k h = cc
largest-any (n ∷ ns) k h = ground (arith, largest-any ns k)

-- Under any network, and under none, a number that counts as complete has at most as many digits as its field takes.
pub is_pan_complete-max_pan_length :
    (raw : List ℕ) (network : Option CardNetwork) (pan_max : ℕ)
    → is_pan_complete raw network pan_max ≡ true
    → length (only_digits raw) ≤ max_pan_length network pan_max
unfolding is_pan_complete max_pan_length
is_pan_complete-max_pan_length raw none pan_max h = ground arith
is_pan_complete-max_pan_length raw (some n) pan_max h = largest-any n.lengths _ h
