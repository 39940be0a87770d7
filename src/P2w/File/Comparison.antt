-- ===== src/P2w/File/Comparison.antt =====
-- `timingSafeEq` decides equality of byte arrays.
use Prim.Native.Nat.{bit_or, bit_xor}
use pwdnow_password_manager.Prelude.{
  ℕ, ◌<◌, ◌≡◌, refl, ◌↔◌, ap, List, [], ◌∷◌, true, All, length, arith, bit_or_byte, bit_xor_byte,
  ◌==◌, ==_iff, eq→==, Bool-cases, inl, inr,
}
use pwdnow_password_manager.P2w.File.{diff_loop, timing_safe_eq}

abbrev pub AreBytes : List ℕ → Type 0
AreBytes bs = All (λ b. b < 256) bs

diff_loop-zero :
    (d : ℕ) (as' bs : List ℕ)
    → d < 256
    → AreBytes as'
    → AreBytes bs
    → length as' ≡ length bs
    → (diff_loop d as' bs ≡ 0) ↔ ((d ≡ 0) × (as' ≡ bs))
unfolding diff_loop
diff_loop-zero d [] [] hd ha hb e = (λ h. (h, refl), λ h. h.0)
diff_loop-zero d [] (b ∷ bs) hd ha hb e = absurd (omega arith)
diff_loop-zero d (a ∷ as') [] hd ha hb e = absurd (omega arith)
diff_loop-zero d (a ∷ as') (b ∷ bs) hd (ha, has) (hb, hbs) e =
    let (x_lt, x_to, x_from) = bit_xor_byte a b ha hb in
    let (o_lt, o_to, o_from) = bit_or_byte d (bit_xor a b) hd x_lt in
    let (to, from) = diff_loop-zero (bit_or d (bit_xor a b)) as' bs o_lt has hbs (omega arith) in
    (
      λ h.
          let (o_zero, tails) = to h in
          let (d_zero, x_zero) = o_to o_zero in (d_zero, cc (x_to x_zero, tails)),
      λ h. from (o_from h.0 (x_from (heads h.1)), tails_eq h.1),
    )
  where
    heads : a ∷ as' ≡ b ∷ bs → a ≡ b
    heads h = cc

    tails_eq : a ∷ as' ≡ b ∷ bs → as' ≡ bs
    tails_eq h = cc

-- The comparison that looks at every byte answers true exactly for equal arrays of bytes.
pub timing_safe_eq_iff :
    (a b : List ℕ) → AreBytes a → AreBytes b → (timing_safe_eq a b ≡ true) ↔ (a ≡ b)
unfolding timing_safe_eq
timing_safe_eq_iff a b ha hb = elim (Bool-cases (length a == length b)) [
  | inl same ↦
      let (to, from) = diff_loop-zero 0 a b (omega arith) ha hb ((==_iff _ _).0 same) in
      rw same (λ h. (to ((==_iff _ _).0 h)).1, λ e. eq→== _ _ (from (refl, e)))
  | inr differ ↦ rw differ (λ h. cc, λ e. cc (eq→== _ _ (ap length e)))
]
