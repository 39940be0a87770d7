-- ===== src/P2w/Reader/Views.antt =====
-- What a reader has still to read, and how each operation moves it.
use pwdnow_password_manager.Prelude.{
  ℕ, zero, suc, ◌+◌, ◌-◌, ◌^◌, ◌<◌, ◌≤◌, ◌≡◌, refl, ap, ◌∙◌, List, [], ◌∷◌, ◌++◌, length, take,
  drop, get_or, length-append, length-drop, drop-add, take-append, drop-append, le→ltb_false, ok,
  arith,
}
use pwdnow_password_manager.P2w.Reader.{BufReader, remaining, advance, byte_at, u8, u16, u32, bytes}
use pwdnow_password_manager.P2w.Writer.Contents.{be16, be32}

-- The reader stands in front of `bs`.
pub record Sees (r : BufReader) (bs : List ℕ) : Type 0 where
  pub ahead : drop r.pos r.bytes_of ≡ bs
  pub inside : r.pos ≤ length r.bytes_of

abbrev pub rest : BufReader → List ℕ
rest r = drop r.pos r.bytes_of

pub new-Sees : (bs : List ℕ) → Sees (record { bytes_of = bs; pos = 0 }) bs
new-Sees bs = record { ahead = refl; inside = omega arith }

get_or-drop : (n i : ℕ) (xs : List ℕ) → get_or xs (n + i) 0 ≡ get_or (drop n xs) i 0
get_or-drop zero i xs = ap (λ k. get_or xs k 0) (omega arith)
get_or-drop (suc n) i [] = refl
get_or-drop (suc n) i (x ∷ xs) =
    let e : suc n + i ≡ suc (n + i) = omega arith in
    ap (λ k. get_or (x ∷ xs) k 0) e ∙ get_or-drop n i xs

module _ {r : BufReader} {bs : List ℕ} where
  pub Sees-remaining : Sees r bs → remaining r ≡ length bs
  unfolding remaining
  Sees-remaining s = omega (arith, ap length s.ahead, length-drop r.pos r.bytes_of)

  pub Sees-byte_at : (i : ℕ) → Sees r bs → byte_at r i ≡ get_or bs i 0
  Sees-byte_at i s = get_or-drop r.pos i r.bytes_of ∙ ap (λ l. get_or l i 0) s.ahead

  pub Sees-advance : (d cs : List ℕ) → Sees r bs → bs ≡ d ++ cs → Sees (advance r (length d)) cs
  Sees-advance d cs s e = record {
    ahead =
        drop-add r.pos (length d) r.bytes_of
        ∙ ap (drop (length d)) (s.ahead ∙ e)
        ∙ drop-append d cs;
    inside =
        omega (arith, ap length (s.ahead ∙ e), length-append d cs, length-drop r.pos r.bytes_of);
  }

module _ {r : BufReader} where
  pub u8_lem : (b : ℕ) (bs : List ℕ) → Sees r (b ∷ bs) → u8 r ≡ ok (b, advance r 1)
  unfolding u8
  u8_lem b bs s = ground (arith, Sees-remaining s, Sees-byte_at 0 s)

  pub u16_lem :
      (v : ℕ) (bs : List ℕ) → v < 0x10000 → Sees r (be16 v ++ bs) → u16 r ≡ ok (v, advance r 2)
  unfolding u16
  u16_lem v bs h s = ground (arith, Sees-remaining s, Sees-byte_at 0 s, Sees-byte_at 1 s)

  pub u32_lem :
      (v : ℕ) (bs : List ℕ) → v < 2 ^ 32 → Sees r (be32 v ++ bs) → u32 r ≡ ok (v, advance r 4)
  unfolding u32
  u32_lem v bs h s = ground (
    arith,
    Sees-remaining s,
    Sees-byte_at 0 s,
    Sees-byte_at 1 s,
    Sees-byte_at 2 s,
    Sees-byte_at 3 s,
  )

  pub bytes_lem :
      (d bs : List ℕ) → Sees r (d ++ bs) → bytes (length d) r ≡ ok (d, advance r (length d))
  unfolding bytes
  bytes_lem d bs s =
      let n : r.pos + length d - r.pos ≡ length d = omega arith in
      let taken : take (length d) (drop r.pos r.bytes_of) ≡ d =
        ap (take (length d)) s.ahead ∙ take-append d bs in
      rw (n, taken, le→ltb_false (remaining r) (length d) (fits s))
    where
      fits : Sees r (d ++ bs) → length d ≤ remaining r
      fits s = omega (arith, Sees-remaining s, length-append d bs)
