-- ===== src/P2w/Writer/Contents.antt =====
-- What a writer holds: the concatenation of its parts.
use pwdnow_password_manager.Prelude.{
  ℕ, zero, suc, ◌+◌, ◌/◌, ◌%◌, ◌≡◌, refl, ap, sym, ◌∙◌, List, [], ◌∷◌, ◌++◌, length, drop,
  replicate, length-append, take-append, drop-append, drop-add, append_assoc, append-nil, arith,
}
use pwdnow_password_manager.P2w.Writer.{
  BufWriter, new, append, u8, u16, u32, write, set_bytes, fill, to_uint8_array,
}

abbrev pub concat : List (List ℕ) → List ℕ
concat [] = []
concat (p ∷ ps) = p ++ concat ps

concat-append : (ps qs : List (List ℕ)) → concat (ps ++ qs) ≡ concat ps ++ concat qs
concat-append [] qs = refl
concat-append (p ∷ ps) qs = ap (λ r. p ++ r) (concat-append ps qs) ∙ sym (append_assoc p _ _)

-- The writer holds `bs`, and counts it right.
pub record Holds (w : BufWriter) (bs : List ℕ) : Type 0 where
  pub parts-eq : concat w.parts ≡ bs
  pub counted : w.len ≡ length bs

pub new-Holds : Holds new []
new-Holds = record { parts-eq = refl; counted = refl }

pub append-Holds :
    {w : BufWriter} {bs : List ℕ} (d : List ℕ) → Holds w bs → Holds (append w d) (bs ++ d)
unfolding append
append-Holds {w} {bs} d h = record {
  parts-eq = concat-append w.parts (d ∷ []) ∙ rw (h.parts-eq, append-nil);
  counted = rw (length-append bs d, h.counted);
}

-- The big-endian bytes of a number.
abbrev pub be16 : ℕ → List ℕ
be16 v = v / 256 % 256 ∷ v % 256 ∷ []

abbrev pub be32 : ℕ → List ℕ
be32 v = v / 0x1000000 % 256 ∷ v / 0x10000 % 256 ∷ v / 256 % 256 ∷ v % 256 ∷ []

module _ {w : BufWriter} {bs : List ℕ} where
  pub u8-Holds : (v : ℕ) → Holds w bs → Holds (u8 w v) (bs ++ (v % 256 ∷ []))
  unfolding u8
  u8-Holds v h = append-Holds (v % 256 ∷ []) h

  pub u16-Holds : (v : ℕ) → Holds w bs → Holds (u16 w v) (bs ++ be16 v)
  unfolding u16
  u16-Holds v h = append-Holds (be16 v) h

  pub u32-Holds : (v : ℕ) → Holds w bs → Holds (u32 w v) (bs ++ be32 v)
  unfolding u32
  u32-Holds v h = append-Holds (be32 v) h

  pub write-Holds : (d : List ℕ) → Holds w bs → Holds (write w d) (bs ++ d)
  unfolding write
  write-Holds d h = append-Holds d h

drop-replicate : (n m : ℕ) → drop n (replicate {A = ℕ} (n + m) 0) ≡ replicate m 0
drop-replicate zero m = ap (λ k. replicate k 0) (omega arith)
drop-replicate (suc n) m =
    let e : suc n + m ≡ suc (n + m) = omega arith in
    ap (λ k. drop (suc n) (replicate k 0)) e ∙ drop-replicate n m

set_bytes_zeros :
    (done p q : List ℕ)
    → set_bytes (done ++ replicate (length (p ++ q)) 0) p (length done)
      ≡ (done ++ p) ++ replicate (length q) 0
set_bytes_zeros done p q =
    rw (take-append, drop-add, drop-append, length-append p q, drop-replicate, append_assoc)

-- Filling `done` followed by zeros copies the parts one behind the other.
fill-eq :
    (ps : List (List ℕ)) (done : List ℕ)
    → fill (done ++ replicate (length (concat ps)) 0) (length done) ps ≡ done ++ concat ps
unfolding fill
fill-eq [] done = refl
fill-eq (p ∷ ps) done =
    ap (λ out. fill out (length done + length p) ps) (set_bytes_zeros done p (concat ps))
    ∙ ap (λ off. fill ((done ++ p) ++ replicate (length (concat ps)) 0) off ps)
        (sym (length-append done p))
    ∙ fill-eq ps (done ++ p)
    ∙ append_assoc done p (concat ps)

-- `toUint8Array` copies every part into place: the array is the concatenation of all the parts.
pub Holds-to_uint8_array : {w : BufWriter} {bs : List ℕ} → Holds w bs → to_uint8_array w ≡ bs
unfolding to_uint8_array
Holds-to_uint8_array {w} {bs} h =
    ap (λ n. fill (replicate n 0) 0 w.parts) (h.counted ∙ ap length (sym h.parts-eq))
    ∙ fill-eq w.parts []
    ∙ h.parts-eq
