-- ===== src/P2w/Fields/Written.antt =====
-- What a row of written fields holds, byte by byte.
use pwdnow_password_manager.Prelude.{
  ℕ, ◌/◌, ◌%◌, ◌<◌, ◌≡◌, sym, ◌∙◌, List, [], ◌∷◌, ◌++◌, Option, none, some, length, ltb, ok, ◌>>=◌,
  >>=-eq-ok, ok-injective, append_assoc, append-nil, All, Bool-cases, inl, inr, arith, subst,
}
use pwdnow_password_manager.Text.{TextCodec}
use pwdnow_password_manager.P2w.Format.{Outcome, f_end}
use pwdnow_password_manager.P2w.Writer
use pwdnow_password_manager.P2w.Writer.{BufWriter}
use pwdnow_password_manager.P2w.Writer.Contents.{
  Holds, u8-Holds, u16-Holds, write-Holds, be16, be32, Holds-to_uint8_array,
}
use pwdnow_password_manager.P2w.Fields.{write_str_field, write_u32_field, end_fields}

-- A field of a record: a text, which may be absent or empty, or a 32-bit number.
pub data Item : Type 0 where
  str : ℕ → Option (List ℕ) → Item
  num : ℕ → ℕ → Item

abbrev pub Row : Type 0
Row = List (ℕ × Option (List ℕ))

-- The bytes of a row of fields: an absent value leaves none.
abbrev pub field_bytes : ℕ → Option (List ℕ) → List ℕ
field_bytes tag none = []
field_bytes tag (some v) = tag % 256 ∷ (be16 (length v) ++ v)

abbrev pub row_bytes : Row → List ℕ
row_bytes [] = f_end ∷ 0 ∷ 0 ∷ []
row_bytes ((tag, v) ∷ r) = field_bytes tag v ++ row_bytes r

abbrev pub Fits : ℕ × Option (List ℕ) → Type 0
Fits (tag, none) = Unit
Fits (tag, some v) = length v < 0x10000

pub moved : {w w' : BufWriter} {bs : List ℕ} → w ≡ w' → Holds w bs → Holds w' bs
moved {bs} e h = subst (λ x. Holds x bs) e h

regroup : (bs d : List ℕ) (t a b : ℕ) → ((bs ++ t ∷ []) ++ a ∷ b ∷ []) ++ d ≡ bs ++ (t ∷ a ∷ b ∷ d)
regroup bs d t a b = simp append_assoc

module _ (codec : TextCodec) where
  abbrev pub present : Option (List ℕ) → Option (List ℕ)
  present none = none
  present (some []) = none
  present (some (c ∷ s)) = some (codec.encode (c ∷ s))

  abbrev pub row : List Item → Row
  row [] = []
  row (str tag s ∷ is) = (tag, present s) ∷ row is
  row (num tag v ∷ is) = (tag, some (be32 v)) ∷ row is

  -- Writing the items one behind the other, then the end mark.
  abbrev pub encode_items : BufWriter → List Item → Outcome (List ℕ)
  encode_items w [] = ok (Writer.to_uint8_array (end_fields w))
  encode_items w (str tag s ∷ is) = write_str_field codec w tag s >>= λ w'. encode_items w' is
  encode_items w (num tag v ∷ is) = encode_items (write_u32_field w tag v) is

  write_str_field-Holds :
      (w : BufWriter) {bs : List ℕ} (tag : ℕ) (s : Option (List ℕ)) {w' : BufWriter}
      → Holds w bs
      → write_str_field codec w tag s ≡ ok w'
      → Holds w' (bs ++ field_bytes tag (present s)) × Fits (tag, present s)
  unfolding write_str_field
  write_str_field-Holds w tag none h e = (moved (ok-injective e) (rw append-nil h), tt)
  write_str_field-Holds w tag (some []) h e = (moved (ok-injective e) (rw append-nil h), tt)
  write_str_field-Holds w {bs} tag (some (c ∷ s)) h e =
      let d = codec.encode (c ∷ s) in
      elim (Bool-cases (ltb 0xffff (length d))) [
        | inl long ↦ cc (rw long at e)
        | inr short ↦ (
          moved (ok-injective (rw short at e))
              (rw (← regroup bs d _ _ _) (write-Holds d (u16-Holds (length d) (u8-Holds tag h)))),
          ground arith,
        )
      ]

mod_mod : (x : ℕ) → x % 256 % 256 ≡ x % 256
mod_mod x = omega arith

write_u32_field-Holds :
    (w : BufWriter) {bs : List ℕ} (tag v : ℕ)
    → Holds w bs
    → Holds (write_u32_field w tag v) (bs ++ field_bytes tag (some (be32 v)))
unfolding write_u32_field
write_u32_field-Holds w {bs} tag v h =
    rw (← bytes_eq)
      (u8-Holds _ (u8-Holds _ (u8-Holds _ (u8-Holds _ (u16-Holds 4 (u8-Holds tag h))))))
  where
    bytes_eq :
        (((((bs ++ tag % 256 ∷ []) ++ be16 4) ++ v / 0x1000000 % 256 % 256 ∷ [])
              ++ v / 0x10000 % 256 % 256 ∷ [])
            ++ v / 256 % 256 % 256 ∷ [])
          ++ v % 256 % 256 ∷ []
        ≡ bs ++ field_bytes tag (some (be32 v))
    bytes_eq = simp (append_assoc, mod_mod)

end_fields-Holds :
    (w : BufWriter) {bs : List ℕ} → Holds w bs → Holds (end_fields w) (bs ++ row_bytes [])
unfolding end_fields
end_fields-Holds w {bs} h =
    rw (← append_assoc bs (f_end ∷ []) (0 ∷ 0 ∷ [])) (u16-Holds 0 (u8-Holds f_end h))

-- A finished record body is the bytes of its row of fields, each of which fits its length field.
pub encode_items-row :
    (codec : TextCodec) (w : BufWriter) (is : List Item) {bs out : List ℕ}
    → Holds w bs
    → encode_items codec w is ≡ ok out
    → (out ≡ bs ++ row_bytes (row codec is)) × All Fits (row codec is)
encode_items-row codec w [] h e =
    (sym (ok-injective e) ∙ Holds-to_uint8_array (end_fields-Holds w h), tt)
encode_items-row codec w (str tag s ∷ is) {bs} h e =
    let (w', wrote, e') = >>=-eq-ok (write_str_field codec w tag s) _ e in
    let (h', fits) = write_str_field-Holds codec w tag s h wrote in
    let (q, all_fit) = encode_items-row codec w' is h' e' in
    (q ∙ append_assoc bs _ _, (fits, all_fit))
encode_items-row codec w (num tag v ∷ is) {bs} h e =
    let (q, all_fit) =
      encode_items-row codec (write_u32_field w tag v) is (write_u32_field-Holds w tag v h) e in
    (q ∙ append_assoc bs _ _, (omega arith, all_fit))
