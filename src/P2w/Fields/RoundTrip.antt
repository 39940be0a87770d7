-- ===== src/P2w/Fields/RoundTrip.antt =====
-- Reading a row of fields back: every field is found under its tag.
use pwdnow_password_manager.Prelude.{
  ℕ, zero, suc, ◌/◌, ◌%◌, ◌^◌, or_else, ◌<◌, ◌≤◌, ◌≡◌, refl, ◌∙◌, List, [], ◌∷◌, ◌++◌, Bool, true,
  false, ◌&&◌, Option, none, some, length, ltb, ◌==◌, ok, All, arith, if◌then◌else◌, length-append,
}
use pwdnow_password_manager.Text.{TextCodec, is_plain}
use pwdnow_password_manager.P2w.Format.{f_end}
use pwdnow_password_manager.P2w.Writer.Contents.{be32}
use pwdnow_password_manager.P2w.Reader
use pwdnow_password_manager.P2w.Reader.{BufReader}
use pwdnow_password_manager.P2w.Reader.Views.{
  Sees, Sees-remaining, Sees-advance, u8_lem, u16_lem, bytes_lem, new-Sees,
}
use pwdnow_password_manager.P2w.Fields.{
  FieldMap, get, set, read_fields_loop, read_fields, str_f, u32_f,
}
use pwdnow_password_manager.P2w.Fields.Written.{Row, Fits, row_bytes, present}

-- The tags are below the end mark.
abbrev pub tags_below : Row → Bool
tags_below [] = true
tags_below ((tag, v) ∷ r) = ltb tag f_end && tags_below r

-- The map that reading the row leaves behind.
abbrev pub set_all : FieldMap → Row → FieldMap
set_all m [] = m
set_all m ((tag, none) ∷ r) = set_all m r
set_all m ((tag, some v) ∷ r) = set_all (set m tag v) r

field_step :
    (fuel : ℕ) (r : BufReader) (m : FieldMap) (tag : ℕ) (v bs : List ℕ)
    → tag < f_end
    → length v < 0x10000
    → Sees r (tag ∷ length v / 256 % 256 ∷ length v % 256 ∷ (v ++ bs))
    → (r' : BufReader) × Sees r' bs
      × (read_fields_loop (suc fuel) r m ≡ read_fields_loop fuel r' (set m tag v))
unfolding read_fields_loop
field_step fuel r m tag v bs ht hv s =
    let s1 = Sees-advance (tag ∷ []) _ s refl in
    let s2 = Sees-advance (length v / 256 % 256 ∷ length v % 256 ∷ []) (v ++ bs) s1 refl in
    let s3 = Sees-advance v bs s2 refl in
    (
      _,
      s3,
      ground (
        arith,
        u8_lem tag _ s,
        u16_lem (length v) (v ++ bs) hv s1,
        bytes_lem v bs s2,
        Sees-remaining s,
        Sees-remaining s2,
        length-append v bs,
      ),
    )

end_step :
    (fuel : ℕ) (r : BufReader) (m : FieldMap)
    → Sees r (row_bytes [])
    → (r' : BufReader) × (read_fields_loop (suc fuel) r m ≡ ok (m, r')) × (Reader.remaining r' ≡ 0)
unfolding read_fields_loop
end_step fuel r m s =
    let s1 = Sees-advance (f_end ∷ []) _ s refl in
    let s2 = Sees-advance (0 ∷ 0 ∷ []) [] s1 refl in
    (
      _,
      ground (arith, u8_lem f_end _ s, u16_lem 0 [] (omega arith) s1, Sees-remaining s),
      Sees-remaining s2,
    )

loop-row :
    (es : Row) (fuel : ℕ) (r : BufReader) (m : FieldMap)
    → tags_below es ≡ true
    → All Fits es
    → length (row_bytes es) ≤ fuel
    → Sees r (row_bytes es)
    → (r' : BufReader) × (read_fields_loop fuel r m ≡ ok (set_all m es, r'))
      × (Reader.remaining r' ≡ 0)
loop-row [] zero r m below fits enough s = absurd (omega arith)
loop-row [] (suc fuel) r m below fits enough s = end_step fuel r m s
loop-row ((tag, none) ∷ es) fuel r m below fits enough s =
    loop-row es fuel r m (ground arith) fits.1 enough s
loop-row ((tag, some v) ∷ es) zero r m below fits enough s = absurd (omega arith)
loop-row ((tag, some v) ∷ es) (suc fuel) r m below fits enough s =
    let lt : tag < f_end = ground arith in
    let same : tag % 256 ≡ tag = omega arith in
    let (r1, s1, step) = field_step fuel r m tag v (row_bytes es) lt fits.0 (rw same at s) in
    let (r2, e, at_end) =
      loop-row es fuel r1 (set m tag v) (ground arith) fits.1
        (omega (arith, length-append v (row_bytes es))) s1 in
    (r2, step ∙ e, at_end)

get-set :
    (m : FieldMap) (t u : ℕ) (v : List ℕ) → get (set m t v) u ≡ (if t == u then some v else get m u)
unfolding get set
get-set [] t u v = refl
get-set ((t', v') ∷ m) t u v = ground (arith, get-set m t u v)

-- The value of a row under a tag, and that no field has a tag.
abbrev pub find : Row → ℕ → Option (List ℕ)
find [] u = none
find ((t, v) ∷ es) u = if t == u then v else find es u

abbrev lacks : ℕ → Row → Bool
lacks u [] = true
lacks u ((t, v) ∷ es) = (if t == u then false else true) && lacks u es

abbrev pub distinct : Row → Bool
distinct [] = true
distinct ((t, v) ∷ es) = lacks t es && distinct es

get-set_all-lacks :
    (es : Row) (m : FieldMap) (u : ℕ) → lacks u es ≡ true → get (set_all m es) u ≡ get m u
get-set_all-lacks [] m u h = refl
get-set_all-lacks ((t, none) ∷ es) m u h = get-set_all-lacks es m u (ground arith)
get-set_all-lacks ((t, some v) ∷ es) m u h =
    get-set_all-lacks es (set m t v) u (ground arith) ∙ ground (arith, get-set m t u v)

get-set_all :
    (es : Row) (m : FieldMap) (u : ℕ)
    → distinct es ≡ true
    → get m u ≡ none
    → get (set_all m es) u ≡ find es u
get-set_all [] m u d h = h
get-set_all ((t, none) ∷ es) m u d h =
    ground (arith, get-set_all es m u (ground arith) h, get-set_all-lacks es m t (ground arith))
get-set_all ((t, some v) ∷ es) m u d h =
    ground
      (arith, get-set m t u v, get-set_all es (set m t v) u, get-set_all-lacks es (set m t v) t)

-- Reading the bytes of a row ends at their end, and finds every field under its tag.
pub read_fields-row :
    (es : Row)
    → tags_below es ≡ true
    → distinct es ≡ true
    → All Fits es
    → (m : FieldMap) × (r' : BufReader) × (read_fields (Reader.new (row_bytes es)) ≡ ok (m, r'))
      × (Reader.remaining r' ≡ 0)
      × ((u : ℕ) → get m u ≡ find es u)
unfolding read_fields get
read_fields-row es below d fits =
    let s = new-Sees (row_bytes es) in
    let (r', e, at_end) =
      loop-row es (suc (Reader.remaining (Reader.new (row_bytes es)))) _ [] below fits
        (omega (arith, Sees-remaining s)) s in
    (set_all [] es, r', e, at_end, λ u. get-set_all es [] u d refl)

-- A written text reads back, an absent one as the empty text.
pub str_f-present :
    (codec : TextCodec) (m : FieldMap) (tag : ℕ) (s : Option (List ℕ))
    → is_plain (or_else s []) ≡ true
    → get m tag ≡ present codec s
    → str_f codec m tag ≡ or_else s []
unfolding str_f
str_f-present codec m tag none h e = rw (e, str_f)
str_f-present codec m tag (some []) h e = rw (e, str_f)
str_f-present codec m tag (some (c ∷ s)) h e = rw (e, str_f) (codec.decode-encode (c ∷ s) h)

pub u32_f-be32 :
    (m : FieldMap) (tag v : ℕ) → v < 2 ^ 32 → get m tag ≡ some (be32 v) → u32_f m tag ≡ v
unfolding u32_f
u32_f-be32 m tag v h e = rw (e, u32_f) (omega arith)
