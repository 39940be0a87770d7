-- ===== src/ImportExport/Zip/RoundTrip.antt =====
-- The zip reader finds what the zip writer wrote (web/src/utils/importExport.ts).
use pwdnow_password_manager.Prelude.{
  ℕ, suc, ◌+◌, ◌-◌, ◌<◌, ◌≡◌, refl, ◌∙◌, sym, ap, List, ◌++◌, true, some, ltb, leb, length, slice,
  take, drop, ok, arith, le→leb, lt→ltb, length-append, take-append, drop-append, append_assoc,
}
use pwdnow_password_manager.Text.{TextCodec, text_eq, text_eq_refl, is_plain}
use pwdnow_password_manager.ImportExport.Zip.{
  LocalDate, local_header, central_header, end_record, create_single_file_zip, get_uint16_le,
  get_uint32_le, extract_loop, extract_from_zip,
}

-- A part of a list behind a front of known length.
slice-behind {ℓ} :
    {A : Type ℓ} (front part rest : List A) (from to : ℕ)
    → from ≡ length front
    → to ≡ length front + length part
    → slice from to (front ++ (part ++ rest)) ≡ part
slice-behind front part rest from to start stop =
    let n : to - from ≡ length part = omega arith in
    ap (λ m. take (to - from) (drop m (front ++ (part ++ rest)))) start
    ∙ ap (take (to - from)) (drop-append front (part ++ rest))
    ∙ ap (λ m. take m (part ++ rest)) n
    ∙ take-append part rest

module _ (d : LocalDate) (name content rest : List ℕ) where
  -- The file from its local header on.
  abbrev file : List ℕ
  file = local_header d name content ++ rest

  length-file : length file ≡ 30 + length rest
  length-file = omega arith

  signature : get_uint32_le file 0 ≡ ok 0x04034B50
  unfolding get_uint32_le
  signature =
      let inside : leb (0 + 4) (length file) ≡ true =
        le→leb (0 + 4) (length file) (omega (arith, length-file)) in
      rw inside refl

  name_length : length name < 65536 → get_uint16_le file 26 ≡ ok (length name)
  unfolding get_uint16_le
  name_length small =
      let inside : leb (26 + 2) (length file) ≡ true =
        le→leb (26 + 2) (length file) (omega (arith, length-file)) in
      rw inside (ap ok (omega arith))

  extra_length : get_uint16_le file 28 ≡ ok 0
  unfolding get_uint16_le
  extra_length =
      let inside : leb (28 + 2) (length file) ≡ true =
        le→leb (28 + 2) (length file) (omega (arith, length-file)) in
      rw inside refl

  content_length : length content < 0x100000000 → get_uint32_le file 18 ≡ ok (length content)
  unfolding get_uint32_le
  content_length small =
      let inside : leb (18 + 4) (length file) ≡ true =
        le→leb (18 + 4) (length file) (omega (arith, length-file)) in
      rw inside (ap ok (omega arith))

-- The reader at the start of a file whose local header names the target.
extract_loop-first :
    (codec : TextCodec) (d : LocalDate) (filename content tail : List ℕ) (f : ℕ)
    → is_plain filename ≡ true
    → length (codec.encode filename) < 65536
    → length content < 0x100000000
    → extract_loop codec
        (local_header d (codec.encode filename) content
          ++ (codec.encode filename ++ (content ++ tail)))
        filename
        (suc f)
        0
      ≡ ok (some content)
unfolding extract_loop
extract_loop-first codec d filename content tail f plain short small =
    let name = codec.encode filename in
    let rest = name ++ (content ++ tail) in
    let header = local_header d name content in
    let bytes = header ++ rest in
    let inside : ltb (0 + 4) (length bytes) ≡ true =
      lt→ltb (0 + 4) (length bytes) (omega (arith, length-file d name content rest)) in
    let n = 30 + length name in
    let name_read : slice 30 (30 + length name) bytes ≡ name =
      slice-behind header name (content ++ tail) 30 (30 + length name) refl refl in
    let named : text_eq (codec.decode (slice 30 (30 + length name) bytes)) filename ≡ true =
      ap (λ s. text_eq (codec.decode s) filename) name_read
      ∙ ap (λ s. text_eq s filename) (codec.decode-encode filename plain)
      ∙ text_eq_refl filename in
    let content_read : slice (30 + length name + 0) (30 + length name + 0 + length content) bytes
        ≡ content =
      ap (slice (30 + length name + 0) (30 + length name + 0 + length content))
        (sym (append_assoc header name (content ++ tail)))
      ∙ slice-behind (header ++ name) content tail (30 + length name + 0)
          (30 + length name + 0 + length content) (omega (arith, length-append header name))
          (omega (arith, length-append header name)) in
    rw
      (
        inside,
        signature d name content rest,
        name_length d name content rest short,
        extra_length d name content rest,
        content_length d name content rest small,
        named,
      )
      (ap (λ c. ok (some c)) content_read)

-- Zip files are read back: with a name and a content that the header's fields can count, and a name
-- that survives encoding, looking for the name in the file that was made of them gives the
-- content.
pub extract_from_zip-create_single_file_zip :
    (codec : TextCodec) (d : LocalDate) (filename content : List ℕ)
    → is_plain filename ≡ true
    → length (codec.encode filename) < 65536
    → length content < 0x100000000
    → extract_from_zip codec (create_single_file_zip codec d filename content) filename
      ≡ ok (some content)
unfolding extract_from_zip create_single_file_zip
extract_from_zip-create_single_file_zip codec d filename content plain short small =
    let name = codec.encode filename in
    let bytes = create_single_file_zip codec d filename content in
    let tail =
      central_header d name content
      ++ name
      ++ end_record (46 + length name) (30 + length name + length content) in
    let fuel : length bytes + 1 ≡ suc (length bytes) = omega arith in
    ap (λ f. extract_loop codec bytes filename f 0) fuel
    ∙ extract_loop-first codec d filename content tail (length bytes) plain short small
