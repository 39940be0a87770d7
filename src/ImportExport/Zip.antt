-- ===== src/ImportExport/Zip.antt =====
-- The zip container of a 1PUX file: crc32, createSingleFileZip and extractFromZip of
-- web/src/utils/importExport.ts. Bytes are numbers; the text codec and the date are arguments.
pub mod RoundTrip
pub mod Total
use Prim.Native.Nat.{bit_or, bit_xor}
use pwdnow_password_manager.Prelude.{
  ℕ, zero, suc, ◌+◌, ◌-◌, ◌*◌, ◌/◌, ◌%◌, ◌≡◌, refl, List, [], ◌∷◌, ◌++◌, Bool, true, false, not,
  Option, none, some, ltb, leb, ◌==◌, if◌then◌else◌, length, slice, get_or, Result, ok, err, ◌>>=◌,
}
use pwdnow_password_manager.Text.{text, text_eq, TextCodec}

-- One bit and one byte of the checksum.
unfoldable pub crc_bits : ℕ → ℕ → ℕ
crc_bits zero c = c
crc_bits (suc k) c = crc_bits k (if c % 2 == 1 then bit_xor (c / 2) 0xEDB88320 else c / 2)

unfoldable pub crc_loop : ℕ → List ℕ → ℕ
unfolding crc_bits
crc_loop c [] = c
crc_loop c (b ∷ bytes) = crc_loop (crc_bits 8 (bit_xor c b)) bytes

unfoldable pub crc32 : List ℕ → ℕ
unfolding crc_loop
crc32 bytes = bit_xor (crc_loop 0xFFFFFFFF bytes) 0xFFFFFFFF

abbrev pub u16_le : ℕ → List ℕ
u16_le n = n % 256 ∷ n / 256 % 256 ∷ []

abbrev pub u32_le : ℕ → List ℕ
u32_le n = n % 256 ∷ n / 256 % 256 ∷ n / 0x10000 % 256 ∷ n / 0x1000000 % 256 ∷ []

-- A local date from 1980 on, its month counted from 1.
pub record LocalDate : Type 0 where
  pub year : ℕ
  pub month : ℕ
  pub day : ℕ
  pub hours : ℕ
  pub minutes : ℕ
  pub seconds : ℕ

abbrev pub dos_date : LocalDate → ℕ
dos_date d = bit_or (bit_or ((d.year - 1980) * 512) (d.month * 32)) d.day

abbrev pub dos_time : LocalDate → ℕ
dos_time d = bit_or (bit_or (d.hours * 2048) (d.minutes * 32)) (d.seconds / 2)

-- The local file header without the name.
abbrev pub local_header : LocalDate → List ℕ → List ℕ → List ℕ
local_header d name content =
    u32_le 0x04034B50
    ++ u16_le 20
    ++ u16_le 0
    ++ u16_le 0
    ++ u16_le (dos_time d)
    ++ u16_le (dos_date d)
    ++ u32_le (crc32 content)
    ++ u32_le (length content)
    ++ u32_le (length content)
    ++ u16_le (length name)
    ++ u16_le 0

abbrev pub central_header : LocalDate → List ℕ → List ℕ → List ℕ
central_header d name content =
    u32_le 0x02014B50
    ++ u16_le 20
    ++ u16_le 20
    ++ u16_le 0
    ++ u16_le 0
    ++ u16_le (dos_time d)
    ++ u16_le (dos_date d)
    ++ u32_le (crc32 content)
    ++ u32_le (length content)
    ++ u32_le (length content)
    ++ u16_le (length name)
    ++ u16_le 0
    ++ u16_le 0
    ++ u16_le 0
    ++ u16_le 0
    ++ u32_le 0x20
    ++ u32_le 0

abbrev pub end_record : ℕ → ℕ → List ℕ
end_record directory_size directory_offset =
    u32_le 0x06054B50
    ++ u16_le 0
    ++ u16_le 0
    ++ u16_le 1
    ++ u16_le 1
    ++ u32_le directory_size
    ++ u32_le directory_offset
    ++ u16_le 0

unfoldable pub create_single_file_zip : TextCodec → LocalDate → List ℕ → List ℕ → List ℕ
create_single_file_zip codec d filename content =
    let name = codec.encode filename in
    local_header d name content
    ++ (name
        ++ (content
            ++ (central_header d name content
                ++ name
                ++ end_record (46 + length name) (30 + length name + length content))))

-- `range_error` is what a DataView throws for a read past its end; `out_of_fuel` is no outcome of
-- the source.
pub data ZipError : Type 0 where
  range_error : ZipError
  out_of_fuel : ZipError

abbrev pub byte_at : List ℕ → ℕ → ℕ
byte_at bytes i = get_or bytes i 0

unfoldable pub get_uint16_le : List ℕ → ℕ → Result ZipError ℕ
get_uint16_le bytes i =
    if leb (i + 2) (length bytes)
    then ok (byte_at bytes i + byte_at bytes (i + 1) * 256)
    else err range_error

unfoldable pub get_uint32_le : List ℕ → ℕ → Result ZipError ℕ
get_uint32_le bytes i =
    if leb (i + 4) (length bytes)
    then ok (
        byte_at bytes i
        + byte_at bytes (i + 1) * 256
        + byte_at bytes (i + 2) * 0x10000
        + byte_at bytes (i + 3) * 0x1000000)
    else err range_error

-- The loop from an offset on.
unfoldable pub extract_loop :
    TextCodec → List ℕ → List ℕ → ℕ → ℕ → Result ZipError (Option (List ℕ))
extract_loop codec bytes target zero offset = err out_of_fuel
extract_loop codec bytes target (suc f) offset =
    let skipped = extract_loop codec bytes target f (offset + 1) in
    if not (ltb (offset + 4) (length bytes)) then ok none else do
      sig ← get_uint32_le bytes offset
      if not (sig == 0x04034B50) then skipped else do
        name_len ← get_uint16_le bytes (offset + 26)
        extra_len ← get_uint16_le bytes (offset + 28)
        comp_size ← get_uint32_le bytes (offset + 18)
        let name = codec.decode (slice (offset + 30) (offset + 30 + name_len) bytes)
        let file_offset = offset + 30 + name_len + extra_len
        let later = extract_loop codec bytes target f (file_offset + comp_size)
        if text_eq name target
            then ok (some (slice file_offset (file_offset + comp_size) bytes))
            else later

-- More fuel than bytes.
unfoldable pub extract_from_zip : TextCodec → List ℕ → List ℕ → Result ZipError (Option (List ℕ))
unfolding extract_loop
extract_from_zip codec bytes target = extract_loop codec bytes target (length bytes + 1) 0
