-- ===== src/ImportExport/Zip/Total.antt =====
-- The search in a zip file ends (web/src/utils/importExport.ts).
use pwdnow_password_manager.Prelude.{
  ℕ, zero, suc, ◌+◌, ◌≤◌, ◌<◌, ◌≡◌, ◌≢◌, ◌⊎◌, inl, inr, refl, List, Bool, true, false, Option, ltb,
  not, ◌==◌, leb, length, slice, Result, ok, err, ◌>>=◌, Bool-cases, arith, if◌then◌else◌,
}
use pwdnow_password_manager.Text.{TextCodec, text_eq}
use pwdnow_password_manager.ImportExport.Zip.{
  ZipError, range_error, out_of_fuel, get_uint16_le, get_uint32_le, extract_loop, extract_from_zip,
}

abbrev Reads : Result ZipError ℕ → Type 0
Reads r = (r ≡ err range_error) ⊎ ((v : ℕ) × (r ≡ ok v))

if-Reads : (b : Bool) (v : ℕ) → Reads (if b then ok v else err range_error)
if-Reads true v = inr (v, refl)
if-Reads false v = inl refl

get_uint16_le-Reads : (bytes : List ℕ) (i : ℕ) → Reads (get_uint16_le bytes i)
unfolding get_uint16_le
get_uint16_le-Reads bytes i = if-Reads (leb (i + 2) (length bytes)) _

get_uint32_le-Reads : (bytes : List ℕ) (i : ℕ) → Reads (get_uint32_le bytes i)
unfolding get_uint32_le
get_uint32_le-Reads bytes i = if-Reads (leb (i + 4) (length bytes)) _

-- An outcome of the source.
abbrev pub IsOutcome : Result ZipError (Option (List ℕ)) → Type 0
IsOutcome r = r ≢ err out_of_fuel

-- A read that fails ends the search, and what follows one that succeeds is an outcome.
read-IsOutcome :
    (r : Result ZipError ℕ) (next : ℕ → Result ZipError (Option (List ℕ)))
    → Reads r
    → ((v : ℕ) → IsOutcome (next v))
    → IsOutcome (r >>= next)
read-IsOutcome (ok v) next reads h = h v
read-IsOutcome (err range_error) next reads h = λ e. ground arith
read-IsOutcome (err out_of_fuel) next (inl e) h = absurd (ground arith)
read-IsOutcome (err out_of_fuel) next (inr (v, e)) h = absurd (ground arith)

if-IsOutcome :
    (b : Bool) (x y : Result ZipError (Option (List ℕ)))
    → IsOutcome x
    → IsOutcome y
    → IsOutcome (if b then x else y)
if-IsOutcome true x y h k = h
if-IsOutcome false x y h k = k

extract_loop-IsOutcome :
    (codec : TextCodec) (bytes target : List ℕ) (f offset : ℕ)
    → 1 ≤ f
    → length bytes ≤ f + offset
    → IsOutcome (extract_loop codec bytes target f offset)
unfolding extract_loop
extract_loop-IsOutcome codec bytes target zero offset some_fuel enough = absurd (omega arith)
extract_loop-IsOutcome codec bytes target (suc f) offset some_fuel enough =
    elim (Bool-cases (ltb (offset + 4) (length bytes))) [
      | inr end ↦ rw end (λ e. ground arith)
      | inl more ↦
          let inside : offset + 4 < length bytes = ground arith in
          rw more (
            read-IsOutcome (get_uint32_le bytes offset) _ (get_uint32_le-Reads bytes offset) (λ sig.
              if-IsOutcome (not (sig == 0x04034B50)) _ _
                (extract_loop-IsOutcome codec bytes target f (offset + 1) (omega arith)
                  (omega arith))
                (read-IsOutcome (get_uint16_le bytes (offset + 26)) _
                  (get_uint16_le-Reads bytes (offset + 26))
                  (λ n.
                    read-IsOutcome (get_uint16_le bytes (offset + 28)) _
                      (get_uint16_le-Reads bytes (offset + 28))
                      (λ x.
                        read-IsOutcome (get_uint32_le bytes (offset + 18)) _
                          (get_uint32_le-Reads bytes (offset + 18))
                          (λ c.
                            if-IsOutcome
                              (text_eq (codec.decode (slice (offset + 30) (offset + 30 + n) bytes))
                                target)
                              _ _ (λ e. ground arith)
                              (extract_loop-IsOutcome codec bytes target f (offset + 30 + n + x + c)
                                (omega arith) (omega arith))))))))
    ]

-- The search ends on any bytes: looking for an entry in any file gives its content, or nothing, or
-- the error of a read past the end, and the fuel does not run out.
pub extract_from_zip-IsOutcome :
    (codec : TextCodec) (bytes target : List ℕ) → IsOutcome (extract_from_zip codec bytes target)
unfolding extract_from_zip
extract_from_zip-IsOutcome codec bytes target =
    extract_loop-IsOutcome codec bytes target (length bytes + 1) 0 (omega arith) (omega arith)
