-- ===== src/Compress/Artifacts/Names.antt =====
-- crates/ts-compress/src/lib.rs: the name of an artifact's file and its handle, `validate_handle`.
use token_shrinker.Prelude.{
  ℕ, ◌/◌, ◌%◌, ◌≡◌, ◌≢◌, refl, sym, ap, ◌∙◌, ◌<◌, Bool, true, ◌&&◌, not, [], ◌∷◌, ◌++◌, length, all,
  All, ok, arith, Bool-cases, inl, inr,
}
use token_shrinker.Prelude.Bytes.{
  Bytes, ascii, eq_bytes, eq_bytes_iff, IsByte, is_ascii_hexdigit, is_ascii_uppercase,
}
use token_shrinker.Prelude.Decimal.{decimal}
use token_shrinker.Prelude.Texts.{rsplit_once, rsplit_once-append}
use token_shrinker.Prelude.Pieces.{append_assoc}
use token_shrinker.Context.ContentHash.{hex, hex_digit}
use token_shrinker.Context.ContentHash.Laws.{length-hex}
use token_shrinker.Repo.Redaction.{ends_with}
use token_shrinker.Compress.Artifacts.{
  RawFile, is_raw, handle_suffix, artifact_handle, artifact_file, validate_handle,
}

ends_with-append : (x suffix : Bytes) → suffix ≢ [] → ends_with (x ++ suffix) suffix ≡ true
ends_with-append [] [] n = absurd (n refl)
ends_with-append [] (b ∷ suffix) n = rw ((eq_bytes_iff (b ∷ suffix) (b ∷ suffix)).1 refl) refl
ends_with-append (a ∷ x) suffix n = elim (Bool-cases (eq_bytes (a ∷ (x ++ suffix)) suffix)) [
  | inl e ↦ rw e refl
  | inr e ↦ rw (e, ends_with-append x suffix n) refl
]

is_raw-append : (stem : Bytes) → stem ≢ [] → is_raw (stem ++ ascii ".raw") ≡ true
unfolding is_raw rsplit_once
is_raw-append [] n = absurd (n refl)
is_raw-append (b ∷ stem) n =
    rw (rsplit_once-append (ascii ".") (b ∷ stem) (ascii ".raw") (ascii "raw") refl) refl

-- A digest in hexadecimal has the form of a handle.
abbrev is_handle_byte : ℕ → Bool
is_handle_byte byte = is_ascii_hexdigit byte && not (is_ascii_uppercase byte)

hex_digit-is_handle_byte : (n : ℕ) → n < 16 → is_handle_byte (hex_digit n) ≡ true
hex_digit-is_handle_byte n h = ground arith

hex-all : (bytes : Bytes) → All IsByte bytes → all is_handle_byte (hex bytes) ≡ true
unfolding hex
hex-all [] a = refl
hex-all (b ∷ bytes) (h, a) =
    rw
      (
        hex_digit-is_handle_byte (b / 16) (omega arith),
        hex_digit-is_handle_byte (b % 16) (omega arith),
        hex-all bytes a,
      )
      refl

pub validate_handle-hex :
    (bytes : Bytes) → length bytes ≡ 32 → All IsByte bytes → validate_handle (hex bytes) ≡ ok tt
unfolding validate_handle
validate_handle-hex bytes l a =
    let n : length (hex bytes) ≡ 64 = omega (arith, length-hex bytes) in
    rw (n, hex-all bytes a) refl

module _ (sha256 : Bytes → Bytes) (now written_at : ℕ) (content : Bytes) where
  abbrev kept_file : RawFile
  kept_file = artifact_file sha256 now written_at content

  abbrev kept_handle : Bytes
  kept_handle = (artifact_handle sha256 now content).value

  pub kept_file-is_raw : is_raw (kept_file.name) ≡ true
  kept_file-is_raw =
      ap is_raw (sym (append_assoc (decimal now) (ascii "-" ++ kept_handle) (ascii ".raw")))
      ∙ is_raw-append (decimal now ++ (ascii "-" ++ kept_handle)) (present (decimal now))
    where
      present : (d : Bytes) → (d ++ (ascii "-" ++ kept_handle)) ≢ []
      present [] e = cc
      present (b ∷ d) e = cc

  pub kept_file-ends : ends_with (kept_file.name) (handle_suffix kept_handle) ≡ true
  kept_file-ends = ends_with-append (decimal now) (handle_suffix kept_handle) (λ e. cc)
