-- ===== src/Tests/Repository.antt =====
-- Handles of files and the redaction of secrets at concrete inputs.
use token_shrinker.Prelude.{
  ◌≡◌, refl, inl, inr, Bool, true, false, List, [], ◌∷◌, ◌++◌, map, All, some, ok, err, arith,
}
use token_shrinker.Prelude.Bytes.{Bytes, ascii}
use token_shrinker.Prelude.Unicode.{Unicode}
use token_shrinker.Compress.Lines.{lines_of}
use token_shrinker.Repo.Paths.{
  PathComponent, normal, normalized_relative, encode_path, decode_relative_path,
  invalid_encoded_path,
}
use token_shrinker.Repo.Paths.Laws.{
  IsNormal, ComponentIsNormal, decode_relative_path-IsNormal, decode_relative_path-encode_path,
}
use token_shrinker.Repo.Redaction.{is_sensitive_key, redact_assignments}
use token_shrinker.Repo.Redaction.Laws.{AreAlike, redact_assignments-AreAlike}

abbrev is_utf8 : Bytes → Bool
is_utf8 _ = true

abbrev components : List PathComponent
components = normal (ascii "a b") ∷ normal (ascii "c.rs") ∷ []

encodes : encode_path (ascii "a b/c.rs") ≡ ascii "a%20b/c.rs"
unfolding encode_path
encodes = refl

decodes : decode_relative_path is_utf8 (ascii "a%20b/c.rs") ≡ ok (ascii "a b" ∷ ascii "c.rs" ∷ [])
unfolding decode_relative_path
decodes = refl

-- An encoded way to the parent directory is refused.
refuses_parent : decode_relative_path is_utf8 (ascii "a/%2e%2E/b") ≡ err invalid_encoded_path
unfolding decode_relative_path
refuses_parent = refl

decode_relative_path-IsNormal_example : All IsNormal (ascii "a b" ∷ ascii "c.rs" ∷ [])
decode_relative_path-IsNormal_example =
    decode_relative_path-IsNormal is_utf8 (ascii "a%20b/c.rs") (ascii "a b" ∷ ascii "c.rs" ∷ [])
      decodes

components-IsNormal : All ComponentIsNormal components
components-IsNormal =
    (record { accepted = refl; whole = refl }, (record { accepted = refl; whole = refl }, tt))

normalizes : normalized_relative is_utf8 components ≡ some (ascii "a b/c.rs")
unfolding normalized_relative
normalizes = refl

decode_relative_path-encode_path_example :
    (parts : List Bytes) × (map normal parts ≡ components)
    × (decode_relative_path is_utf8 (encode_path (ascii "a b/c.rs")) ≡ ok parts)
decode_relative_path-encode_path_example =
    decode_relative_path-encode_path is_utf8 components (ascii "a b/c.rs") components-IsNormal
      normalizes (omega arith) refl

abbrev unicode : Unicode
unicode = record { lossy = λ t. t; to_lowercase = λ t. t; trim = λ t. t; trim_start = λ t. t }

abbrev text : Bytes → Bytes
text value = ascii "x: 1" ++ (10 ∷ ascii "API_KEY=" ++ (value ++ (10 ∷ ascii "end")))

redacts :
    redact_assignments unicode (text (ascii "abc"))
    ≡ record { content = text (ascii "[REDACTED]"); redactions = 1 }
unfolding redact_assignments
redacts = refl

-- Only the first separator of a line counts: a secret after another key stays.
keeps_second_key :
    redact_assignments unicode (ascii "a: 1, token=abc")
    ≡ record { content = ascii "a: 1, token=abc"; redactions = 0 }
unfolding redact_assignments
keeps_second_key = refl

texts-AreAlike : AreAlike unicode (lines_of (text (ascii "abc"))) (lines_of (text (ascii "z9")))
unfolding lines_of is_sensitive_key
texts-AreAlike = (
  inl refl,
  (
    inr (record {
      before = ascii "API_KEY";
      separator = b'=';
      plain = refl;
      separates = refl;
      sensitive = refl;
      quoted = false;
      comma = false;
      left = ascii "abc";
      right = ascii "z9";
      left_value = record { present = refl; quote = refl; end = refl };
      right_value = record { present = refl; quote = refl; end = refl };
      x_is = refl;
      y_is = refl;
    }),
    (refl, inl refl),
  ),
)

redact_assignments-AreAlike_example :
    redact_assignments unicode (text (ascii "abc")) ≡ redact_assignments unicode (text (ascii "z9"))
redact_assignments-AreAlike_example =
    redact_assignments-AreAlike unicode (text (ascii "abc")) (text (ascii "z9")) texts-AreAlike
