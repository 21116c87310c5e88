-- ===== src/Repo/Redaction.antt =====
-- crates/ts-repo/src/lib.rs: `redact_assignments`, which takes the values of secrets out of a text. Its
-- separators, letters and digits are ASCII, so a text is read by its bytes.
pub mod Laws
use token_shrinker.Prelude.{
  ℕ, suc, ◌+◌, Bool, true, false, ◌&&◌, ◌||◌, not, Option, none, some, List, [], ◌∷◌, ◌++◌, map,
  any, filter, ◌==◌, if◌then◌else◌,
}
use token_shrinker.Prelude.Bytes.{
  Bytes, ascii, eq_bytes, is_empty, is_ascii_alphanumeric, to_ascii_lowercase,
}
use token_shrinker.Prelude.Unicode.{Unicode}
use token_shrinker.Compress.Lines.{newline, lines_of}

pub record RedactionResult : Type 0 where
  pub content : Bytes
  pub redactions : ℕ

abbrev pub is_separator : ℕ → Bool
is_separator b = b == b'=' || b == b':'

-- A line as `line.find(['=', ':'])` divides it: before the separator, the separator, and after it.
pub record Assignment : Type 0 where
  pub before : Bytes
  pub separator : ℕ
  pub after : Bytes

abbrev pub later : ℕ → Option Assignment → Option Assignment
later b none = none
later b (some a) = some (record a { before = b ∷ a.before })

unfoldable pub find_separator : Bytes → Option Assignment
find_separator [] = none
find_separator (b ∷ bs) =
    let rest = find_separator bs in
    if is_separator b
    then some (record { before = []; separator = b; after = bs })
    else later b rest

-- `ends_with`
abbrev pub ends_with : Bytes → Bytes → Bool
ends_with [] suffix = is_empty suffix
ends_with (b ∷ bs) suffix = eq_bytes (b ∷ bs) suffix || ends_with bs suffix

abbrev pub sensitive_suffixes : List Bytes
sensitive_suffixes =
    ascii "password"
    ∷ ascii "secret"
    ∷ ascii "token"
    ∷ ascii "apikey"
    ∷ ascii "accesstoken"
    ∷ ascii "privatekey"
    ∷ []

unfoldable pub is_sensitive_key : Bytes → Bool
is_sensitive_key key = any (ends_with key) sensitive_suffixes

-- The letters and digits before the separator, in lower case.
abbrev pub key_of : Bytes → Bytes
key_of before = map to_ascii_lowercase (filter is_ascii_alphanumeric before)

-- The double quote and the single one.
abbrev pub starts_with_quote : Bytes → Bool
starts_with_quote [] = false
starts_with_quote (b ∷ bs) = b == 34 || b == 39

-- What stands for a value: only whether it is quoted, and whether a comma ends it, is kept.
abbrev pub placeholder : Bool → Bool → Bytes
placeholder true true = ascii " \"[REDACTED]\","
placeholder true false = ascii " \"[REDACTED]\""
placeholder false _ = ascii "[REDACTED]"

module _ (unicode : Unicode) where
  abbrev pub is_secret : Assignment → Bool
  unfolding is_sensitive_key
  is_secret a = is_sensitive_key (key_of a.before) && not (is_empty (unicode.trim a.after))

  abbrev pub redacted : Assignment → Bytes
  redacted a =
      let value = unicode.trim a.after in
      a.before
      ++ (a.separator ∷ placeholder (starts_with_quote value) (ends_with value (ascii ",")))

  abbrev pub redact_found : Bytes → Option Assignment → Bytes × Bool
  unfolding is_secret
  redact_found line none = (line, false)
  redact_found line (some a) = if is_secret a then (redacted a, true) else (line, false)

  -- The body of the loop, on a line without its newline: the line, and whether it was redacted.
  unfoldable pub redact_line : Bytes → Bytes × Bool
  unfolding find_separator redact_found
  redact_line line = redact_found line (find_separator line)

  abbrev pub put_line : Bytes × Bool → Bytes → RedactionResult → RedactionResult
  put_line (line, was_redacted) end rest = record {
    content = line ++ (end ++ rest.content);
    redactions = if was_redacted then suc rest.redactions else rest.redactions;
  }

  -- The complete lines of the text, and then the last line if it has no newline.
  unfoldable pub redact_lines : List Bytes → Bytes → RedactionResult
  unfolding redact_line
  redact_lines [] [] = record { content = []; redactions = 0 }
  redact_lines [] (b ∷ partial) =
      put_line (redact_line (b ∷ partial)) [] (record { content = []; redactions = 0 })
  redact_lines (line ∷ lines) partial =
      put_line (redact_line line) (newline ∷ []) (redact_lines lines partial)

  unfoldable pub redact_assignments : Bytes → RedactionResult
  unfolding redact_lines lines_of
  redact_assignments content = let split = lines_of content in redact_lines split.0 split.1
