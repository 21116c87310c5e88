-- ===== src/Repo/Redaction/Laws.antt =====
-- A redacted text does not depend on the values of its secrets.
use mathlib.Core.Path.{ap₂}
use token_shrinker.Prelude.{
  ℕ, ◌≡◌, refl, sym, ap, ◌∙◌, ◌⊎◌, inl, inr, Bool, true, false, some, List, [], ◌∷◌, ◌++◌, any,
  arith,
}
use token_shrinker.Prelude.Bytes.{Bytes, ascii, is_empty}
use token_shrinker.Prelude.Unicode.{Unicode}
use token_shrinker.Compress.Lines.{newline, lines_of}
use token_shrinker.Repo.Redaction.{
  is_separator, find_separator, is_sensitive_key, key_of, starts_with_quote, ends_with, placeholder,
  is_secret, redact_found, redact_line, put_line, redact_lines, redact_assignments,
}

find_separator-append :
    (before : Bytes) (separator : ℕ) (after : Bytes)
    → any is_separator before ≡ false
    → is_separator separator ≡ true
    → find_separator (before ++ (separator ∷ after))
      ≡ some (record { before = before; separator = separator; after = after })
unfolding find_separator
find_separator-append [] separator after n h = rw h refl
find_separator-append (b ∷ before) separator after n h =
    let here : is_separator b ≡ false = ground (arith, n) in
    rw (here, find_separator-append before separator after (ground (arith, n)) h) refl

module _ (unicode : Unicode) where
  -- The value of an assignment to a sensitive key, with its shape: not blank, quoted or not, with a
  -- comma at its end or not.
  pub record IsValue (quoted comma : Bool) (value : Bytes) : Type 0 where
    pub present : is_empty (unicode.trim value) ≡ false
    pub quote : starts_with_quote (unicode.trim value) ≡ quoted
    pub end : ends_with (unicode.trim value) (ascii ",") ≡ comma

  -- Two lines that assign values of one shape to the same sensitive key.
  pub record SameSecret (x y : Bytes) : Type 0 where
    pub before : Bytes
    pub separator : ℕ
    pub plain : any is_separator before ≡ false
    pub separates : is_separator separator ≡ true
    pub sensitive : is_sensitive_key (key_of before) ≡ true
    pub quoted : Bool
    pub comma : Bool
    pub left : Bytes
    pub right : Bytes
    pub left_value : IsValue quoted comma left
    pub right_value : IsValue quoted comma right
    pub x_is : x ≡ before ++ (separator ∷ left)
    pub y_is : y ≡ before ++ (separator ∷ right)

  redact_line-secret :
      (before : Bytes) (separator : ℕ) (value : Bytes) (quoted comma : Bool)
      → any is_separator before ≡ false
      → is_separator separator ≡ true
      → is_sensitive_key (key_of before) ≡ true
      → IsValue quoted comma value
      → redact_line unicode (before ++ (separator ∷ value))
        ≡ (before ++ (separator ∷ placeholder quoted comma), true)
  unfolding redact_line redact_found is_secret
  redact_line-secret before separator value quoted comma n h s v =
      rw (find_separator-append before separator value n h, s, v.present, v.quote, v.end) refl

  -- The lines are the same, or assign to the same secret.
  abbrev pub IsAlike : Bytes → Bytes → Type 0
  IsAlike x y = (x ≡ y) ⊎ SameSecret x y

  redact_line-IsAlike : (x y : Bytes) → IsAlike x y → redact_line unicode x ≡ redact_line unicode y
  redact_line-IsAlike x y (inl e) = ap (redact_line unicode) e
  redact_line-IsAlike x y (inr s) =
      ap (redact_line unicode) s.x_is
      ∙ redact_line-secret s.before s.separator s.left s.quoted s.comma s.plain s.separates
          s.sensitive s.left_value
      ∙ sym (
          redact_line-secret s.before s.separator s.right s.quoted s.comma s.plain s.separates
            s.sensitive s.right_value)
      ∙ sym (ap (redact_line unicode) s.y_is)

  -- The texts have as many lines, which are alike in pairs, and so are what follows their last newlines.
  abbrev pub AreAlike : List Bytes × Bytes → List Bytes × Bytes → Type 0
  AreAlike ([], x) ([], y) = (is_empty x ≡ is_empty y) × IsAlike x y
  AreAlike ([], x) (_ ∷ _, y) = ⊥
  AreAlike (_ ∷ _, x) ([], y) = ⊥
  AreAlike (a ∷ ls, x) (b ∷ ms, y) = IsAlike a b × AreAlike (ls, x) (ms, y)

  redact_lines-AreAlike :
      (ls : List Bytes) (x : Bytes) (ms : List Bytes) (y : Bytes)
      → AreAlike (ls, x) (ms, y)
      → redact_lines unicode ls x ≡ redact_lines unicode ms y
  unfolding redact_lines
  redact_lines-AreAlike [] [] [] [] (e, a) = refl
  redact_lines-AreAlike [] [] [] (c ∷ y) (e, a) = cc
  redact_lines-AreAlike [] (b ∷ x) [] [] (e, a) = cc
  redact_lines-AreAlike [] (b ∷ x) [] (c ∷ y) (e, a) =
      ap (λ r. put_line unicode r [] (record { content = []; redactions = 0 }))
        (redact_line-IsAlike (b ∷ x) (c ∷ y) a)
  redact_lines-AreAlike [] x (b ∷ ms) y a = absurd a
  redact_lines-AreAlike (a ∷ ls) x [] y h = absurd h
  redact_lines-AreAlike (a ∷ ls) x (b ∷ ms) y (l, h) =
      ap₂ (λ r rest. put_line unicode r (newline ∷ []) rest) (redact_line-IsAlike a b l)
        (redact_lines-AreAlike ls x ms y h)

  -- Two texts whose lines are the same, but for the values that are assigned to sensitive keys before
  -- the first separators of lines, have the same redacted text and the same count, if these
  -- values are not blank and are alike in having a quote first and a comma last.
  pub redact_assignments-AreAlike :
      (x y : Bytes)
      → AreAlike (lines_of x) (lines_of y)
      → redact_assignments unicode x ≡ redact_assignments unicode y
  unfolding redact_assignments
  redact_assignments-AreAlike x y a =
      redact_lines-AreAlike (lines_of x).0 (lines_of x).1 (lines_of y).0 (lines_of y).1 a
