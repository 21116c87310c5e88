-- ===== src/Compress/Lines/Laws.antt =====
-- The loop splits the bytes at the newlines, however they arrive.
use token_shrinker.Prelude.{
  ℕ, zero, suc, ◌≡◌, refl, sym, ap, ◌∙◌, ◌<◌, false, Option, none, some, List, [], ◌∷◌, ◌++◌,
  length, ◌==◌, arith, Bool-cases, inl, inr,
}
use token_shrinker.Prelude.Bytes.{Bytes}
use token_shrinker.Compress.Lines.{
  newline, before, split_newline, take_lines, put_first, start_line, lines_of,
}

-- What the lines are when more lines follow the partial one.
abbrev then_lines : List Bytes × Bytes → Bytes → List Bytes × Bytes
then_lines (lines, partial) more =
    let rest = lines_of (partial ++ more) in (lines ++ rest.0, rest.1)

then_lines-start_line :
    (r : List Bytes × Bytes) (more : Bytes)
    → then_lines (start_line r) more ≡ start_line (then_lines r more)
then_lines-start_line (lines, partial) more = refl

then_lines-put_first :
    (b : ℕ) (r : List Bytes × Bytes) (more : Bytes)
    → (b == newline) ≡ false
    → then_lines (put_first b r) more ≡ put_first b (then_lines r more)
unfolding lines_of
then_lines-put_first b ([], partial) more e = rw e refl
then_lines-put_first b (line ∷ lines, partial) more e = refl

-- Splitting two texts one after the other is splitting the second after the partial line of the first.
pub lines_of-append : (xs ys : Bytes) → lines_of (xs ++ ys) ≡ then_lines (lines_of xs) ys
unfolding lines_of
lines_of-append [] ys = refl
lines_of-append (b ∷ xs) ys = elim (Bool-cases (b == newline)) [
  | inl e ↦
      rw e (ap start_line (lines_of-append xs ys) ∙ sym (then_lines-start_line (lines_of xs) ys))
  | inr e ↦
      rw e
        (ap (put_first b) (lines_of-append xs ys) ∙ sym (then_lines-put_first b (lines_of xs) ys e))
]

-- The first step of the loop against the split.
abbrev first_line : Option (Bytes × Bytes) → Bytes → List Bytes × Bytes
first_line none text = ([], text)
first_line (some (line, rest)) text = (line ∷ (lines_of rest).0, (lines_of rest).1)

first_line-before :
    (b : ℕ) (o : Option (Bytes × Bytes)) (text : Bytes)
    → first_line (before b o) (b ∷ text) ≡ put_first b (first_line o text)
first_line-before b none text = refl
first_line-before b (some (line, rest)) text = refl

lines_of-first : (text : Bytes) → lines_of text ≡ first_line (split_newline text) text
unfolding lines_of split_newline
lines_of-first [] = refl
lines_of-first (b ∷ bs) = elim (Bool-cases (b == newline)) [
  | inl e ↦ rw e refl
  | inr e ↦
      rw e (ap (put_first b) (lines_of-first bs) ∙ sym (first_line-before b (split_newline bs) bs))
]

abbrev Shorter : Option (Bytes × Bytes) → ℕ → Type 0
Shorter none n = Unit
Shorter (some (line, rest)) n = length rest < n

Shorter-before :
    (b : ℕ) (o : Option (Bytes × Bytes)) (n : ℕ) → Shorter o n → Shorter (before b o) (suc n)
Shorter-before b none n h = tt
Shorter-before b (some (line, rest)) n h = omega arith

split_newline-Shorter : (text : Bytes) → Shorter (split_newline text) (length text)
unfolding split_newline
split_newline-Shorter [] = tt
split_newline-Shorter (b ∷ bs) = elim (Bool-cases (b == newline)) [
  | inl e ↦ rw e (omega arith)
  | inr e ↦ rw e (Shorter-before b (split_newline bs) (length bs) (split_newline-Shorter bs))
]

module _ {S : Type 0} (record_line : S → Bytes → S) where
  -- The lines recorded one after the other.
  abbrev pub record_all : S → List Bytes → S
  record_all s [] = s
  record_all s (line ∷ lines) = record_all (record_line s line) lines

  pub record_all-append :
      (s : S) (xs ys : List Bytes) → record_all s (xs ++ ys) ≡ record_all (record_all s xs) ys
  record_all-append s [] ys = refl
  record_all-append s (x ∷ xs) ys = record_all-append (record_line s x) xs ys

  abbrev Recorded : S → List Bytes × Bytes → S × Bytes
  Recorded s r = (record_all s r.0, r.1)

  -- With more fuel than bytes the loop records every complete line and leaves the partial one.
  pub take_lines_lem :
      (fuel : ℕ) (s : S) (text : Bytes)
      → length text < fuel
      → take_lines record_line fuel s text ≡ (record_all s (lines_of text).0, (lines_of text).1)
  unfolding take_lines
  take_lines_lem zero s text h = absurd (omega arith)
  take_lines_lem (suc fuel) s text h =
      step (take_lines_lem fuel) (split_newline text) (split_newline-Shorter text)
      ∙ ap (Recorded s) (sym (lines_of-first text))
    where
      step :
          ((t : S) (u : Bytes)
            → length u < fuel
            → take_lines record_line fuel t u ≡ (record_all t (lines_of u).0, (lines_of u).1))
          → (o : Option (Bytes × Bytes)) → Shorter o (length text)
          → (elim o [
            | none ↦ (s, text)
            | some (line, rest) ↦ take_lines record_line fuel (record_line s line) rest
          ])
            ≡ Recorded s (first_line o text)
      step ih none p = refl
      step ih (some (line, rest)) p = ih (record_line s line) rest (omega arith)
