-- ===== src/Repo/Chunks/Sizes.antt =====
-- How many lines a chunk takes, and how long it then is.
use token_shrinker.Prelude.{
  ℕ, zero, suc, ◌+◌, ◌≡◌, refl, ◌⊎◌, inl, inr, ◌≤◌, ◌<◌, true, false, List, [], ◌∷◌, length, take,
  ltb, leb, if◌then◌else◌, saturating_add, u64_max, arith, length-append, Bool-cases, leb_false→lt,
  ltb_false→le,
}
use token_shrinker.Prelude.Bytes.{Bytes, is_empty}
use token_shrinker.Prelude.Texts.{join}
use token_shrinker.Compress.Lines.{newline}
use token_shrinker.Repo.Chunks.{count_lines}

abbrev pub joined : ℕ → List Bytes → Bytes
joined count lines = join newline (take count lines)

length-joined :
    (count : ℕ) (line : Bytes) (lines : List Bytes)
    → length (joined (suc count) (line ∷ lines))
      ≤ length line + (if is_empty lines then 0 else 1) + length (joined count lines)
unfolding join
length-joined zero line [] = omega arith
length-joined zero line (next ∷ lines) = omega arith
length-joined (suc count) line [] = omega arith
length-joined (suc count) line (next ∷ lines) =
    omega (arith, length-append line (newline ∷ joined (suc count) (next ∷ lines)))

-- What the count promises of the lines: they are there, and fit beside the bytes so far.
abbrev Fits : ℕ → ℕ → List Bytes → ℕ → Type 0
Fits max_chunk_bytes bytes lines count =
    (count ≤ length lines) × ((count ≡ 0) ⊎ (bytes + length (joined count lines) ≤ max_chunk_bytes))

module _ (max_chunk_bytes : ℕ) (fits : max_chunk_bytes < u64_max) where
  grown_exact :
      (bytes additional : ℕ)
      → ltb max_chunk_bytes (saturating_add bytes additional) ≡ false
      → (saturating_add bytes additional ≡ bytes + additional)
        × (bytes + additional ≤ max_chunk_bytes)
  grown_exact bytes additional h =
      let bound = ltb_false→le max_chunk_bytes (saturating_add bytes additional) h in
      (omega arith, omega arith)

  length-single :
      (line : Bytes) (lines : List Bytes) → length (joined 1 (line ∷ lines)) ≡ length line
  unfolding join
  length-single line lines = refl

  Fits-suc :
      (bytes grown : ℕ) (line : Bytes) (lines : List Bytes) (count : ℕ)
      → (grown ≡ bytes + (length line + (if is_empty lines then 0 else 1)))
      → grown ≤ max_chunk_bytes
      → Fits max_chunk_bytes grown lines count
      → Fits max_chunk_bytes bytes (line ∷ lines) (suc count)
  Fits-suc bytes grown line lines count e g (h, inl z) =
      (omega arith, inr (rw z (omega (arith, length-single line lines))))
  Fits-suc bytes grown line lines count e g (h, inr f) =
      (omega arith, inr (omega (arith, length-joined count line lines)))

  count_lines-Fits :
      (bytes : ℕ) (lines : List Bytes)
      → Fits max_chunk_bytes bytes lines (count_lines max_chunk_bytes false bytes lines)
  unfolding count_lines
  count_lines-Fits bytes [] = (omega arith, inl refl)
  count_lines-Fits bytes (line ∷ lines) =
      let additional = length line + (if is_empty lines then 0 else 1) in
      let grown = saturating_add bytes additional in
      elim (Bool-cases (ltb max_chunk_bytes grown)) [
        | inl e ↦ rw e (omega arith, inl refl)
        | inr e ↦
            let (exact, bound) = grown_exact bytes additional e in
            elim (Bool-cases (leb max_chunk_bytes grown)) [
              | inl f ↦
                  rw (e, f)
                    (Fits-suc bytes grown line lines 0 exact (omega arith) (omega arith, inl refl))
              | inr f ↦
                  rw (e, f)
                    (Fits-suc bytes grown line lines (count_lines max_chunk_bytes false grown lines)
                      exact (omega arith) (count_lines-Fits grown lines))
            ]
      ]

  -- The first line of a chunk is always taken, and more only as far as they fit.
  abbrev pub IsCount : List Bytes → ℕ → Type 0
  IsCount lines count =
      (0 < count)
      × (count ≤ length lines)
      × ((count ≡ 1) ⊎ (length (joined count lines) ≤ max_chunk_bytes))

  IsCount-suc :
      (grown : ℕ) (line : Bytes) (lines : List Bytes) (count : ℕ)
      → (count ≡ 0) ⊎ (grown ≡ length line + (if is_empty lines then 0 else 1))
      → Fits max_chunk_bytes grown lines count
      → IsCount (line ∷ lines) (suc count)
  IsCount-suc grown line lines count e (h, inl z) = (omega arith, omega arith, inl (omega arith))
  IsCount-suc grown line lines count (inl z) (h, inr f) =
      (omega arith, omega arith, inl (omega arith))
  IsCount-suc grown line lines count (inr e) (h, inr f) =
      (omega arith, omega arith, inr (omega (arith, length-joined count line lines)))

  pub count_lines-IsCount :
      (line : Bytes) (lines : List Bytes)
      → IsCount (line ∷ lines) (count_lines max_chunk_bytes true 0 (line ∷ lines))
  unfolding count_lines
  count_lines-IsCount line lines =
      let additional = length line + (if is_empty lines then 0 else 1) in
      let grown = saturating_add 0 additional in
      elim (Bool-cases (leb max_chunk_bytes grown)) [
        | inl f ↦ rw f (omega arith, omega arith, inl refl)
        | inr f ↦
            let below = leb_false→lt max_chunk_bytes grown f in
            rw f (
              IsCount-suc grown line lines (count_lines max_chunk_bytes false grown lines)
                (inr (omega arith)) (count_lines-Fits grown lines))
      ]
