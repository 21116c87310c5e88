-- ===== src/Compress/Extract/Passages.antt =====
-- The passages of a selection: verbatim, and no longer together than what was paid for.
use mathlib.Core.Option
use token_shrinker.Prelude.{
  ℕ, zero, suc, ◌+◌, ◌-◌, ◌≡◌, refl, ap, ◌∙◌, ◌≤◌, ◌<◌, some, List, [], ◌∷◌, ◌++◌, map, length,
  length-append, sum_of, sum_of-append, get_elem?, take, drop, All, arith, u32_max,
}
use token_shrinker.Prelude.Bytes.{Bytes}
use token_shrinker.Context.SourceId.{SourceId}
use token_shrinker.Compress.Lines.{newline}
use token_shrinker.Compress.Ranges.{line_number}
use token_shrinker.Compress.Ranges.Laws.{indices_from, indices_of, expand, AreSeparated}
use token_shrinker.Compress.Ranges.Complement.{line_range}
use token_shrinker.Compress.Extract.{ExtractedPassage, join, slice, passage_of, passages_of}
use token_shrinker.Compress.Extract.Choice.{line_cost, cost_at, get_elem?-below}

-- Joined lines with four bytes more are no longer than the lines with four bytes each.
length-join :
    (line : Bytes) (lines : List Bytes)
    → line_cost (join (line ∷ lines)) ≤ sum_of line_cost (line ∷ lines)
unfolding join
length-join line [] = omega arith
length-join line (next ∷ lines) =
    omega (arith, length-join next lines, length-append line (newline ∷ join (next ∷ lines)))

drop-get_elem? {ℓ} :
    {A : Type ℓ} (xs : List A) (i : ℕ) (x : A)
    → get_elem? xs i ≡ some x
    → drop i xs ≡ x ∷ drop (suc i) xs
drop-get_elem? [] i x e = cc
drop-get_elem? (y ∷ xs) zero x e = cc
drop-get_elem? (y ∷ xs) (suc i) x e = drop-get_elem? xs i x e

drop-at {ℓ} :
    {A : Type ℓ} (xs : List A) (i : ℕ) (x : A)
    → get_elem? xs i ≡ some x
    → drop i xs ≡ x ∷ drop (i + 1) xs
drop-at xs i x e =
    drop-get_elem? xs i x e ∙ ap (λ n. x ∷ drop n xs) {x = suc i} {y = i + 1} (omega arith)

-- What is paid for consecutive lines.
paid_for :
    (lines : List Bytes) (start count : ℕ)
    → start + count ≤ length lines
    → sum_of (cost_at lines) (indices_from start count)
      ≡ sum_of line_cost (take count (drop start lines))
paid_for lines start zero h = refl
paid_for lines start (suc count) h =
    let (line, at) = get_elem?-below lines start (omega arith) in
    rw (at, drop-at lines start line at)
      (ap (λ n. line_cost line + n) (paid_for lines (start + 1) count (omega arith)))

join-slice :
    (lines : List Bytes) (start count : ℕ)
    → start + suc count ≤ length lines
    → line_cost (join (take (suc count) (drop start lines)))
      ≤ sum_of (cost_at lines) (indices_from start (suc count))
join-slice lines start count h =
    let (line, at) = get_elem?-below lines start (omega arith) in
    let paid = paid_for lines start (suc count) h in
    rw (paid, drop-at lines start line at) (length-join line (take count (drop (start + 1) lines)))

-- The passage is the lines that its numbers name, joined.
abbrev pub IsVerbatim : List Bytes → ExtractedPassage → Type 0
IsVerbatim lines p =
    p.content ≡ join (take (p.end_line + 1 - p.start_line) (drop (p.start_line - 1) lines))

abbrev pub line_span : ExtractedPassage → ℕ × ℕ
line_span p = (p.start_line, p.end_line)

-- The bytes of the passages, with the separators that join them.
abbrev pub joined_length : List ExtractedPassage → ℕ
joined_length = sum_of (λ p. line_cost p.content)

module _ (source_id : SourceId) (lines : List Bytes) (small : length lines ≤ u32_max) where
  pub record IsCut (rs : List (ℕ × ℕ)) (ps : List ExtractedPassage) : Type 0 where
    pub found : passages_of source_id lines rs ≡ some ps
    pub verbatim : All (IsVerbatim lines) ps
    pub spans : map line_span ps ≡ map line_range rs
    pub paid : joined_length ps ≤ sum_of (cost_at lines) (expand rs)

  slice_found :
      (start end : ℕ)
      → start ≤ end
      → end < length lines
      → slice lines (start, end) ≡ some (take (end + 1 - start) (drop start lines))
  slice_found start end h b = ground arith

  passage_of-IsVerbatim :
      (start end : ℕ)
      → start ≤ end
      → end < length lines
      → IsVerbatim lines
          (passage_of source_id (start, end) (take (end + 1 - start) (drop start lines)))
  passage_of-IsVerbatim start end h b =
      let from : line_number start - 1 ≡ start = ground arith in
      let count : line_number end + 1 - line_number start ≡ end + 1 - start = ground arith in
      rw (count, from) refl

  paid_first :
      (start end : ℕ) (rs : List (ℕ × ℕ)) (later : ℕ)
      → start ≤ end
      → end < length lines
      → later ≤ sum_of (cost_at lines) (expand rs)
      → (kept : List Bytes) → kept ≡ take (end + 1 - start) (drop start lines)
      → line_cost (join kept) + later
        ≤ sum_of (cost_at lines) (indices_of (start, end) ++ expand rs)
  paid_first start end rs later h b p kept e =
      let count : end + 1 - start ≡ suc (end - start) = omega arith in
      let first : line_cost (join kept) ≤ sum_of (cost_at lines) (indices_of (start, end)) =
        rw (e, count) (join-slice lines start (end - start) (omega arith)) in
      omega (arith, p, first, sum_of-append (cost_at lines) (indices_of (start, end)) (expand rs))

  pub passages_of-IsCut :
      (low : ℕ) (rs : List (ℕ × ℕ))
      → AreSeparated low rs
      → All (λ r. r.1 < length lines) rs
      → (ps : List ExtractedPassage) × IsCut rs ps
  unfolding passages_of Option.bind
  passages_of-IsCut low [] s b =
      ([], record { found = refl; verbatim = tt; spans = refl; paid = omega arith })
  passages_of-IsCut low ((start, end) ∷ rs) (l, h, s) (below, b) =
      let (ps, c) = passages_of-IsCut (end + 2) rs s b in
      (
        passage_of source_id (start, end) (take (end + 1 - start) (drop start lines)) ∷ ps,
        record {
          found = rw (slice_found start end h below, c.found) refl;
          verbatim = (passage_of-IsVerbatim start end h below, c.verbatim);
          spans = ap (◌∷◌ (line_number start, line_number end)) c.spans;
          paid =
              paid_first start end rs (joined_length ps) h below c.paid
                (take (end + 1 - start) (drop start lines)) refl;
        },
      )
