-- ===== src/Compress/Extract/Laws.antt =====
-- `compress_context` keeps lines verbatim, within the budget, and names all the others.
use mathlib.Core.Option
use mathlib.Core.Option.{some-injective}
use token_shrinker.Prelude.{
  ℕ, ◌+◌, ◌≡◌, refl, ap, ◌≤◌, ◌<◌, ◌&&◌, some, List, [], ◌∷◌, map, length, All, enumerate_from,
  IsAt, All-enumerate_from, All-imp, occurrences, leb, if◌then◌else◌, arith, u32_max,
}
use token_shrinker.Prelude.Bytes.{Bytes}
use token_shrinker.Prelude.Sort.{sort_by, All-sort_by}
use token_shrinker.Prelude.Unicode.{Unicode}
use token_shrinker.Types.Count.{TokenBudget, IsNonZeroU32}
use token_shrinker.Context.Candidate.{ContextCandidate}
use token_shrinker.Compress.Lines.{str_lines}
use token_shrinker.Compress.Ranges.{OmittedRange, omitted_range, omitted_ranges, ranges, unselected}
use token_shrinker.Compress.Ranges.Laws.{expand, ranges_lem}
use token_shrinker.Compress.Ranges.Complement.{line_range, occurrences-lines, AreSeparated-below}
use token_shrinker.Compress.Extract.{
  CompressedContext, want_lines, by_priority, Chosen, extracted, compress_context,
}
use token_shrinker.Compress.Extract.Choice.{
  IsChoice, choose-IsChoice, want_lines-Below, get_elem?-at,
}
use token_shrinker.Compress.Extract.Passages.{
  IsVerbatim, line_span, joined_length, passages_of-IsCut,
}

abbrev pub omitted_span : OmittedRange → ℕ × ℕ
omitted_span r = (r.start_line, r.end_line)

omitted_span-ranges :
    (rs : List (ℕ × ℕ)) → map omitted_span (map omitted_range rs) ≡ map line_range rs
omitted_span-ranges [] = refl
omitted_span-ranges (r ∷ rs) = ap (◌∷◌ (line_range r)) (omitted_span-ranges rs)

-- Where the lines are kept, they are verbatim, joined they fit what was counted, which fits the
-- budget; the kept and the omitted lines are the lines of the text.
record IsExtract (lines : List Bytes) (limit : ℕ) (c : CompressedContext) : Type 0 where
  verbatim : All (IsVerbatim lines) c.passages
  paid : joined_length c.passages ≤ c.used_tokens
  bounded : c.used_tokens ≤ limit
  each_once :
      (n : ℕ)
      → occurrences n (expand (map line_span c.passages))
          + occurrences n (expand (map omitted_span c.omitted_ranges))
        ≡ (if leb 1 n && leb n (length lines) then 1 else 0)

module _ (unicode : Unicode) (source : ContextCandidate) (query_terms : List Bytes)
    (surrounding_lines : ℕ) (budget : TokenBudget) (n : IsNonZeroU32 budget)
    (small : length (str_lines source.content) ≤ u32_max) where
  extracted-IsExtract :
      (d : Chosen)
      → IsChoice budget.get (str_lines source.content) d
      → (c : CompressedContext) × (extracted source.source_id (str_lines source.content) d ≡ some c)
        × IsExtract (str_lines source.content) budget.get c
  unfolding extracted omitted_ranges
  extracted-IsExtract d s =
      let lines = str_lines source.content in
      let (whole, separated) = ranges_lem d.selected s.ascends in
      let below =
        AreSeparated-below (length lines) 0 (ranges d.selected) separated (rw whole s.exist) in
      let (ps, cut) =
        passages_of-IsCut source.source_id lines small 0 (ranges d.selected) separated below in
      (
        record {
          passages = ps;
          omitted_ranges = omitted_ranges (length lines) d.selected;
          used_tokens = d.used_tokens;
        },
        rw cut.found refl,
        record {
          verbatim = cut.verbatim;
          paid = let kept = (rw whole at cut.paid) in omega (arith, kept, s.paid);
          bounded = s.bounded;
          each_once = λ m.
              rw (cut.spans, omitted_span-ranges (ranges (unselected d.selected 0 (length lines))))
                (occurrences-lines m d.selected (length lines) small s.ascends s.exist);
        },
      )

  compress_context-IsExtract :
      (c : CompressedContext) × (compress_context unicode source query_terms surrounding_lines
          budget
        ≡ some c)
      × IsExtract (str_lines source.content) budget.get c
  unfolding compress_context Option.bind
  compress_context-IsExtract =
      let lines = str_lines source.content in
      let terms = map unicode.to_lowercase query_terms in
      let wanted =
        want_lines unicode terms surrounding_lines (length lines) (enumerate_from 0 lines) [] in
      let wanted_below =
        want_lines-Below (length lines) unicode terms surrounding_lines (enumerate_from 0 lines) []
          (All-imp (IsAt 0 lines) (λ e. e.0 < length lines) (get_elem?-at lines)
            (enumerate_from 0 lines) (All-enumerate_from 0 lines))
          tt in
      let (d, found, s) =
        choose-IsChoice budget.get lines n.fits (omega (arith, small)) (sort_by by_priority wanted)
          (record { selected = []; used_tokens = 0 })
          (All-sort_by by_priority (λ e. e.0 < length lines) wanted wanted_below)
          (record { ascends = tt; exist = tt; paid = omega arith; bounded = omega arith }) in
      rw found (extracted-IsExtract d s)

  -- For a text of fewer lines than 2 ^ 32, `compress_context` does not panic; each passage is the lines
  -- that its line numbers name, joined; the passages with four bytes for each of them fit
  -- `used_tokens`, and `used_tokens` fits the budget.
  pub compress_context_fits :
      (c : CompressedContext) × (compress_context unicode source query_terms surrounding_lines
          budget
        ≡ some c)
      × All (IsVerbatim (str_lines source.content)) c.passages
      × (joined_length c.passages ≤ c.used_tokens)
      × (c.used_tokens ≤ budget.get)
  compress_context_fits =
      let (c, e, x) = compress_context-IsExtract in (c, e, x.verbatim, x.paid, x.bounded)

  -- Of a text of fewer than 2^32 lines, every line stands in exactly one passage or omitted range, once, and
  -- these have no other line; the budget is a nonzero number of 32 bits.
  pub compress_context-partition :
      (m : ℕ)
      → (c : CompressedContext) × (compress_context unicode source query_terms surrounding_lines
            budget
          ≡ some c)
        × (occurrences m (expand (map line_span c.passages))
              + occurrences m (expand (map omitted_span c.omitted_ranges))
            ≡ (if leb 1 m && leb m (length (str_lines source.content)) then 1 else 0))
  compress_context-partition m = let (c, e, x) = compress_context-IsExtract in (c, e, x.each_once m)
