-- ===== src/Compress/Extract.antt =====
-- crates/ts-compress/src/lib.rs: `compress_context`, which keeps the lines of a text that matter to a
-- query, within a budget. A panic on an index is `none`.
pub mod Choice
pub mod Passages
pub mod Laws
use Prim.Native.Nat.Ordering.{lt, eq, gt}
use mathlib.Core.Option
use token_shrinker.Prelude.{
  ℕ, zero, suc, ◌+◌, ◌-◌, min, compare, Ordering, Bool, true, false, ◌&&◌, ◌||◌, not, Option, none,
  some, List, [], ◌∷◌, ◌++◌, map, length, any, take, drop, get_elem?, enumerate_from, leb, ltb,
  if◌then◌else◌, saturating_add, add64,
}
use token_shrinker.Prelude.Bytes.{Bytes, ascii, is_empty, contains, starts_with}
use token_shrinker.Prelude.Order.{then_with}
use token_shrinker.Prelude.Sort.{sort_by}
use token_shrinker.Prelude.Unicode.{Unicode}
use token_shrinker.Types.Count.{TokenBudget}
use token_shrinker.Context.SourceId.{SourceId}
use token_shrinker.Context.Candidate.{ContextCandidate}
use token_shrinker.Context.Counter.{conservative_estimator}
use token_shrinker.Compress.Lines.{newline, str_lines}
use token_shrinker.Compress.Ranges.{insert, ranges, line_number, OmittedRange, omitted_ranges}

pub record ExtractedPassage : Type 0 where
  pub source_id : SourceId
  pub start_line : ℕ
  pub end_line : ℕ
  pub content : Bytes

pub record CompressedContext : Type 0 where
  pub passages : List ExtractedPassage
  pub omitted_ranges : List OmittedRange
  pub used_tokens : ℕ

-- `BTreeMap<usize, u8>`: the entries, in ascending order of the keys.
abbrev pub Wanted : Type 0
Wanted = List (ℕ × ℕ)

-- `wanted.entry(index).and_modify(f).or_insert(priority)`
unfoldable pub entry : ℕ → (ℕ → ℕ) → ℕ → Wanted → Wanted
entry index f priority [] = (index, priority) ∷ []
entry index f priority ((i, p) ∷ wanted) =
    let rest = entry index f priority wanted in
    elim (compare index i) [
      | lt ↦ (index, priority) ∷ (i, p) ∷ wanted
      | eq ↦ (i, f p) ∷ wanted
      | gt ↦ (i, p) ∷ rest
    ]

-- The four tests of a line.
pub record Marks : Type 0 where
  pub matched : Bool
  pub diagnostic : Bool
  pub definition : Bool
  pub heading : Bool

abbrev pub diagnostic_markers : List Bytes
diagnostic_markers =
    ascii "error" ∷ ascii "warning" ∷ ascii "panicked" ∷ ascii "assertion failed" ∷ []

abbrev pub definition_prefixes : List Bytes
definition_prefixes =
    ascii "class "
    ∷ ascii "def "
    ∷ ascii "fn "
    ∷ ascii "function "
    ∷ ascii "interface "
    ∷ ascii "pub fn "
    ∷ ascii "struct "
    ∷ []

unfoldable pub marks : Unicode → List Bytes → Bytes → Marks
marks unicode terms line =
    let trimmed = unicode.trim_start line in
    let lower = unicode.to_lowercase trimmed in
    record {
      matched = any (λ term. not (is_empty term) && contains lower term) terms;
      diagnostic = any (contains lower) diagnostic_markers;
      definition = any (starts_with trimmed) definition_prefixes;
      heading = starts_with trimmed (ascii "#");
    }

abbrev pub important : Marks → Bool
important m = m.matched || (m.diagnostic || (m.definition || m.heading))

abbrev pub priority : Marks → ℕ
priority m = if m.matched || m.diagnostic then 0 else (if m.definition then 1 else 2)

-- The loop over `start..=end`, which are `count` indices.
unfoldable pub want_neighbours : ℕ → ℕ → Wanted → Wanted
unfolding entry
want_neighbours start zero wanted = wanted
want_neighbours start (suc count) wanted =
    want_neighbours (start + 1) count (entry start (λ current. current) 3 wanted)

-- The body of the loop over the lines.
unfoldable pub want_line : ℕ → ℕ → Marks → ℕ → Wanted → Wanted
unfolding want_neighbours
want_line surrounding_lines line_count m index wanted =
    let own = entry index (λ current. min current (priority m)) (priority m) wanted in
    let start = index - surrounding_lines in
    let end = min (saturating_add index surrounding_lines) (line_count - 1) in
    if important m then want_neighbours start (end + 1 - start) own else wanted

unfoldable pub want_lines : Unicode → List Bytes → ℕ → ℕ → List (ℕ × Bytes) → Wanted → Wanted
unfolding want_line marks
want_lines unicode terms surrounding_lines line_count [] wanted = wanted
want_lines unicode terms surrounding_lines line_count ((index, line) ∷ lines) wanted =
    want_lines unicode terms surrounding_lines line_count lines
      (want_line surrounding_lines line_count (marks unicode terms line) index wanted)

-- The key of `wanted.sort_by_key`: the priority, then the index.
abbrev pub by_priority : ℕ × ℕ → ℕ × ℕ → Ordering
by_priority a b = then_with (compare a.1 b.1) (compare a.0 b.0)

-- The variables of the selection.
pub record Chosen : Type 0 where
  pub selected : List ℕ
  pub used_tokens : ℕ

-- The body of the selection's loop, on the line at the index.
unfoldable pub choose_line : ℕ → ℕ → Chosen → Bytes → Chosen
unfolding insert
choose_line limit index c line =
    let cost = saturating_add (conservative_estimator.count line).tokens 4 in
    if leb (saturating_add c.used_tokens cost) limit
    then record { selected = insert index c.selected; used_tokens = add64 c.used_tokens cost }
    else c

unfoldable pub choose : ℕ → List Bytes → Wanted → Chosen → Option Chosen
unfolding choose_line
choose limit lines [] c = some c
choose limit lines ((index, _) ∷ wanted) c =
    Option.bind (get_elem? lines index)
      (λ line. choose limit lines wanted (choose_line limit index c line))

-- `join("\n")`
unfoldable pub join : List Bytes → Bytes
join [] = []
join (line ∷ []) = line
join (line ∷ next ∷ lines) = line ++ (newline ∷ join (next ∷ lines))

-- `lines[start..=end]`
abbrev pub slice : List Bytes → ℕ × ℕ → Option (List Bytes)
slice lines (start, end) =
    if leb start (end + 1) && ltb end (length lines)
    then some (take (end + 1 - start) (drop start lines))
    else none

abbrev pub passage_of : SourceId → ℕ × ℕ → List Bytes → ExtractedPassage
passage_of source_id (start, end) kept = record {
  source_id = source_id;
  start_line = line_number start;
  end_line = line_number end;
  content = join kept;
}

unfoldable pub passages_of : SourceId → List Bytes → List (ℕ × ℕ) → Option (List ExtractedPassage)
unfolding join
passages_of source_id lines [] = some []
passages_of source_id lines (r ∷ rs) =
    Option.bind (slice lines r)
      (λ kept. Option.map (◌∷◌ (passage_of source_id r kept)) (passages_of source_id lines rs))

-- The result, from the selection.
unfoldable pub extracted : SourceId → List Bytes → Chosen → Option CompressedContext
unfolding ranges omitted_ranges passages_of
extracted source_id lines c =
    Option.map
      (λ passages. record {
        passages = passages;
        omitted_ranges = omitted_ranges (length lines) c.selected;
        used_tokens = c.used_tokens;
      })
      (passages_of source_id lines (ranges c.selected))

unfoldable pub compress_context :
    Unicode → ContextCandidate → List Bytes → ℕ → TokenBudget → Option CompressedContext
unfolding want_lines choose extracted str_lines sort_by Option.bind
compress_context unicode source query_terms surrounding_lines budget =
    let lines = str_lines source.content in
    let terms = map unicode.to_lowercase query_terms in
    let wanted =
      want_lines unicode terms surrounding_lines (length lines) (enumerate_from 0 lines) [] in
    Option.bind
      (choose budget.get lines (sort_by by_priority wanted)
        (record { selected = []; used_tokens = 0 }))
      (extracted source.source_id lines)
