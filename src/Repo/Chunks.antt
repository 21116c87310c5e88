-- ===== src/Repo/Chunks.antt =====
-- crates/ts-repo/src/lib.rs: `chunk_candidate`, which divides a long source into ranges of lines, with
-- `symbol_candidate` and `matching_term_count`.
pub mod Sizes
pub mod Tiles
pub mod Sources
use mathlib.Core.Option
use token_shrinker.Prelude.{
  ℕ, zero, suc, length, ◌+◌, ◌-◌, Bool, true, false, ◌&&◌, ◌||◌, not, Option, none, some, List, [],
  ◌∷◌, ◌++◌, any, filter, take, drop, ◌==◌, leb, ltb, if◌then◌else◌, Result, ok, err,
  saturating_add, to_u32,
}
use token_shrinker.Prelude.Bytes.{Bytes, ascii, is_empty, contains, starts_with}
use token_shrinker.Prelude.Unicode.{Unicode}
use token_shrinker.Prelude.Decimal.{decimal}
use token_shrinker.Prelude.Texts.{join}
use token_shrinker.Context.SourceId
use token_shrinker.Context.SourceId.{SourceId}
use token_shrinker.Context.ContentHash.{ContentHash}
use token_shrinker.Context.Candidate.{ContextCandidate, repository_symbol}
use token_shrinker.Compress.Lines.{newline, str_lines}

-- The query: terms to find in the contents, fragments to find in the paths.
pub record RepositoryQuery : Type 0 where
  pub terms : List Bytes
  pub path_hints : List Bytes

pub record SymbolSpan : Type 0 where
  pub start_line : ℕ
  pub end_line : ℕ

-- `u8::try_from(n).unwrap_or(u8::MAX)`
abbrev pub to_u8 : ℕ → ℕ
to_u8 n = if ltb n 256 then n else 255

-- `SourceId::new(...).ok()`
abbrev pub ok_value {ℓ κ} : {T : Type ℓ} {E : Type κ} → Result T E → Option T
ok_value (ok value) = some value
ok_value (err e) = none

-- `format!("{}#L{}-L{}", source_id, start_line, end_line)`
unfoldable pub symbol_handle : Bytes → SymbolSpan → Bytes
unfolding decimal
symbol_handle source span =
    source ++ (ascii "#L" ++ (decimal span.start_line ++ (ascii "-L" ++ decimal span.end_line)))

module _ (unicode : Unicode) where
  unfoldable pub matching_term_count : Bytes → List Bytes → ℕ
  matching_term_count content_lower terms = to_u8 (
      length (
        filter (λ term. not (is_empty term) && contains content_lower (unicode.to_lowercase term))
          terms))

-- `hash_content` is the argument of this name.
module _ (hash_content : Bytes → ContentHash) where
  -- The candidate for lines that are already selected and joined.
  abbrev pub symbol_with : ContextCandidate → SymbolSpan → Bytes → SourceId → ContextCandidate
  symbol_with source span content source_id = record {
    source_id = source_id;
    source_kind = repository_symbol;
    location = record {
      uri = source.location.uri;
      start_line = some span.start_line;
      end_line = some span.end_line;
    };
    content = content;
    content_hash = hash_content content;
    sensitivity = source.sensitivity;
    modified_unix_ms = source.modified_unix_ms;
    relevance = source.relevance;
  }

  unfoldable pub symbol_candidate : ContextCandidate → SymbolSpan → Option ContextCandidate
  unfolding join str_lines symbol_handle SourceId.new
  symbol_candidate source span =
      if span.start_line == 0 || ltb span.end_line span.start_line
      then none
      else let start = span.start_line - 1 in
        let count = span.end_line - span.start_line + 1 in
        let content = join newline (take count (drop start (str_lines source.content))) in
        if is_empty content
        then none
        else Option.map (symbol_with source span content)
            (ok_value (SourceId.new (symbol_handle source.source_id.value span)))

-- The inner loop on the lines from `end` on, with the bytes so far: how many lines are taken. `first` says
-- that `end` is `start`.
unfoldable pub count_lines : ℕ → Bool → ℕ → List Bytes → ℕ
count_lines max_chunk_bytes first bytes [] = 0
count_lines max_chunk_bytes first bytes (line ∷ lines) =
    let additional = length line + (if is_empty lines then 0 else 1) in
    let grown = saturating_add bytes additional in
    if not first && ltb max_chunk_bytes grown
    then 0
    else if leb max_chunk_bytes grown
    then 1
    else suc (count_lines max_chunk_bytes false grown lines)

module _ (unicode : Unicode) (hash_content : Bytes → ContentHash) where
  -- A chunk with its own relevance.
  abbrev pub rescored : RepositoryQuery → ContextCandidate → ContextCandidate
  rescored query chunk =
      let content_lower = unicode.to_lowercase chunk.content in
      let matches = matching_term_count unicode content_lower query.terms in
      record chunk {
        relevance = record (chunk.relevance) {
          term_match_count = matches;
          exact_match = ltb 0 matches;
        };
      }

  abbrev pub push_option {ℓ} : {A : Type ℓ} → Option A → List A → List A
  push_option none xs = xs
  push_option (some x) xs = x ∷ xs

  -- The outer loop on the lines from `start` on. Each turn takes a line at least, so as many turns as lines
  -- are enough.
  unfoldable pub chunk_loop :
      ContextCandidate → RepositoryQuery → ℕ → ℕ → ℕ → List Bytes → List ContextCandidate
  unfolding count_lines symbol_candidate matching_term_count
  chunk_loop source query max_chunk_bytes zero start lines = []
  chunk_loop source query max_chunk_bytes (suc turns) start [] = []
  chunk_loop source query max_chunk_bytes (suc turns) start (line ∷ lines) =
      let count = count_lines max_chunk_bytes true 0 (line ∷ lines) in
      let end = start + count in
      let span : SymbolSpan = record { start_line = to_u32 (start + 1); end_line = to_u32 end } in
      push_option (Option.map (rescored query) (symbol_candidate hash_content source span))
        (chunk_loop source query max_chunk_bytes turns end (drop count (line ∷ lines)))

  unfoldable pub chunk_candidate : ContextCandidate → RepositoryQuery → ℕ → List ContextCandidate
  unfolding chunk_loop str_lines
  chunk_candidate source query max_chunk_bytes =
      let lines = str_lines source.content in
      let chunks = chunk_loop source query max_chunk_bytes (length lines) 0 lines in
      if leb (length source.content) max_chunk_bytes || is_empty chunks then source ∷ [] else chunks
