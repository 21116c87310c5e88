-- ===== src/Repo/Symbols.antt =====
-- crates/ts-repo/src/lib.rs: `RepositoryProvider::with_policy_and_limits`, `BuiltInDefinitionExtractor` and
-- `scan_with_symbols`.
use token_shrinker.Prelude.{
  ℕ, suc, ◌≡◌, refl, Bool, false, ◌||◌, Option, none, some, List, [], ◌∷◌, ◌++◌, map, any, All,
  All-append, All-imp, enumerate_from, ◌==◌, if◌then◌else◌, Result, ok, err, ok_or, ◌>>=◌, ◌>>◌,
  refuse_if, saturating_add, to_u32,
}
use token_shrinker.Prelude.Bytes.{Bytes, ascii, starts_with}
use token_shrinker.Prelude.Sort.{sort_by, All-sort_by}
use token_shrinker.Context.Candidate.{ContextCandidate}
use token_shrinker.Compress.Lines.{str_lines}
use token_shrinker.Repo.Redaction.{RedactionResult}
use token_shrinker.Repo.Chunks.{RepositoryQuery, SymbolSpan, symbol_candidate}
use token_shrinker.Repo.Load.{hash_content, FilePath, Cache, RepositoryProvider, Libraries}
use token_shrinker.Repo.Load.Laws.{CacheIsSound}
use token_shrinker.Repo.Scan.{ScanResult, Entry, scan_cancellable, by_source_id}
use token_shrinker.Repo.Scan.Laws.{IsAdmitted}
use token_shrinker.Repo.Scan.Limits.{LimitsFit, EntryIsHonest, scan_cancellable-IsSound}
use token_shrinker.Repo.Fetch.Confined.{IsSource, whole, part}

pub data OpenError : Type 0 where
  zero_file_limit root_io : OpenError
  root_not_directory : FilePath → OpenError

-- `canonicalize` and `is_dir` are the answers of the operating system on the root.
unfoldable pub with_policy_and_limits :
    Option FilePath
    → (FilePath → Bool)
    → ℕ
    → ℕ
    → ℕ
    → (Bytes → RedactionResult)
    → Result RepositoryProvider OpenError
with_policy_and_limits canonical is_dir max_file_bytes max_files max_total_bytes redact =
    refuse_if (max_file_bytes == 0 || (max_files == 0 || max_total_bytes == 0)) zero_file_limit
    >> (ok_or canonical root_io >>= (λ root.
        if is_dir root
        then ok (record {
          root = root;
          max_file_bytes = max_file_bytes;
          max_files = max_files;
          max_total_bytes = max_total_bytes;
          redact = redact;
        })
        else err (root_not_directory root)))

abbrev pub definition_prefixes : List Bytes
definition_prefixes =
    ascii "class "
    ∷ ascii "def "
    ∷ ascii "fn "
    ∷ ascii "function "
    ∷ ascii "interface "
    ∷ ascii "pub fn "
    ∷ ascii "pub struct "
    ∷ ascii "struct "
    ∷ []

module _ (trim_start : Bytes → Bytes) where
  -- The span of a definition's line, for the lines with their indices.
  unfoldable pub spans_of : List (ℕ × Bytes) → List SymbolSpan
  spans_of [] = []
  spans_of ((index, line) ∷ lines) =
      let number = to_u32 (suc index) in
      let rest = spans_of lines in
      if any (starts_with (trim_start line)) definition_prefixes
      then (record { start_line = number; end_line = number }) ∷ rest
      else rest

  -- `BuiltInDefinitionExtractor::spans`
  unfoldable pub spans : ContextCandidate → List SymbolSpan
  unfolding spans_of str_lines
  spans source = spans_of (enumerate_from 0 (str_lines source.content))

module _ (lib : Libraries) (self : RepositoryProvider) (query : RepositoryQuery)
    (extract : ContextCandidate → List SymbolSpan) where
  abbrev pub push_symbol : ScanResult → Option ContextCandidate → ScanResult
  push_symbol result none = result
  push_symbol result (some candidate) = record result {
    candidates = result.candidates ++ (candidate ∷ []);
    trace = record (result.trace) {
      symbol_candidates = saturating_add (result.trace).symbol_candidates 1;
    };
  }

  -- The inner loop, over the spans of one source.
  unfoldable pub push_spans : ContextCandidate → ScanResult → List SymbolSpan → ScanResult
  unfolding symbol_candidate
  push_spans source result [] = result
  push_spans source result (span ∷ rest) =
      push_spans source (push_symbol result (symbol_candidate (hash_content lib) source span)) rest

  -- The outer loop, over the candidates of the scan.
  unfoldable pub push_sources : ScanResult → List ContextCandidate → ScanResult
  unfolding push_spans
  push_sources result [] = result
  push_sources result (source ∷ sources) =
      push_sources (push_spans source result (extract source)) sources

  unfoldable pub scan_with_symbols : Cache → List Entry → ScanResult × Cache
  unfolding push_sources scan_cancellable
  scan_with_symbols cache entries =
      let (result, kept) = scan_cancellable lib self query cache (map (λ e. (false, e)) entries) in
      let pushed = push_sources result result.candidates in
      (record pushed { candidates = sort_by (by_source_id lib self query) pushed.candidates }, kept)

  module _ (Had : FilePath → Bytes → Type 0) where
    abbrev AreSources : ScanResult → Type 0
    AreSources result = All (IsSource lib self Had) result.candidates

    push_symbol-AreSources :
        (source : ContextCandidate) (span : SymbolSpan) (result : ScanResult)
        → IsAdmitted lib self Had source
        → AreSources result
        → (o : Option ContextCandidate) → symbol_candidate (hash_content lib) source span ≡ o
        → AreSources (push_symbol result o)
    push_symbol-AreSources source span result i a none e = a
    push_symbol-AreSources source span result i a (some c) e =
        All-append (IsSource lib self Had) result.candidates (c ∷ []) a (part source span i e, tt)

    push_spans-AreSources :
        (source : ContextCandidate) (result : ScanResult) (ss : List SymbolSpan)
        → IsAdmitted lib self Had source
        → AreSources result
        → AreSources (push_spans source result ss)
    unfolding push_spans
    push_spans-AreSources source result [] i a = a
    push_spans-AreSources source result (span ∷ ss) i a =
        push_spans-AreSources source
          (push_symbol result (symbol_candidate (hash_content lib) source span)) ss i
          (push_symbol-AreSources source span result i a
            (symbol_candidate (hash_content lib) source span) refl)

    push_sources-AreSources :
        (result : ScanResult) (sources : List ContextCandidate)
        → All (IsAdmitted lib self Had) sources
        → AreSources result
        → AreSources (push_sources result sources)
    unfolding push_sources
    push_sources-AreSources result [] i a = a
    push_sources-AreSources result (source ∷ sources) (i, is) a =
        push_sources-AreSources (push_spans source result (extract source)) sources is
          (push_spans-AreSources source result (extract source) i a)

    -- A scan with symbols emits only admitted candidates and ranges of their lines, whatever spans the extractor
    -- reports, where `Had` holds of what the reads return and the cache is sound at the start, and the limits fit.
    pub scan_with_symbols-AreSources :
        (cache : Cache) (entries : List Entry)
        → LimitsFit lib self
        → All (EntryIsHonest lib self Had) (map (λ e. (false, e)) entries)
        → CacheIsSound lib self Had cache
        → AreSources (scan_with_symbols cache entries).0
    unfolding scan_with_symbols
    scan_with_symbols-AreSources cache entries limits h c =
        let sound =
          scan_cancellable-IsSound lib self Had query limits cache (map (λ e. (false, e)) entries) h
            c in
        let result = (scan_cancellable lib self query cache (map (λ e. (false, e)) entries)).0 in
        All-sort_by (by_source_id lib self query) (IsSource lib self Had)
          (push_sources result result.candidates).candidates
          (push_sources-AreSources result result.candidates sound.admitted (
            All-imp (IsAdmitted lib self Had) (IsSource lib self Had) (λ a i. whole i)
              result.candidates sound.admitted))
