-- ===== src/Daemon/Baseline.antt =====
-- crates/ts-daemon/src/lib.rs: `build_baseline_context`, from a query to the bundle of a repository.
pub mod Items
pub mod Laws
use mathlib.Core.Option
use token_shrinker.Prelude.{
  ℕ, ◌/◌, min, max, Option, none, some, List, [], ◌∷◌, map, length, filter, ltb, if◌then◌else◌,
  saturating_add, to_u64, Result, ok, err, ok_or, ◌>>=◌,
}
use token_shrinker.Prelude.Bytes.{Bytes, is_empty}
use token_shrinker.Types.Count.{TokenBudget}
use token_shrinker.Context.Relevance.{score}
use token_shrinker.Context.Candidate.{ContextCandidate}
use token_shrinker.Context.Bundle.{ContextBundle}
use token_shrinker.Context.Counter.{conservative_estimator}
use token_shrinker.Context.Build.{build_context}
use token_shrinker.Repo.Chunks.{RepositoryQuery}
use token_shrinker.Repo.Load.{Cache, RepositoryProvider, Libraries}
use token_shrinker.Repo.Scan.{ScanWarning, RepositoryTrace, ScanResult, Entry, scan_chunked}
use token_shrinker.Repo.Symbols.{OpenError, zero_file_limit}
use token_shrinker.Daemon.Terms.{Chars, CharTables, query_terms, query_path_hints}

pub record BaselineContext : Type 0 where
  pub bundle : ContextBundle
  pub warnings : List ScanWarning
  pub repository_trace : RepositoryTrace
  pub discovered_tokens : ℕ

-- The fold over the contents.
unfoldable pub count_tokens : ℕ → List ContextCandidate → ℕ
count_tokens total [] = total
count_tokens total (c ∷ cs) = count_tokens (saturating_add total (to_u64 (length c.content))) cs

-- The candidates that match the query, or all of them if none does.
abbrev pub relevant_or_all : List ContextCandidate → List ContextCandidate
relevant_or_all candidates =
    let relevant = filter (λ c. ltb 0 (score c.relevance)) candidates in
    if is_empty relevant then candidates else relevant

-- `usize::try_from((budget.get() / 2).clamp(1, 2_048))`
abbrev pub chunk_bytes : TokenBudget → ℕ
chunk_bytes budget = max 1 (min 2_048 (budget.get / 2))

module _ (lib : Libraries) (tables : CharTables) (sha256 : Bytes → Bytes) where
  unfoldable pub repository_query : Chars → RepositoryQuery
  unfolding query_terms query_path_hints
  repository_query query = record {
    terms = map tables.encode (query_terms tables query);
    path_hints = map tables.encode (query_path_hints tables query);
  }

  -- From the result of the scan on; a panic of `build_context` is `none`.
  unfoldable pub bundle_scan : TokenBudget → ScanResult → Option BaselineContext
  unfolding build_context count_tokens
  bundle_scan budget scan =
      let candidates = relevant_or_all scan.candidates in
      Option.map
        (λ bundle. record {
          bundle = bundle;
          warnings = scan.warnings;
          repository_trace = scan.trace;
          discovered_tokens = count_tokens 0 candidates;
        })
        (build_context sha256 candidates budget conservative_estimator)

  -- `opened` is what `RepositoryProvider::open` returned for the root, `entries` what the walk finds.
  unfoldable pub build_baseline_context :
      Result RepositoryProvider OpenError
      → List Entry
      → Cache
      → Chars
      → TokenBudget
      → Result (Option BaselineContext) OpenError
  unfolding repository_query bundle_scan scan_chunked
  build_baseline_context opened entries cache query budget = opened >>= (λ provider.
      ok_or (scan_chunked lib provider (repository_query query) (chunk_bytes budget) cache entries)
        zero_file_limit
      >>= (λ (scan : ScanResult × Cache). ok (bundle_scan budget scan.0)))
