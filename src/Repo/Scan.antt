-- ===== src/Repo/Scan.antt =====
-- crates/ts-repo/src/lib.rs: `scan_cancellable` and `scan_chunked`. The entries of the directory walk (crate
-- ignore) come as a list, each with what the operating system answers.
pub mod Laws
pub mod Limits
use token_shrinker.Prelude.{
  ℕ, Ordering, ◌+◌, ◌/◌, ◌^◌, Bool, true, false, ◌&&◌, ◌||◌, not, Option, none, some, List, [], ◌∷◌,
  ◌++◌, map, length, any, filter, ◌==◌, ltb, if◌then◌else◌, Result, ok, err, ◌>>=◌, ok_or, map_err,
  saturating_add, add64, to_u64,
}
use token_shrinker.Prelude.Bytes.{Bytes, ascii, eq_bytes, is_empty, contains, to_ascii_lowercase}
use token_shrinker.Prelude.Integers.{ℤ, pos, negsuc}
use token_shrinker.Prelude.Order.{cmp_bytes}
use token_shrinker.Prelude.Sort.{sort_by}
use token_shrinker.Prelude.Unicode.{Unicode}
use token_shrinker.Context.SourceId
use token_shrinker.Context.SourceId.{SourceId, SourceIdError}
use token_shrinker.Context.Candidate.{ContextCandidate, repository_file}
use token_shrinker.Repo.Paths.{
  PathComponent, normal, slash, join_parts, normalized_relative, encode_path,
}
use token_shrinker.Repo.Chunks.{RepositoryQuery, matching_term_count, chunk_candidate}
use token_shrinker.Repo.Load.{
  hash_content, FilePath, ScanWarningKind, generated, unsupported_path, unreadable, outside_root,
  file_limit_reached, total_bytes_limit_reached, cancelled, CachedText, Cache, Attempt, Loaded,
  load_text, RepositoryProvider, Libraries,
}
use token_shrinker.Repo.Files.{
  LoadedCandidate, FileAnswers, display_path, is_likely_generated, is_git_metadata, Candidates,
  candidate_from_path,
}

pub record ScanWarning : Type 0 where
  pub path : Bytes
  pub kind : ScanWarningKind

pub record RepositoryTrace : Type 0 where
  pub visited_files : ℕ
  pub cache_hits : ℕ
  pub redactions : ℕ
  pub symbol_candidates : ℕ
  pub was_cancelled : Bool

pub record ScanResult : Type 0 where
  pub candidates : List ContextCandidate
  pub warnings : List ScanWarning
  pub trace : RepositoryTrace

-- An item of the walk.
pub data Entry : Type 0 where
  failed : Bytes → Entry
  other : Entry
  file : FilePath → FileAnswers → Entry

-- The local variables of the loop. `broken` says that it was left by `break`.
pub record Scan : Type 0 where
  pub candidates : List ContextCandidate
  pub warnings : List ScanWarning
  pub visited_files : ℕ
  pub retained_bytes : ℕ
  pub cache_hits : ℕ
  pub redactions : ℕ
  pub was_cancelled : Bool
  pub cache : Cache
  pub broken : Bool

abbrev pub scan_start : Cache → Scan
scan_start cache = record {
  candidates = [];
  warnings = [];
  visited_files = 0;
  retained_bytes = 0;
  cache_hits = 0;
  redactions = 0;
  was_cancelled = false;
  cache = cache;
  broken = false;
}

abbrev pub warn : Scan → Bytes → ScanWarningKind → Scan
warn s path kind = record s {
  warnings = s.warnings ++ ((record { path = path; kind = kind }) ∷ []);
}

abbrev pub stop : Scan → Scan
stop s = record s { broken = true }

module _ (lib : Libraries) (self : RepositoryProvider) (query : RepositoryQuery) where
  -- The candidate of a file within the limit of bytes, with the counters of the file.
  unfoldable pub retain : Scan → LoadedCandidate → Cache → Scan
  retain s l cache =
      let counted : Scan = record s {
        cache_hits = add64 s.cache_hits (if l.cache_hit then 1 else 0);
        redactions = saturating_add s.redactions l.redactions;
        cache = cache;
      } in
      let candidate_bytes = to_u64 (length l.candidate.content) in
      if ltb self.max_total_bytes (saturating_add s.retained_bytes candidate_bytes)
      then stop (warn counted l.candidate.location.uri total_bytes_limit_reached)
      else record counted {
        retained_bytes = add64 s.retained_bytes candidate_bytes;
        candidates = s.candidates ++ (l.candidate ∷ []);
      }

  -- The result of `candidate_from_path` for the file.
  unfoldable pub settle : Scan → Candidates lib self → Scan
  unfolding retain
  settle s (ok l, cache) = retain s l cache
  settle s (err skip, cache) = record (warn s skip.path skip.kind) { cache = cache }

  -- A file that is counted.
  unfoldable pub visit_file : Scan → FilePath → FileAnswers → Scan
  unfolding settle is_likely_generated is_git_metadata candidate_from_path display_path
  visit_file s path answers =
      let visited : Scan = record s { visited_files = add64 s.visited_files 1 } in
      if is_likely_generated lib self path
      then (if is_git_metadata lib self path
          then visited
          else warn visited (display_path lib self path) generated)
      else settle visited (candidate_from_path lib self s.cache path answers query)

  unfoldable pub visit : Scan → Entry → Scan
  unfolding visit_file display_path
  visit s (failed message) = warn s message unreadable
  visit s other = s
  visit s (file path answers) =
      if s.visited_files == self.max_files
      then stop (warn s (display_path lib self self.root) file_limit_reached)
      else visit_file s path answers

  -- One turn: the flag of the caller is read first.
  unfoldable pub turn : Scan → Bool × Entry → Scan
  unfolding visit display_path
  turn s (is_cancelled, entry) =
      if is_cancelled
      then record (stop (warn s (display_path lib self self.root) cancelled)) {
        was_cancelled = true;
      }
      else visit s entry

  -- The loop, until a `break`.
  unfoldable pub scan_loop : Scan → List (Bool × Entry) → Scan
  unfolding turn
  scan_loop s [] = s
  scan_loop s (e ∷ es) = if s.broken then s else scan_loop (turn s e) es

  abbrev pub by_uri : ContextCandidate → ContextCandidate → Ordering
  by_uri left right = cmp_bytes left.location.uri right.location.uri

  abbrev pub by_path : ScanWarning → ScanWarning → Ordering
  by_path left right = cmp_bytes left.path right.path

  abbrev pub result_of : Scan → ScanResult
  result_of s = record {
    candidates = sort_by by_uri s.candidates;
    warnings = sort_by by_path s.warnings;
    trace = record {
      visited_files = to_u64 s.visited_files;
      cache_hits = s.cache_hits;
      redactions = s.redactions;
      symbol_candidates = 0;
      was_cancelled = s.was_cancelled;
    };
  }

  -- The result, and the cache that the provider keeps.
  unfoldable pub scan_cancellable : Cache → List (Bool × Entry) → ScanResult × Cache
  unfolding scan_loop
  scan_cancellable cache entries =
      let s = scan_loop (scan_start cache) entries in (result_of s, s.cache)

  abbrev pub flat_map {ℓ κ} : {A : Type ℓ} {B : Type κ} → (A → List B) → List A → List B
  flat_map f [] = []
  flat_map f (x ∷ xs) = f x ++ flat_map f xs

  abbrev pub by_source_id : ContextCandidate → ContextCandidate → Ordering
  by_source_id left right = SourceId.cmp left.source_id right.source_id

  -- `none` is `RepositoryError::ZeroFileLimit`; `scan` is `scan_cancellable` with a flag that stays off.
  unfoldable pub scan_chunked : ℕ → Cache → List Entry → Option (ScanResult × Cache)
  unfolding scan_cancellable chunk_candidate
  scan_chunked max_chunk_bytes cache entries =
      let (result, kept) = scan_cancellable cache (map (λ e. (false, e)) entries) in
      if max_chunk_bytes == 0
      then none
      else some (
        record result {
          candidates = sort_by by_source_id (
              flat_map
                (λ candidate.
                  chunk_candidate lib.unicode (hash_content lib) candidate query max_chunk_bytes)
                result.candidates);
        },
        kept,
      )
