-- ===== src/Repo/Files.antt =====
-- crates/ts-repo/src/lib.rs: `candidate_from_path`, from the path of a file to its candidate, and the tests on paths.
use token_shrinker.Prelude.{
  ℕ, ◌/◌, ◌^◌, Bool, false, not, Option, none, some, List, [], ◌∷◌, ◌++◌, map, any, filter, ◌==◌,
  ltb, if◌then◌else◌, Result, ok, err, ◌>>=◌, ok_or, map_err,
}
use token_shrinker.Prelude.Bytes.{Bytes, ascii, eq_bytes, is_empty, contains, to_ascii_lowercase}
use token_shrinker.Prelude.Integers.{ℤ, pos, negsuc}
use token_shrinker.Context.SourceId
use token_shrinker.Context.SourceId.{SourceId, SourceIdError}
use token_shrinker.Context.Candidate.{ContextCandidate, repository_file}
use token_shrinker.Repo.Paths.{normal, slash, join_parts, normalized_relative, encode_path}
use token_shrinker.Repo.Chunks.{RepositoryQuery, matching_term_count}
use token_shrinker.Repo.Load.{
  FilePath, ScanWarningKind, unsupported_path, unreadable, outside_root, CachedText, Cache, Attempt,
  Loaded, load_text, RepositoryProvider, Libraries,
}

pub record LoadedCandidate : Type 0 where
  pub candidate : ContextCandidate
  pub cache_hit : Bool
  pub redactions : ℕ

-- Why a file is not a candidate.
pub record FileSkip : Type 0 where
  pub path : Bytes
  pub kind : ScanWarningKind

-- What the operating system answers about one path: `canonicalize`, and the attempts to read it.
pub record FileAnswers : Type 0 where
  pub canonical : Option FilePath
  pub first : Attempt
  pub second : Attempt

-- `path.strip_prefix(root)`; `starts_with` is its success.
unfoldable pub strip_prefix : FilePath → FilePath → Option FilePath
strip_prefix [] path = some path
strip_prefix (r ∷ root) [] = none
strip_prefix (r ∷ root) (p ∷ path) = if eq_bytes r p then strip_prefix root path else none

abbrev pub excluded_directories : List Bytes
excluded_directories =
    ascii ".git"
    ∷ ascii "build"
    ∷ ascii "dist"
    ∷ ascii "generated"
    ∷ ascii "node_modules"
    ∷ ascii "target"
    ∷ ascii "vendor"
    ∷ []

-- `Path::parent` of a relative path, as its components; the empty path has none.
unfoldable pub parent : FilePath → FilePath
parent [] = []
parent (p ∷ []) = []
parent (p ∷ q ∷ path) = p ∷ parent (q ∷ path)

abbrev pub any_in {ℓ} : {A : Type ℓ} → (A → Bool) → Option (List A) → Bool
any_in test none = false
any_in test (some xs) = any test xs

abbrev pub map_option {ℓ κ} : {A : Type ℓ} {B : Type κ} → (A → B) → Option A → Option B
map_option f none = none
map_option f (some x) = some (f x)

-- `time.duration_since(UNIX_EPOCH).ok()`, then `i64::try_from(duration.as_millis()).ok()`
abbrev pub unix_millis : Option ℤ → Option ℤ
unix_millis none = none
unix_millis (some (pos nanos)) =
    if ltb (nanos / 1_000_000) (2 ^ 63) then some (pos (nanos / 1_000_000)) else none
unix_millis (some (negsuc nanos)) = none

module _ (lib : Libraries) (self : RepositoryProvider) where
  -- `to_string_lossy().replace('\\', "/")` of an absolute path
  unfoldable pub display_path : FilePath → Bytes
  unfolding join_parts
  display_path path =
      map (λ b. if b == b'\\' then slash else b) (lib.unicode.lossy (slash ∷ join_parts path))

  -- `FileSkip::new`
  unfoldable pub file_skip : FilePath → ScanWarningKind → FileSkip
  unfolding display_path
  file_skip path kind = record { path = display_path path; kind = kind }

  -- A component in lower case is one of the excluded names.
  abbrev pub is_excluded : Bytes → Bool
  is_excluded component =
      let name = map to_ascii_lowercase (lib.unicode.lossy component) in
      any (eq_bytes name) excluded_directories

  unfoldable pub is_likely_generated : FilePath → Bool
  unfolding strip_prefix parent
  is_likely_generated path = any_in is_excluded (map_option parent (strip_prefix self.root path))

  unfoldable pub is_git_metadata : FilePath → Bool
  unfolding strip_prefix
  is_git_metadata path = any_in (eq_bytes (ascii ".git")) (strip_prefix self.root path)

  -- `term_match_count` and `path_match` of a file.
  unfoldable pub with_relevance : RepositoryQuery → Bytes → CachedText → SourceId → ContextCandidate
  unfolding matching_term_count
  with_relevance query relative_text cached source_id =
      let path_lower = lib.unicode.to_lowercase relative_text in
      let content_lower = lib.unicode.to_lowercase cached.content in
      let term_match_count = matching_term_count lib.unicode content_lower query.terms in
      record {
        source_id = source_id;
        source_kind = repository_file;
        location = record { uri = relative_text; start_line = none; end_line = none };
        content_hash = cached.content_hash;
        sensitivity = cached.sensitivity;
        content = cached.content;
        modified_unix_ms = unix_millis cached.modified;
        relevance = record {
          exact_match = ltb 0 term_match_count;
          term_match_count = term_match_count;
          path_match =
              any (λ hint. contains path_lower (lib.unicode.to_lowercase hint))
                (filter (λ hint. not (is_empty hint)) query.path_hints);
          diagnostic = false;
          freshness = 0;
        };
      }

  abbrev pub file_handle : Bytes → Bytes
  file_handle relative_text = ascii "repo:" ++ encode_path relative_text

  -- The candidate or the reason to skip the file, and the cache.
  abbrev pub Candidates : Type 0
  Candidates = Result LoadedCandidate FileSkip × Cache

  -- After `load_text`, which skips the canonical path.
  unfoldable pub make_candidate :
      RepositoryQuery → FilePath → FilePath → Bytes → Cache → Loaded → Candidates
  unfolding file_skip with_relevance SourceId.new encode_path
  make_candidate query path canonical relative_text cache (err kind) =
      (err (file_skip canonical kind), cache)
  make_candidate query path canonical relative_text cache (ok (cached, cache_hit, after)) = (
    map_err (λ e. file_skip path unsupported_path) (SourceId.new (file_handle relative_text))
        >>= (λ source_id. ok (record {
          candidate = with_relevance query relative_text cached source_id;
          cache_hit = cache_hit;
          redactions = cached.redactions;
        })),
    after,
  )

  -- The canonical path and the text of what is left of it below the root.
  unfoldable pub locate : Option FilePath → Result (FilePath × Bytes) ScanWarningKind
  unfolding strip_prefix normalized_relative
  locate answer = ok_or answer unreadable >>= (λ canonical.
      ok_or (strip_prefix self.root canonical) outside_root >>= (λ relative.
        ok_or (normalized_relative lib.is_utf8 (map normal relative)) unsupported_path
        >>= (λ relative_text. ok (canonical, relative_text))))

  unfoldable pub load_located :
      Cache
      → FilePath
      → FileAnswers
      → RepositoryQuery
      → Result (FilePath × Bytes) ScanWarningKind
      → Candidates
  unfolding file_skip make_candidate load_text
  load_located cache path answers query (err kind) = (err (file_skip path kind), cache)
  load_located cache path answers query (ok (canonical, relative_text)) =
      make_candidate query path canonical relative_text cache
        (load_text lib self canonical cache answers.first answers.second)

  unfoldable pub candidate_from_path : Cache → FilePath → FileAnswers → RepositoryQuery → Candidates
  unfolding locate load_located
  candidate_from_path cache path answers query =
      load_located cache path answers query (locate answers.canonical)
