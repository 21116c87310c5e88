-- ===== src/Repo/Fetch.antt =====
-- crates/ts-repo/src/lib.rs: `RepositoryProvider::fetch`, which reads a source again by its handle, with
-- `parse_symbol_suffix`.
pub mod Laws
pub mod Confined
use token_shrinker.Prelude.{
  ℕ, Bool, true, false, ◌||◌, Option, none, some, List, [], ◌∷◌, ◌++◌, ◌==◌, ltb, if◌then◌else◌,
  Result, ok, err, drop, ok_or, ◌>>=◌, ◌>>◌, refuse_if, map_err,
}
use token_shrinker.Prelude.Bytes.{Bytes, ascii, starts_with}
use token_shrinker.Prelude.Numerals.{parse_u32}
use token_shrinker.Prelude.Texts.{split_once, rsplit_once}
use token_shrinker.Context.SourceId.{SourceId}
use token_shrinker.Context.Candidate.{ContextCandidate}
use token_shrinker.Repo.Paths.{decode_relative_path}
use token_shrinker.Repo.Chunks.{RepositoryQuery, SymbolSpan, symbol_candidate}
use token_shrinker.Repo.Load.{
  hash_content, FilePath, ScanWarningKind, Cache, RepositoryProvider, Libraries,
}
use token_shrinker.Repo.Files.{FileAnswers, strip_prefix, Candidates, candidate_from_path}

-- The errors of `fetch`; which error of the operating system it was is not kept.
pub data RepositoryError : Type 0 where
  invalid_source_handle invalid_encoded_path source_io : RepositoryError
  outside_root : FilePath → RepositoryError
  source_rejected : ScanWarningKind → RepositoryError

abbrev pub Suffixed : Type 0
Suffixed = Result (Bytes × Option SymbolSpan) RepositoryError

-- The numbers of a range.
unfoldable pub read_span : Bytes → Bytes × Bytes → Suffixed
unfolding parse_u32
read_span path (start, end) = ok_or (parse_u32 start) invalid_source_handle >>= (λ start_line.
    ok_or (parse_u32 end) invalid_source_handle >>= (λ end_line.
      refuse_if (start_line == 0 || ltb end_line start_line) invalid_source_handle
      >> ok (path, some (record { start_line = start_line; end_line = end_line }))))

-- What follows the last `#L`, if there is one.
unfoldable pub read_range : Bytes → Option (Bytes × Bytes) → Suffixed
unfolding read_span split_once
read_range encoded none = ok (encoded, none)
read_range encoded (some (path, range)) =
    ok_or (split_once (ascii "-L") range) invalid_source_handle >>= read_span path

unfoldable pub parse_symbol_suffix : Bytes → Suffixed
unfolding read_range rsplit_once
parse_symbol_suffix encoded = read_range encoded (rsplit_once (ascii "#L") encoded)

-- `strip_prefix("repo:")`
unfoldable pub strip_scheme : Bytes → Option Bytes
strip_scheme handle = if starts_with handle (ascii "repo:") then some (drop 5 handle) else none

abbrev pub default_query : RepositoryQuery
default_query = record { terms = []; path_hints = [] }

module _ (lib : Libraries) (self : RepositoryProvider) where
  -- What the handle names: the path that is asked for, and the range of lines.
  unfoldable pub read_handle : Bytes → Result (FilePath × Option SymbolSpan) RepositoryError
  unfolding strip_scheme parse_symbol_suffix decode_relative_path
  read_handle handle = ok_or (strip_scheme handle) invalid_source_handle >>= (λ encoded.
      parse_symbol_suffix encoded >>= (λ (parsed : Bytes × Option SymbolSpan).
        map_err (λ e. invalid_encoded_path) (decode_relative_path lib.is_utf8 parsed.0)
        >>= (λ relative. ok (self.root ++ relative, parsed.1))))

  -- The range of the candidate, or the candidate.
  abbrev pub select_span :
      Option SymbolSpan → ContextCandidate → Result ContextCandidate RepositoryError
  unfolding symbol_candidate
  select_span none candidate = ok candidate
  select_span (some span) candidate =
      ok_or (symbol_candidate (hash_content lib) candidate span) invalid_source_handle

  -- The result, and the cache afterwards.
  abbrev pub Fetched : Type 0
  Fetched = Result ContextCandidate RepositoryError × Cache

  -- `candidate_from_path` with its reason as an error, and then the range.
  abbrev pub select_yield : Option SymbolSpan → Candidates lib self → Fetched
  select_yield span (ok l, after) = (select_span span l.candidate, after)
  select_yield span (err skip, after) = (err (source_rejected skip.kind), after)

  -- `canonical.starts_with(&self.root)`, and what follows.
  abbrev pub confined :
      Cache → FilePath → Option SymbolSpan → Option FilePath → Candidates lib self → Fetched
  confined cache canonical span none yield = (err (outside_root canonical), cache)
  confined cache canonical span (some relative) yield = select_yield span yield

  unfoldable pub fetch_canonical :
      Cache → (FilePath → FileAnswers) → Option SymbolSpan → Option FilePath → Fetched
  unfolding strip_prefix candidate_from_path select_span
  fetch_canonical cache answers span none = (err source_io, cache)
  fetch_canonical cache answers span (some canonical) =
      confined cache canonical span (strip_prefix self.root canonical)
        (candidate_from_path lib self cache canonical (answers canonical) default_query)

  unfoldable pub fetch_asked :
      Cache
      → (FilePath → Option FilePath)
      → (FilePath → FileAnswers)
      → Result (FilePath × Option SymbolSpan) RepositoryError
      → Fetched
  unfolding fetch_canonical
  fetch_asked cache canonicalize answers (err e) = (err e, cache)
  fetch_asked cache canonicalize answers (ok (path, span)) =
      fetch_canonical cache answers span (canonicalize path)

  -- `canonicalize` is the first call, on the path that is asked for; the second call, on the canonical path,
  -- is among the answers on that path.
  unfoldable pub fetch :
      Cache → (FilePath → Option FilePath) → (FilePath → FileAnswers) → SourceId → Fetched
  unfolding read_handle fetch_asked
  fetch cache canonicalize answers source_id =
      fetch_asked cache canonicalize answers (read_handle source_id.value)
