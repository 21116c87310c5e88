-- ===== src/Repo/Fetch/Confined.antt =====
-- crates/ts-repo/src/lib.rs: `RepositoryProvider::fetch`, with what the operating system answers.

use token_shrinker.Prelude.{◌≡◌, Option, none, some, Result, ok, err, ok_injective}
use token_shrinker.Prelude.Bytes.{Bytes}
use token_shrinker.Context.SourceId.{SourceId}
use token_shrinker.Repo.Load.Laws.{CacheIsSound}
use token_shrinker.Repo.Scan.Laws.{
  IsAdmitted, AreHonest, YieldIsSound, candidate_from_path-YieldIsSound, ok_or-eq-ok,
}
use token_shrinker.Context.Candidate.{ContextCandidate}
use token_shrinker.Repo.Load.{hash_content, FilePath, Cache, RepositoryProvider, Libraries}
use token_shrinker.Repo.Files.{FileAnswers, candidate_from_path, strip_prefix, Candidates}
use token_shrinker.Repo.Chunks.{SymbolSpan, symbol_candidate}
use token_shrinker.Repo.Fetch.{
  read_handle, default_query, fetch, fetch_asked, fetch_canonical, Fetched, select_span,
  select_yield, confined, RepositoryError,
}

module _ (lib : Libraries) (self : RepositoryProvider) (Had : FilePath → Bytes → Type 0) where
  -- What a source is made of: an admitted candidate, or a range of its lines.
  pub data IsSource (c : ContextCandidate) : Type 0 where
    whole : IsAdmitted lib self Had c → IsSource c
    part :
        (a : ContextCandidate) (span : SymbolSpan)
        → IsAdmitted lib self Had a
        → symbol_candidate (hash_content lib) a span ≡ some c
        → IsSource c

  abbrev pub FetchIsSound : Fetched lib self → Type 0
  FetchIsSound (result, after) =
      CacheIsSound lib self Had after × ((c : ContextCandidate) → result ≡ ok c → IsSource c)

  select_span-IsSource :
      (span : Option SymbolSpan) (a c : ContextCandidate)
      → IsAdmitted lib self Had a
      → select_span lib self span a ≡ ok c
      → IsSource c
  unfolding select_span
  select_span-IsSource none a c i h = rw (ok_injective a c h) at (whole i)
  select_span-IsSource (some span) a c i h =
      part a span i (ok_or-eq-ok (symbol_candidate (hash_content lib) a span) _ c h)

  select_yield-FetchIsSound :
      (span : Option SymbolSpan) (yield : Candidates lib self)
      → YieldIsSound lib self Had yield
      → FetchIsSound (select_yield lib self span yield)
  select_yield-FetchIsSound span (ok l, after) (i, s) =
      (s, λ c h. select_span-IsSource span l.candidate c i h)
  select_yield-FetchIsSound span (err kind, after) s = (s, λ c h. absurd_err _ c h)
    where
      absurd_err :
          (e : RepositoryError) (c : ContextCandidate)
          → ◌≡◌ {A = Result ContextCandidate RepositoryError} (err e) (ok c)
          → IsSource c
      absurd_err e c h = cc

  failed_fetch :
      (cache : Cache) (e : RepositoryError)
      → CacheIsSound lib self Had cache
      → FetchIsSound (err e, cache)
  failed_fetch cache e s = (s, λ c h. cc)

  confined-FetchIsSound :
      (cache : Cache) (canonical : FilePath) (span : Option SymbolSpan) (below : Option FilePath)
      (yield : Candidates lib self)
      → CacheIsSound lib self Had cache
      → YieldIsSound lib self Had yield
      → FetchIsSound (confined lib self cache canonical span below yield)
  confined-FetchIsSound cache canonical span none yield s y = failed_fetch cache _ s
  confined-FetchIsSound cache canonical span (some relative) yield s y =
      select_yield-FetchIsSound span yield y

  fetch_canonical-FetchIsSound :
      (cache : Cache) (answers : FilePath → FileAnswers) (span : Option SymbolSpan)
      (found : Option FilePath)
      → ((p : FilePath) → AreHonest lib self Had (answers p))
      → CacheIsSound lib self Had cache
      → FetchIsSound (fetch_canonical lib self cache answers span found)
  unfolding fetch_canonical
  fetch_canonical-FetchIsSound cache answers span none h s = failed_fetch cache _ s
  fetch_canonical-FetchIsSound cache answers span (some canonical) h s =
      confined-FetchIsSound cache canonical span (strip_prefix self.root canonical)
        (candidate_from_path lib self cache canonical (answers canonical) default_query) s
        (candidate_from_path-YieldIsSound lib self Had default_query cache canonical
          (answers canonical) (h canonical) s)

  fetch_asked-FetchIsSound :
      (cache : Cache) (canonicalize : FilePath → Option FilePath) (answers : FilePath → FileAnswers)
      (asked : Result (FilePath × Option SymbolSpan) RepositoryError)
      → ((p : FilePath) → AreHonest lib self Had (answers p))
      → CacheIsSound lib self Had cache
      → FetchIsSound (fetch_asked lib self cache canonicalize answers asked)
  unfolding fetch_asked
  fetch_asked-FetchIsSound cache canonicalize answers (err e) h s = failed_fetch cache e s
  fetch_asked-FetchIsSound cache canonicalize answers (ok (path, span)) h s =
      fetch_canonical-FetchIsSound cache answers span (canonicalize path) h s

  -- Whatever handle a client sends and whatever the operating system answers, what `fetch` returns is what the
  -- redaction policy left of the bytes that were read, now or for the cache, from a file whose
  -- canonical path is below the root and named by the handle of the candidate, or a range of the
  -- lines of that; and the cache again holds under each path only what was left of the bytes of the
  -- file at that path. `Had path raw` is any relation that holds of what the reads return at the
  -- canonical paths, and by which the cache is such at the start.
  pub fetch-FetchIsSound :
      (cache : Cache) (canonicalize : FilePath → Option FilePath) (answers : FilePath → FileAnswers)
      (source_id : SourceId)
      → ((p : FilePath) → AreHonest lib self Had (answers p))
      → CacheIsSound lib self Had cache
      → FetchIsSound (fetch lib self cache canonicalize answers source_id)
  unfolding fetch
  fetch-FetchIsSound cache canonicalize answers source_id h s =
      fetch_asked-FetchIsSound cache canonicalize answers (read_handle lib self source_id.value) h s
