-- ===== src/Daemon/Baseline/Laws.antt =====
-- crates/ts-daemon/src/lib.rs: `build_baseline_context`, with the scan and the bundle that it calls.
use mathlib.Core.Option
use mathlib.Core.Option.{some-injective}
use token_shrinker.Prelude.{
  ℕ, ◌≡◌, refl, ap, ◌≤◌, false, Option, none, some, List, [], ◌∷◌, map, filter, length, All, arith,
  Bool, if◌then◌else◌, All-append, ok, Bool-cases, inl, inr, ltb, ◌==◌, sum_of,
}
use token_shrinker.Prelude.Bytes.{Bytes, is_empty, IsByte}
use token_shrinker.Prelude.Sort.{All-sort_by}
use token_shrinker.Prelude.Filters.{All-filter_all}
use token_shrinker.Types.Count.{TokenBudget, IsNonZeroU32}
use token_shrinker.Context.Relevance.{score}
use token_shrinker.Context.Candidate.{ContextCandidate}
use token_shrinker.Context.Counter.{conservative_estimator}
use token_shrinker.Context.Build.Pack.{item_tokens}
use token_shrinker.Context.Build.Accounts.{build_context_total}
use token_shrinker.Context.Build.Bundled.{build_context_budget}
use token_shrinker.Repo.Chunks.{RepositoryQuery, chunk_candidate}
use token_shrinker.Repo.Chunks.Sources.{chunk_candidate-All}
use token_shrinker.Repo.Load.{hash_content, FilePath, Cache, RepositoryProvider, Libraries}
use token_shrinker.Repo.Load.Laws.{CacheIsSound}
use token_shrinker.Repo.Scan.{
  ScanResult, Entry, scan_cancellable, scan_chunked, by_source_id, flat_map,
}
use token_shrinker.Repo.Scan.Laws.{IsAdmitted}
use token_shrinker.Repo.Scan.Limits.{LimitsFit, EntryIsHonest, scan_cancellable-IsSound}
use token_shrinker.Repo.Fetch.Confined.{IsSource, whole, part}
use token_shrinker.Daemon.Terms.{Chars, CharTables}
use token_shrinker.Daemon.Baseline.{
  BaselineContext, relevant_or_all, chunk_bytes, repository_query, bundle_scan,
  build_baseline_context,
}
use token_shrinker.Daemon.Baseline.Items.{IsMade, build_context-All}

map-eq-some :
    {A B : Type 0} (f : A → B) (o : Option A)
    → (a : A) × (o ≡ some a)
    → (b : B) × (Option.map f o ≡ some b)
map-eq-some f o (a, e) = (f a, rw e refl)

else_some :
    {A : Type 0} (test : Bool) (x : A)
    → test ≡ false
    → (y : A) × ((if test then none else some x) ≡ some y)
else_some test x e = (x, rw e refl)

-- The candidate is an admitted one or a range of its lines, but for its relevance.
pub record FromSource (lib : Libraries) (self : RepositoryProvider)
    (Had : FilePath → Bytes → Type 0) (c : ContextCandidate) : Type 0 where
  pub source : ContextCandidate
  pub is_source : IsSource lib self Had source
  pub content : c.content ≡ source.content
  pub content_hash : c.content_hash ≡ source.content_hash
  pub source_id : c.source_id ≡ source.source_id
  pub sensitivity : c.sensitivity ≡ source.sensitivity

flat_map-All :
    (lib : Libraries) (self : RepositoryProvider) (query : RepositoryQuery)
    (P Q : ContextCandidate → Type 0) (f : ContextCandidate → List ContextCandidate)
    → ((c : ContextCandidate) → P c → All Q (f c))
    → (cs : List ContextCandidate) → All P cs
    → All Q (flat_map lib self query f cs)
flat_map-All lib self query P Q f g [] a = tt
flat_map-All lib self query P Q f g (c ∷ cs) (p, a) =
    All-append Q (f c) (flat_map lib self query f cs) (g c p)
      (flat_map-All lib self query P Q f g cs a)

module _ (lib : Libraries) (self : RepositoryProvider) (Had : FilePath → Bytes → Type 0)
    (limits : LimitsFit lib self) where
  chunks-FromSource :
      (query : RepositoryQuery) (max_chunk_bytes : ℕ) (c : ContextCandidate)
      → IsAdmitted lib self Had c
      → All
          (FromSource lib self Had)
          (chunk_candidate lib.unicode (hash_content lib) c query max_chunk_bytes)
  chunks-FromSource query max_chunk_bytes c i =
      chunk_candidate-All lib.unicode (hash_content lib) (FromSource lib self Had) c query
        max_chunk_bytes
        (λ span d h. record {
          source = d;
          is_source = part c span i h;
          content = refl;
          content_hash = refl;
          source_id = refl;
          sensitivity = refl;
        })
        (record {
          source = c;
          is_source = whole i;
          content = refl;
          content_hash = refl;
          source_id = refl;
          sensitivity = refl;
        })

  pub scan_chunked-FromSource :
      (query : RepositoryQuery) (max_chunk_bytes : ℕ) (cache after : Cache) (entries : List Entry)
      (result : ScanResult)
      → All (EntryIsHonest lib self Had) (map (λ e. (false, e)) entries)
      → CacheIsSound lib self Had cache
      → scan_chunked lib self query max_chunk_bytes cache entries ≡ some (result, after)
      → All (FromSource lib self Had) result.candidates
  unfolding scan_chunked
  scan_chunked-FromSource query max_chunk_bytes cache after entries result hs c h =
      elim (Bool-cases (max_chunk_bytes == 0)) [
        | inl z ↦ let never = rw z at h in cc
        | inr z ↦
            let walked = map (λ e. (false, e)) entries in
            let scanned = (scan_cancellable lib self query cache walked).0 in
            let sound = scan_cancellable-IsSound lib self Had query limits cache walked hs c in
            let same =
              ap (λ (p : ScanResult × Cache). p.0) (some-injective _ (result, after) (rw z at h)) in
            rw (← same) (
              All-sort_by (by_source_id lib self query) (FromSource lib self Had)
                (flat_map lib self query
                  (λ d. chunk_candidate lib.unicode (hash_content lib) d query max_chunk_bytes)
                  scanned.candidates)
                (flat_map-All lib self query (IsAdmitted lib self Had) (FromSource lib self Had)
                  (λ d. chunk_candidate lib.unicode (hash_content lib) d query max_chunk_bytes)
                  (chunks-FromSource query max_chunk_bytes) scanned.candidates sound.admitted))
      ]

  relevant_or_all-All :
      (P : ContextCandidate → Type 0) (cs : List ContextCandidate)
      → All P cs
      → All P (relevant_or_all cs)
  relevant_or_all-All P cs a =
      elim (Bool-cases (is_empty (filter (λ c. ltb 0 (score c.relevance)) cs))) [
        | inl e ↦ rw e a
        | inr e ↦ rw e (All-filter_all P (λ c. ltb 0 (score c.relevance)) cs a)
      ]

  -- What the caller gets: redacted text of the repository, within the budget.
  pub record IsBaseline (budget : TokenBudget) (b : BaselineContext) : Type 0 where
    pub items : All (IsMade (FromSource lib self Had)) (b.bundle).items
    pub used : (b.bundle).used.tokens ≡ sum_of item_tokens (b.bundle).items
    pub fits : (b.bundle).used.tokens ≤ budget.get

  bundle_scan-IsBaseline :
      (sha256 : Bytes → Bytes) (tables : CharTables) (budget : TokenBudget) (scan : ScanResult)
      (b : BaselineContext)
      → IsNonZeroU32 budget
      → All (FromSource lib self Had) scan.candidates
      → bundle_scan lib tables sha256 budget scan ≡ some b
      → IsBaseline budget b
  unfolding bundle_scan
  bundle_scan-IsBaseline sha256 tables budget scan b v a h =
      let candidates = relevant_or_all scan.candidates in
      let (bundle, built, same) = (Option.map-eq-some_iff _ _).0 h in
      let (used, fits, counts) =
        build_context_budget sha256 candidates budget conservative_estimator bundle built v in
      rw (← same) (record {
        items =
            build_context-All (FromSource lib self Had) sha256 candidates budget
              conservative_estimator bundle v
              (relevant_or_all-All (FromSource lib self Had) scan.candidates a) built;
        used = used;
        fits = fits;
      })

  bundle_scan_total :
      (sha256 : Bytes → Bytes) (tables : CharTables) (budget : TokenBudget) (scan : ScanResult)
      → ((text : Bytes) → All IsByte (sha256 text) × (length (sha256 text) ≡ 32))
      → (b : BaselineContext) × (bundle_scan lib tables sha256 budget scan ≡ some b)
  unfolding bundle_scan
  bundle_scan_total sha256 tables budget scan digest = map-eq-some _ _ (
      build_context_total sha256 (relevant_or_all scan.candidates) budget conservative_estimator
        digest)

  chunk_bytes-positive : (budget : TokenBudget) → (chunk_bytes budget == 0) ≡ false
  chunk_bytes-positive budget = ground arith

  scan_chunked_total :
      (query : RepositoryQuery) (max_chunk_bytes : ℕ) (cache : Cache) (entries : List Entry)
      → (max_chunk_bytes == 0) ≡ false
      → (r : ScanResult × Cache) × (scan_chunked lib self query max_chunk_bytes cache entries
          ≡ some r)
  unfolding scan_chunked
  scan_chunked_total query max_chunk_bytes cache entries e = else_some _ _ e

  -- From the query to the bundle: with a digest function that returns 32 bytes, a context is built for every
  -- query and every walk, and every item of it is what the redaction policy left of the bytes that
  -- were read, now or for the cache, from a file whose canonical path is below the root and named by
  -- the handle, or a range of the lines of that, with the hash of its own text; and the items fit
  -- the budget. `Had path raw` is any relation that holds of what the reads of the walk's files
  -- return at their canonical paths, and by which the cache holds under each path only what was
  -- left of the bytes of the file at that path; the budget is a nonzero number of 32 bits, the limit
  -- of bytes is below 2^64 - 1 and the limit of files at most that.
  pub build_baseline_context-IsBaseline :
      (sha256 : Bytes → Bytes) (tables : CharTables) (entries : List Entry) (cache : Cache)
      (query : Chars) (budget : TokenBudget)
      → ((text : Bytes) → All IsByte (sha256 text) × (length (sha256 text) ≡ 32))
      → IsNonZeroU32 budget
      → All (EntryIsHonest lib self Had) (map (λ e. (false, e)) entries)
      → CacheIsSound lib self Had cache
      → (b : BaselineContext) × (build_baseline_context lib tables sha256
            (ok self)
            entries
            cache
            query
            budget
          ≡ ok (some b))
        × IsBaseline budget b
  unfolding build_baseline_context
  build_baseline_context-IsBaseline sha256 tables entries cache query budget digest v hs c =
      let asked = repository_query lib tables sha256 query in
      let ((scan, after), scanned) =
        scan_chunked_total asked (chunk_bytes budget) cache entries (chunk_bytes-positive budget) in
      let (b, built) = bundle_scan_total sha256 tables budget scan digest in
      (
        b,
        rw (scanned, built) refl,
        bundle_scan-IsBaseline sha256 tables budget scan b v
            (scan_chunked-FromSource asked (chunk_bytes budget) cache after entries scan hs c
              scanned)
            built,
      )
