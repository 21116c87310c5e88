-- ===== src/Repo/Scan/Laws.antt =====
-- crates/ts-repo/src/lib.rs: `candidate_from_path`, with what the operating system answers.
use token_shrinker.Prelude.{
  ◌≡◌, refl, sym, ap, ◌∙◌, Option, none, some, [], ◌∷◌, ◌++◌, map, Result, ok, err, ok_or, ◌>>=◌,
  >>=-eq-ok, map_err, arith, Bool-cases, inl, inr,
}
use token_shrinker.Prelude.Bytes.{Bytes, eq_bytes, eq_bytes_iff}
use token_shrinker.Context.SourceId
use token_shrinker.Context.SourceId.{SourceId, SourceIdError}
use token_shrinker.Context.SourceId.Laws.{new-value}
use token_shrinker.Context.Candidate.{ContextCandidate}
use token_shrinker.Repo.Paths.{normal, normalized_relative}
use token_shrinker.Repo.Chunks.{RepositoryQuery}
use token_shrinker.Repo.Load.{
  FilePath, ScanWarningKind, CachedText, Cache, Loaded, load_text, RepositoryProvider, Libraries,
}
use token_shrinker.Repo.Load.Laws.{
  IsRedacted, IsHonest, CacheIsSound, LoadIsSound, load_text-LoadIsSound,
}
use token_shrinker.Repo.Files.{
  FileAnswers, file_skip, strip_prefix, file_handle, with_relevance, make_candidate, locate,
  load_located, candidate_from_path, Candidates,
}

strip_prefix-eq-some :
    (root path rest : FilePath) → strip_prefix root path ≡ some rest → path ≡ root ++ rest
unfolding strip_prefix
strip_prefix-eq-some [] path rest h = ground arith
strip_prefix-eq-some (r ∷ root) [] rest h = cc
strip_prefix-eq-some (r ∷ root) (p ∷ path) rest h = elim (Bool-cases (eq_bytes r p)) [
  | inl e ↦
      let same = (eq_bytes_iff r p).0 e in
      let more = strip_prefix-eq-some root path rest (rw e at h) in rw (same, more) refl
  | inr e ↦ let never = rw e at h in cc
]

pub ok_or-eq-ok {ℓ κ} :
    {T : Type ℓ} {E : Type κ} (o : Option T) (e : E) (t : T) → ok_or o e ≡ ok t → o ≡ some t
ok_or-eq-ok none e t h = cc
ok_or-eq-ok (some u) e t h = cc

module _ (lib : Libraries) (self : RepositoryProvider) (Had : FilePath → Bytes → Type 0) where
  -- The candidate is the redacted text of what a file below the root had, and its handle and its location name
  -- the path of that file from the root.
  pub record IsAdmitted (c : ContextCandidate) : Type 0 where
    pub path : FilePath
    pub text : CachedText
    pub is_redacted : IsRedacted lib self Had path text
    pub content : c.content ≡ text.content
    pub hash : c.content_hash ≡ text.content_hash
    pub sensitivity : c.sensitivity ≡ text.sensitivity
    pub relative : FilePath
    pub below : path ≡ self.root ++ relative
    pub uri : normalized_relative lib.is_utf8 (map normal relative) ≡ some c.location.uri
    pub handle : c.source_id.value ≡ file_handle lib self c.location.uri

  -- What the two attempts read of the file is what it had.
  pub record AreHonest (answers : FileAnswers) : Type 0 where
    pub first :
        (path : FilePath) → answers.canonical ≡ some path → IsHonest lib self Had path answers.first
    pub second :
        (path : FilePath)
        → answers.canonical ≡ some path
        → IsHonest lib self Had path answers.second

  -- Where a location is found, it is below the root.
  pub record IsLocated (answer : Option FilePath) (canonical : FilePath) (text : Bytes)
      : Type 0 where
    pub answered : answer ≡ some canonical
    pub relative : FilePath
    pub below : canonical ≡ self.root ++ relative
    pub uri : normalized_relative lib.is_utf8 (map normal relative) ≡ some text

  pub locate-eq-ok :
      (answer : Option FilePath) (canonical : FilePath) (text : Bytes)
      → locate lib self answer ≡ ok (canonical, text)
      → IsLocated answer canonical text
  unfolding locate
  locate-eq-ok none canonical text h = cc
  locate-eq-ok (some path) canonical text h =
      let (relative, s, g) = >>=-eq-ok (ok_or (strip_prefix self.root path) _) _ h in
      let (uri, n, f) =
        >>=-eq-ok (ok_or (normalized_relative lib.is_utf8 (map normal relative)) _) _ g in
      let path_is : path ≡ canonical = cc in
      let text_is : uri ≡ text = cc in
      record {
        answered = ap some path_is;
        relative = relative;
        below =
            sym path_is
            ∙ strip_prefix-eq-some self.root path relative
                (ok_or-eq-ok (strip_prefix self.root path) _ relative s);
        uri =
            ok_or-eq-ok (normalized_relative lib.is_utf8 (map normal relative)) _ uri n
            ∙ ap some text_is;
      }

  -- What a file yields: an admitted candidate or a reason, and a sound cache.
  abbrev pub YieldIsSound : Candidates lib self → Type 0
  YieldIsSound (ok l, cache) = IsAdmitted l.candidate × CacheIsSound lib self Had cache
  YieldIsSound (err skip, cache) = CacheIsSound lib self Had cache

  make_candidate-YieldIsSound :
      (query : RepositoryQuery) (path : FilePath) (answer : Option FilePath) (canonical : FilePath)
      (text : Bytes)
      → IsLocated answer canonical text
      → (cache : Cache) (result : Loaded) → CacheIsSound lib self Had cache
      → LoadIsSound lib self Had canonical result
      → YieldIsSound (make_candidate lib self query path canonical text cache result)
  unfolding file_skip make_candidate with_relevance
  make_candidate-YieldIsSound query path answer canonical text l cache (err kind) s h = s
  make_candidate-YieldIsSound query path answer canonical text l cache (ok (cached, hit, after)) s
        (r, t) =
      by_handle (SourceId.new (file_handle lib self text)) refl
    where
      by_handle :
          (made : Result SourceId SourceIdError)
          → SourceId.new (file_handle lib self text) ≡ made
          → YieldIsSound (
            map_err (λ e. file_skip lib self path ScanWarningKind.unsupported_path) made
                >>= (λ source_id. ok (record {
                  candidate = with_relevance lib self query text cached source_id;
                  cache_hit = hit;
                  redactions = cached.redactions;
                })),
            after,
          )
      by_handle (err e) h = t
      by_handle (ok source_id) h = (
        record {
          text = cached;
          is_redacted = r;
          content = refl;
          hash = refl;
          sensitivity = refl;
          path = canonical;
          relative = l.relative;
          below = l.below;
          uri = l.uri;
          handle = new-value (file_handle lib self text) source_id h;
        },
        t,
      )

  load_located-YieldIsSound :
      (query : RepositoryQuery) (cache : Cache) (path : FilePath) (answers : FileAnswers)
      → AreHonest answers
      → CacheIsSound lib self Had cache
      → (located : Result (FilePath × Bytes) ScanWarningKind)
      → locate lib self answers.canonical ≡ located
      → YieldIsSound (load_located lib self cache path answers query located)
  unfolding load_located
  load_located-YieldIsSound query cache path answers h s (err kind) e = s
  load_located-YieldIsSound query cache path answers h s (ok (canonical, text)) e =
      let located = locate-eq-ok answers.canonical canonical text e in
      let at_canonical = located.answered in
      make_candidate-YieldIsSound query path answers.canonical canonical text located cache
        (load_text lib self canonical cache answers.first answers.second) s
        (load_text-LoadIsSound lib self Had canonical cache answers.first answers.second s
          (h.first canonical at_canonical) (h.second canonical at_canonical))

  pub candidate_from_path-YieldIsSound :
      (query : RepositoryQuery) (cache : Cache) (path : FilePath) (answers : FileAnswers)
      → AreHonest answers
      → CacheIsSound lib self Had cache
      → YieldIsSound (candidate_from_path lib self cache path answers query)
  unfolding candidate_from_path
  candidate_from_path-YieldIsSound query cache path answers h s =
      load_located-YieldIsSound query cache path answers h s (locate lib self answers.canonical)
        refl
