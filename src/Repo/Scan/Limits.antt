-- ===== src/Repo/Scan/Limits.antt =====
-- The loop of a scan keeps its limits, and admits only what may be admitted.
use token_shrinker.Prelude.{
  ℕ, ◌+◌, ◌^◌, ◌≡◌, refl, ◌≤◌, ◌<◌, Bool, true, false, List, [], ◌∷◌, length, All, All-append,
  sum_of, sum_of-append, length-append, ok, err, ◌==◌, ltb, if◌then◌else◌, u64_max, to_u64, add64,
  saturating_add, arith, Bool-cases, inl, inr, to_u64_lem,
}
use token_shrinker.Prelude.Bytes.{Bytes}
use token_shrinker.Prelude.Order.{cmp_bytes-IsOrder, IsPreorder}
use token_shrinker.Prelude.Sort.{IsSorted, sort_by-IsSorted, All-sort_by, sum_of-sort_by}
use token_shrinker.Prelude.Filters.{length-sort_by}
use token_shrinker.Context.Candidate.{ContextCandidate}
use token_shrinker.Repo.Chunks.{RepositoryQuery}
use token_shrinker.Repo.Load.{FilePath, Cache, RepositoryProvider, Libraries}
use token_shrinker.Repo.Load.Laws.{CacheIsSound}
use token_shrinker.Repo.Files.{
  LoadedCandidate, FileAnswers, Candidates, candidate_from_path, is_likely_generated,
  is_git_metadata,
}
use token_shrinker.Repo.Scan.{
  ScanResult, Entry, failed, other, file, Scan, scan_start, retain, settle, visit_file, visit, turn,
  scan_loop, by_uri, scan_cancellable,
}
use token_shrinker.Repo.Scan.Laws.{
  IsAdmitted, AreHonest, YieldIsSound, candidate_from_path-YieldIsSound,
}

abbrev content_length : ContextCandidate → ℕ
content_length c = length c.content

-- The types of the limits.
pub record LimitsFit (lib : Libraries) (self : RepositoryProvider) : Type 0 where
  pub bytes : self.max_total_bytes < u64_max
  pub files : self.max_files ≤ u64_max

module _ (lib : Libraries) (self : RepositoryProvider) (Had : FilePath → Bytes → Type 0) where
  -- What is read of a file of the walk is what it had.
  abbrev pub EntryIsHonest : Bool × Entry → Type 0
  EntryIsHonest (off, failed message) = Unit
  EntryIsHonest (off, other) = Unit
  EntryIsHonest (off, file path answers) = AreHonest lib self Had answers

  -- The invariant of the loop.
  pub record ScanIsSound (s : Scan) : Type 0 where
    pub admitted : All (IsAdmitted lib self Had) s.candidates
    pub cached : CacheIsSound lib self Had s.cache
    pub retained : sum_of content_length s.candidates ≡ s.retained_bytes
    pub within : s.retained_bytes ≤ self.max_total_bytes
    pub counted : length s.candidates ≤ s.visited_files
    pub files : s.visited_files ≤ self.max_files

  module _ (query : RepositoryQuery) (limits : LimitsFit lib self) where
    retain_fits :
        (s : Scan) (l : LoadedCandidate) (cache : Cache)
        → IsAdmitted lib self Had l.candidate
        → CacheIsSound lib self Had cache
        → ScanIsSound s
        → length s.candidates < s.visited_files
        → s.retained_bytes + length l.candidate.content ≤ self.max_total_bytes
        → ScanIsSound (retain lib self query s l cache)
    unfolding retain
    retain_fits s l cache a c i room h =
        let small : length l.candidate.content < 2 ^ 64 = omega (arith, limits.bytes) in
        let fits : ltb self.max_total_bytes
              (saturating_add s.retained_bytes (length l.candidate.content))
            ≡ false =
          ground (arith, limits.bytes) in
        let exact : add64 s.retained_bytes (length l.candidate.content)
            ≡ s.retained_bytes + length l.candidate.content =
          omega (arith, limits.bytes) in
        rw (to_u64_lem (length l.candidate.content) small, fits, exact)
          (record {
            admitted =
                All-append (IsAdmitted lib self Had) s.candidates (l.candidate ∷ []) i.admitted
                  (a, tt);
            cached = c;
            retained = omega (
              arith,
              i.retained,
              sum_of-append {0} content_length s.candidates (l.candidate ∷ []),
            );
            within = h;
            counted = omega (arith, room, length-append {0} s.candidates (l.candidate ∷ []));
            files = i.files;
          })

    -- A warning, a cancellation or a `break` changes nothing that is counted.
    warned :
        (s t : Scan)
        → ScanIsSound s
        → t.candidates ≡ s.candidates
        → t.visited_files ≡ s.visited_files
        → t.retained_bytes ≡ s.retained_bytes
        → CacheIsSound lib self Had t.cache
        → ScanIsSound t
    warned s t i c v r k = record {
      admitted = rw c (i.admitted);
      cached = k;
      retained = rw (c, r) (i.retained);
      within = rw r (i.within);
      counted = rw (c, v) (i.counted);
      files = rw v (i.files);
    }

    retain_over :
        (s : Scan) (l : LoadedCandidate) (cache : Cache)
        → CacheIsSound lib self Had cache
        → ScanIsSound s
        → ltb self.max_total_bytes
            (saturating_add s.retained_bytes (to_u64 (length l.candidate.content)))
          ≡ true
        → ScanIsSound (retain lib self query s l cache)
    unfolding retain
    retain_over s l cache c i e = rw e (warned s _ i refl refl refl c)

    retain-ScanIsSound :
        (s : Scan) (l : LoadedCandidate) (cache : Cache)
        → IsAdmitted lib self Had l.candidate
        → CacheIsSound lib self Had cache
        → ScanIsSound s
        → length s.candidates < s.visited_files
        → ScanIsSound (retain lib self query s l cache)
    retain-ScanIsSound s l cache a c i room =
        elim (Bool-cases (
          ltb self.max_total_bytes
            (saturating_add s.retained_bytes (to_u64 (length l.candidate.content))))) [
              | inl e ↦ over e
              | inr e ↦
                  retain_fits s l cache a c i room
                    (fits_bound s.retained_bytes (length l.candidate.content) e)
            ]
      where
        fits_bound :
            (r n : ℕ)
            → ltb self.max_total_bytes (saturating_add r (to_u64 n)) ≡ false
            → r + n ≤ self.max_total_bytes
        fits_bound r n e = ground (arith, limits.bytes)

        over :
            ltb self.max_total_bytes
                (saturating_add s.retained_bytes (to_u64 (length l.candidate.content)))
              ≡ true
            → ScanIsSound (retain lib self query s l cache)
        over e = retain_over s l cache c i e

    settle-ScanIsSound :
        (s : Scan) (yield : Candidates lib self)
        → YieldIsSound lib self Had yield
        → ScanIsSound s
        → length s.candidates < s.visited_files
        → ScanIsSound (settle lib self query s yield)
    unfolding settle
    settle-ScanIsSound s (ok l, cache) (a, c) i room = retain-ScanIsSound s l cache a c i room
    settle-ScanIsSound s (err kind, cache) c i room = warned s _ i refl refl refl c

    visited_more :
        (s : Scan)
        → ScanIsSound s
        → (s.visited_files == self.max_files) ≡ false
        → (add64 s.visited_files 1 ≡ s.visited_files + 1) × (s.visited_files < self.max_files)
    visited_more s i e =
        let below : s.visited_files < self.max_files = ground (arith, i.files) in
        (omega (arith, limits.files), below)

    visit_file-ScanIsSound :
        (s : Scan) (path : FilePath) (answers : FileAnswers)
        → AreHonest lib self Had answers
        → ScanIsSound s
        → (s.visited_files == self.max_files) ≡ false
        → ScanIsSound (visit_file lib self query s path answers)
    unfolding visit_file
    visit_file-ScanIsSound s path answers h i e =
        let (exact, below) = visited_more s i e in
        let visited : ScanIsSound (record s { visited_files = add64 s.visited_files 1 }) = record {
          admitted = i.admitted;
          cached = i.cached;
          retained = i.retained;
          within = i.within;
          counted = omega (arith, exact, i.counted);
          files = omega (arith, exact);
        } in
        elim (Bool-cases (is_likely_generated lib self path)) [
          | inl g ↦ elim (Bool-cases (is_git_metadata lib self path)) [
            | inl m ↦ rw (g, m) visited
            | inr m ↦ rw (g, m) (warned _ _ visited refl refl refl visited.cached)
          ]
          | inr g ↦ rw g (
              settle-ScanIsSound _ (candidate_from_path lib self s.cache path answers query)
                (candidate_from_path-YieldIsSound lib self Had query s.cache path answers h
                  i.cached)
                visited (omega (arith, exact, i.counted)))
        ]

    visit-ScanIsSound :
        (s : Scan) (entry : Entry)
        → EntryIsHonest (false, entry)
        → ScanIsSound s
        → ScanIsSound (visit lib self query s entry)
    unfolding visit
    visit-ScanIsSound s (failed message) h i = warned s _ i refl refl refl i.cached
    visit-ScanIsSound s other h i = i
    visit-ScanIsSound s (file path answers) h i =
        elim (Bool-cases (s.visited_files == self.max_files)) [
          | inl e ↦ rw e (warned s _ i refl refl refl i.cached)
          | inr e ↦ rw e (visit_file-ScanIsSound s path answers h i e)
        ]

    turn-ScanIsSound :
        (s : Scan) (e : Bool × Entry)
        → EntryIsHonest e
        → ScanIsSound s
        → ScanIsSound (turn lib self query s e)
    unfolding turn
    turn-ScanIsSound s (true, entry) h i = warned s _ i refl refl refl i.cached
    turn-ScanIsSound s (false, failed message) h i = visit-ScanIsSound s (failed message) h i
    turn-ScanIsSound s (false, other) h i = visit-ScanIsSound s other h i
    turn-ScanIsSound s (false, file path answers) h i = visit-ScanIsSound s (file path answers) h i

    scan_loop-ScanIsSound :
        (s : Scan) (es : List (Bool × Entry))
        → All EntryIsHonest es
        → ScanIsSound s
        → ScanIsSound (scan_loop lib self query s es)
    unfolding scan_loop
    scan_loop-ScanIsSound s [] hs i = i
    scan_loop-ScanIsSound s (e ∷ es) (h, hs) i =
        let next = turn lib self query s e in
        elim s.broken as (λ b. ScanIsSound (if b then s else scan_loop lib self query next es)) [
          | true ↦ i
          | false ↦ scan_loop-ScanIsSound next es hs (turn-ScanIsSound s e h i)
        ]

    -- What a scan promises of its result and of the cache that it leaves.
    pub record ResultIsSound (result : ScanResult) (cache : Cache) : Type 0 where
      pub admitted : All (IsAdmitted lib self Had) result.candidates
      pub cached : CacheIsSound lib self Had cache
      pub bytes : sum_of content_length result.candidates ≤ self.max_total_bytes
      pub counted : length result.candidates ≤ result.trace.visited_files
      pub files : result.trace.visited_files ≤ self.max_files
      pub ordered : IsSorted (by_uri lib self query) result.candidates

    by_uri-IsPreorder : IsPreorder (by_uri lib self query)
    by_uri-IsPreorder = record {
      flip = λ a b. cmp_bytes-IsOrder.flip a.location.uri b.location.uri;
      lt_trans = λ a b c. cmp_bytes-IsOrder.lt_trans a.location.uri b.location.uri c.location.uri;
      eq_lt = λ a b c. cmp_bytes-IsOrder.eq_lt a.location.uri b.location.uri c.location.uri;
      lt_eq = λ a b c. cmp_bytes-IsOrder.lt_eq a.location.uri b.location.uri c.location.uri;
      eq_trans = λ a b c. cmp_bytes-IsOrder.eq_trans a.location.uri b.location.uri c.location.uri;
    }

    -- Whatever the walk and the operating system answer, and whenever the caller cancels: each candidate of a
    -- scan is what the redaction policy left of the bytes that were read, by this scan or by the one
    -- that filled the cache, from a file whose canonical path is below the root, which are a text
    -- without zero bytes; it has the hash of what was left, and its handle and location name that
    -- path. The cache again holds under each path only what was left of the bytes of the file at
    -- that path; the candidates have no more bytes than the limit, no more files are visited than
    -- the limit, and the candidates are in the order of their locations. `Had path raw` is any
    -- relation that holds of what the reads of the walk's files return at their canonical paths,
    -- and by which the cache is such at the start; the limit of bytes is below 2^64 - 1 and the
    -- limit of files at most that.
    pub scan_cancellable-IsSound :
        (cache : Cache) (entries : List (Bool × Entry))
        → All EntryIsHonest entries
        → CacheIsSound lib self Had cache
        → ResultIsSound
            (scan_cancellable lib self query cache entries).0
            (scan_cancellable lib self query cache entries).1
    unfolding scan_cancellable
    scan_cancellable-IsSound cache entries hs c =
        let start : ScanIsSound (scan_start cache) = record {
          admitted = tt;
          cached = c;
          retained = refl;
          within = omega arith;
          counted = omega arith;
          files = omega arith;
        } in
        let s = scan_loop lib self query (scan_start cache) entries in
        let i = scan_loop-ScanIsSound (scan_start cache) entries hs start in
        let visited = to_u64_lem s.visited_files (omega (arith, i.files, limits.files)) in
        let cmp = by_uri lib self query in
        record {
          admitted = All-sort_by cmp (IsAdmitted lib self Had) s.candidates i.admitted;
          cached = i.cached;
          bytes =
              omega (arith, sum_of-sort_by cmp content_length s.candidates, i.retained, i.within);
          counted = omega (arith, length-sort_by cmp s.candidates, visited, i.counted);
          files = omega (arith, visited, i.files);
          ordered = sort_by-IsSorted cmp by_uri-IsPreorder s.candidates;
        }
