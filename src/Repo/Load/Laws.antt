-- ===== src/Repo/Load/Laws.antt =====
-- crates/ts-repo/src/lib.rs: `load_text`, with what the attempts of the operating system find.
use token_shrinker.Prelude.{
  ◌≡◌, refl, ◌≤◌, true, false, Option, none, some, [], ◌∷◌, any, ◌==◌, ltb, if◌then◌else◌, ok, err,
  arith, Bool-cases, inl, inr,
}
use token_shrinker.Prelude.Bytes.{Bytes, eq_bytes_iff}
use token_shrinker.Context.Candidate
use token_shrinker.Repo.Load.{
  hash_content, FilePath, Metadata, CachedText, Cache, eq_path, insert_text, Attempt, Outcome,
  loaded, skipped, changed, fresh, is_unchanged, text_of, store_text, redact_text, read_text,
  use_cache, attempt_with, attempt, Loaded, first_round, last_round, load_text, RepositoryProvider,
  Libraries,
}

eq_path-eq-true : (p q : FilePath) → eq_path p q ≡ true → p ≡ q
eq_path-eq-true [] [] h = refl
eq_path-eq-true [] (b ∷ q) h = cc
eq_path-eq-true (a ∷ p) [] h = cc
eq_path-eq-true (a ∷ p) (b ∷ q) h =
    let same = (eq_bytes_iff a b).0 (ground (arith, h)) in
    let more = eq_path-eq-true p q (ground (arith, h)) in rw (same, more) refl

-- `Had path raw` says that the file at the canonical path had the bytes.
module _ (lib : Libraries) (self : RepositoryProvider) (Had : FilePath → Bytes → Type 0) where
  -- The text is what the policy left of the bytes that the file at the path had, with its hash and its
  -- sensitivity.
  pub record IsRedacted (path : FilePath) (cached : CachedText) : Type 0 where
    pub raw : Bytes
    pub was_there : Had path raw
    pub has_no_zero : any (λ b. b == 0) raw ≡ false
    pub is_text : lib.is_utf8 raw ≡ true
    pub content : cached.content ≡ (self.redact raw).content
    pub redactions : cached.redactions ≡ (self.redact raw).redactions
    pub hash : cached.content_hash ≡ hash_content lib cached.content
    pub sensitivity :
        cached.sensitivity
        ≡ (if ltb 0 (self.redact raw).redactions then Candidate.redacted else Candidate.is_public)
    pub small : cached.length ≤ self.max_file_bytes

  abbrev pub Holds : FilePath → Option CachedText → Type 0
  Holds path none = Unit
  Holds path (some cached) = IsRedacted path cached

  -- Every text of the cache is such a text, of the file at its path.
  abbrev pub CacheIsSound : Cache → Type 0
  CacheIsSound cache = (path : FilePath) → Holds path (cache path)

  -- Both reads of the file are of what it had.
  pub record IsHonest (path : FilePath) (answers : Attempt) : Type 0 where
    pub had : (raw : Bytes) → answers.bytes ≡ some raw → Had path raw

  insert_text-IsSound :
      (path : FilePath) (cached : CachedText) (cache : Cache)
      → IsRedacted path cached
      → CacheIsSound cache
      → CacheIsSound (insert_text path cached cache)
  insert_text-IsSound path cached cache r s other = elim (Bool-cases (eq_path other path)) [
    | inl e ↦ rw e (rw (← eq_path-eq-true other path e) at r)
    | inr e ↦ rw e (s other)
  ]

  -- A good end of an attempt: the text is redacted, and the cache sound.
  abbrev EndsWell : FilePath → Outcome → Type 0
  EndsWell path (loaded cached hit cache) = IsRedacted path cached × CacheIsSound cache
  EndsWell path (skipped kind) = Unit
  EndsWell path changed = Unit

  module _ (path : FilePath) (cache : Cache) (sound : CacheIsSound cache) (answers : Attempt)
      (honest : IsHonest path answers) where
    store_text-EndsWell :
        (raw : Bytes) (after : Metadata)
        → any (λ b. b == 0) raw ≡ false
        → lib.is_utf8 raw ≡ true
        → Had path raw
        → after.length ≤ self.max_file_bytes
        → (final : Option Metadata)
        → EndsWell path (store_text lib self path cache answers (self.redact raw) after final)
    unfolding store_text text_of
    store_text-EndsWell raw after z u w l none = tt
    store_text-EndsWell raw after z u w l (some final) =
        elim (Bool-cases (is_unchanged after.length after.modified final)) [
          | inl e ↦
              let cached = text_of lib self (self.redact raw) final in
              let good : IsRedacted path cached = record {
                raw = raw;
                was_there = w;
                has_no_zero = z;
                is_text = u;
                content = refl;
                redactions = refl;
                hash = refl;
                sensitivity = refl;
                small = ground (arith, e);
              } in
              elim (Bool-cases answers.insert_locks) [
                | inl i ↦ rw (e, i) (good, insert_text-IsSound path cached cache good sound)
                | inr i ↦ rw (e, i) (good, sound)
              ]
          | inr e ↦ rw e tt
        ]

    redact_text-EndsWell :
        (raw : Bytes) (before : Metadata)
        → any (λ b. b == 0) raw ≡ false
        → lib.is_utf8 raw ≡ true
        → Had path raw
        → before.length ≤ self.max_file_bytes
        → (after : Option Metadata)
        → EndsWell path (redact_text lib self path cache answers raw before after)
    unfolding redact_text
    redact_text-EndsWell raw before z u w l none = tt
    redact_text-EndsWell raw before z u w l (some after) =
        elim (Bool-cases (is_unchanged before.length before.modified after)) [
          | inl e ↦ rw e (store_text-EndsWell raw after z u w (ground (arith, e)) answers.final)
          | inr e ↦ rw e tt
        ]

    read_text-EndsWell :
        (before : Metadata)
        → before.length ≤ self.max_file_bytes
        → (bytes : Option Bytes) → answers.bytes ≡ bytes
        → EndsWell path (read_text lib self path cache answers before bytes)
    unfolding read_text
    read_text-EndsWell before l none r = tt
    read_text-EndsWell before l (some raw) r = elim (Bool-cases (any (λ b. b == 0) raw)) [
      | inl e ↦ rw e tt
      | inr e ↦ elim (Bool-cases (lib.is_utf8 raw)) [
        | inl u ↦ rw (e, u) (redact_text-EndsWell raw before e u (honest.had raw r) l answers.after)
        | inr u ↦ rw (e, u) tt
      ]
    ]

    use_cache-EndsWell :
        (before : Metadata)
        → before.length ≤ self.max_file_bytes
        → (found : Option CachedText) → Holds path found
        → EndsWell path (use_cache lib self path cache answers before found)
    unfolding use_cache
    use_cache-EndsWell before l none h = read_text-EndsWell before l answers.bytes refl
    use_cache-EndsWell before l (some cached) h = (h, sound)

    fresh-Holds :
        (before : Metadata) (found : Option CachedText)
        → Holds path found
        → Holds path (fresh before found)
    fresh-Holds before none h = tt
    fresh-Holds before (some cached) h =
        elim (Bool-cases (is_unchanged cached.length cached.modified before)) [
          | inl e ↦ rw e h
          | inr e ↦ rw e tt
        ]

    lookup-Holds :
        (before : Metadata)
        → Holds path (if answers.lookup_locks then fresh before (cache path) else none)
    lookup-Holds before = elim (Bool-cases answers.lookup_locks) [
      | inl e ↦ rw e (fresh-Holds before (cache path) (sound path))
      | inr e ↦ rw e tt
    ]

    attempt_with-EndsWell :
        (before : Option Metadata) → EndsWell path (attempt_with lib self path cache answers before)
    unfolding attempt_with
    attempt_with-EndsWell none = tt
    attempt_with-EndsWell (some before) =
        elim (Bool-cases (ltb self.max_file_bytes before.length)) [
          | inl e ↦ rw e tt
          | inr e ↦ rw e (
              use_cache-EndsWell before (ground (arith, e))
                (if answers.lookup_locks then fresh before (cache path) else none)
                (lookup-Holds before))
        ]

    attempt-EndsWell : EndsWell path (attempt lib self path cache answers)
    unfolding attempt
    attempt-EndsWell = attempt_with-EndsWell answers.before

  -- What a call of `load_text` promises.
  abbrev pub LoadIsSound : FilePath → Loaded → Type 0
  LoadIsSound path (ok (cached, hit, cache)) = IsRedacted path cached × CacheIsSound cache
  LoadIsSound path (err kind) = Unit

  rounds-LoadIsSound :
      (path : FilePath) (first second : Outcome)
      → EndsWell path first
      → EndsWell path second
      → LoadIsSound path (first_round first (last_round second))
  rounds-LoadIsSound path (loaded cached hit cache) second f s = f
  rounds-LoadIsSound path (skipped kind) second f s = tt
  rounds-LoadIsSound path changed (loaded cached hit cache) f s = s
  rounds-LoadIsSound path changed (skipped kind) f s = tt
  rounds-LoadIsSound path changed changed f s = tt

  pub load_text-LoadIsSound :
      (path : FilePath) (cache : Cache) (first second : Attempt)
      → CacheIsSound cache
      → IsHonest path first
      → IsHonest path second
      → LoadIsSound path (load_text lib self path cache first second)
  unfolding load_text
  load_text-LoadIsSound path cache first second s f g =
      rounds-LoadIsSound path _ _ (attempt-EndsWell path cache s first f)
        (attempt-EndsWell path cache s second g)
