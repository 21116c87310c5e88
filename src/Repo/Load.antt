-- ===== src/Repo/Load.antt =====
-- crates/ts-repo/src/lib.rs: `load_text`, which reads a file, redacts it and caches the result while
-- the file does not change. What the operating system answers in one attempt is a record; a path that
-- is canonical is the list of its components below the file system's root.
pub mod Laws
use token_shrinker.Prelude.{
  ℕ, ◌<◌, Bool, true, false, ◌&&◌, ◌||◌, not, Option, none, some, List, [], ◌∷◌, any, ◌==◌, ltb,
  if◌then◌else◌, Result, ok, err,
}
use token_shrinker.Prelude.Bytes.{Bytes, eq_bytes}
use token_shrinker.Prelude.Integers.{ℤ, pos, negsuc}
use token_shrinker.Prelude.Unicode.{Unicode}
use token_shrinker.Context.ContentHash.{ContentHash, hex}
use token_shrinker.Context.Candidate
use token_shrinker.Context.Candidate.{Sensitivity}
use token_shrinker.Repo.Redaction.{RedactionResult}

abbrev pub FilePath : Type 0
FilePath = List Bytes

pub data ScanWarningKind : Type 0 where
  too_large binary generated unsupported_path unreadable outside_root file_limit_reached
        total_bytes_limit_reached cancelled :
      ScanWarningKind

-- `SystemTime` in nanoseconds from the epoch
pub record Metadata : Type 0 where
  pub length : ℕ
  pub modified : Option ℤ

pub record CachedText : Type 0 where
  pub length : ℕ
  pub modified : Option ℤ
  pub content : Bytes
  pub content_hash : ContentHash
  pub sensitivity : Sensitivity
  pub redactions : ℕ

-- `BTreeMap<PathBuf, CachedText>`, as what `get` answers.
abbrev pub Cache : Type 0
Cache = FilePath → Option CachedText

abbrev pub eq_path : FilePath → FilePath → Bool
eq_path [] [] = true
eq_path [] (q ∷ qs) = false
eq_path (p ∷ ps) [] = false
eq_path (p ∷ ps) (q ∷ qs) = eq_bytes p q && eq_path ps qs

abbrev pub insert_text : FilePath → CachedText → Cache → Cache
insert_text path cached cache other = if eq_path other path then some cached else cache other

-- The answers of one attempt: the calls of `metadata` and `read` that fail are `none`, and the lock of the
-- cache can be poisoned.
pub record Attempt : Type 0 where
  pub before : Option Metadata
  pub lookup_locks : Bool
  pub bytes : Option Bytes
  pub after : Option Metadata
  pub final : Option Metadata
  pub insert_locks : Bool

-- How an attempt ends: with a text, by a skip, or because the file changed (`continue`).
pub data Outcome : Type 0 where
  loaded : CachedText → Bool → Cache → Outcome
  skipped : ScanWarningKind → Outcome
  changed : Outcome

abbrev pub eq_int : ℤ → ℤ → Bool
eq_int (pos a) (pos b) = a == b
eq_int (pos a) (negsuc b) = false
eq_int (negsuc a) (pos b) = false
eq_int (negsuc a) (negsuc b) = a == b

abbrev pub eq_modified : Option ℤ → Option ℤ → Bool
eq_modified none none = true
eq_modified none (some b) = false
eq_modified (some a) none = false
eq_modified (some a) (some b) = eq_int a b

-- `length` and `modified` are those of the metadata.
abbrev pub is_unchanged : ℕ → Option ℤ → Metadata → Bool
is_unchanged length modified m = length == m.length && eq_modified modified m.modified

abbrev pub fresh : Metadata → Option CachedText → Option CachedText
fresh before none = none
fresh before (some cached) =
    if is_unchanged cached.length cached.modified before then some cached else none

-- The text, whether it came from the cache, and the cache afterwards; or why the file is skipped.
abbrev pub Loaded : Type 0
Loaded = Result (CachedText × Bool × Cache) ScanWarningKind

-- The second round of the loop has no third: a file that changes again is unreadable.
abbrev pub last_round : Outcome → Loaded
last_round (loaded cached hit cache) = ok (cached, hit, cache)
last_round (skipped kind) = err kind
last_round changed = err unreadable

abbrev pub first_round : Outcome → Loaded → Loaded
first_round (loaded cached hit cache) again = ok (cached, hit, cache)
first_round (skipped kind) again = err kind
first_round changed again = again

pub record RepositoryProvider : Type 0 where
  pub root : FilePath
  pub max_file_bytes : ℕ
  pub max_files : ℕ
  pub max_total_bytes : ℕ
  -- `redaction_policy.redact`
  pub redact : Bytes → RedactionResult

-- What is not in the repository: Unicode, `str::from_utf8(bytes).is_ok()` and SHA-256.
pub record Libraries : Type 0 where
  pub unicode : Unicode
  pub is_utf8 : Bytes → Bool
  pub sha256 : Bytes → Bytes

-- `ContentHash::new` accepts the 64 digits, so the `expect` does not fail: a digest has 32 bytes.
abbrev pub hash_content : Libraries → Bytes → ContentHash
unfolding hex
hash_content lib content = record { value = hex (lib.sha256 content) }

module _ (lib : Libraries) (self : RepositoryProvider) where
  -- The text for the cache, with the metadata that were read last.
  unfoldable pub text_of : RedactionResult → Metadata → CachedText
  text_of redacted final = record {
    length = final.length;
    modified = final.modified;
    content = redacted.content;
    content_hash = hash_content lib redacted.content;
    sensitivity = if ltb 0 redacted.redactions then Candidate.redacted else Candidate.is_public;
    redactions = redacted.redactions;
  }

  -- From the third call of `metadata` on.
  unfoldable pub store_text :
      FilePath → Cache → Attempt → RedactionResult → Metadata → Option Metadata → Outcome
  unfolding text_of
  store_text path cache answers redacted after none = skipped unreadable
  store_text path cache answers redacted after (some final) =
      let cached = text_of redacted final in
      if is_unchanged after.length after.modified final
      then loaded cached false
          (if answers.insert_locks then insert_text path cached cache else cache)
      else changed

  -- From the second call of `metadata` on.
  unfoldable pub redact_text :
      FilePath → Cache → Attempt → Bytes → Metadata → Option Metadata → Outcome
  unfolding store_text
  redact_text path cache answers raw before none = skipped unreadable
  redact_text path cache answers raw before (some after) =
      if is_unchanged before.length before.modified after
      then store_text path cache answers (self.redact raw) after answers.final
      else changed

  unfoldable pub read_text : FilePath → Cache → Attempt → Metadata → Option Bytes → Outcome
  unfolding redact_text
  read_text path cache answers before none = skipped unreadable
  read_text path cache answers before (some bytes) =
      if any (λ b. b == 0) bytes || not (lib.is_utf8 bytes)
      then skipped binary
      else redact_text path cache answers bytes before answers.after

  unfoldable pub use_cache : FilePath → Cache → Attempt → Metadata → Option CachedText → Outcome
  unfolding read_text
  use_cache path cache answers before (some cached) = loaded cached true cache
  use_cache path cache answers before none = read_text path cache answers before answers.bytes

  unfoldable pub attempt_with : FilePath → Cache → Attempt → Option Metadata → Outcome
  unfolding use_cache
  attempt_with path cache answers none = skipped unreadable
  attempt_with path cache answers (some before) =
      if ltb self.max_file_bytes before.length
      then skipped too_large
      else use_cache path cache answers before
          (if answers.lookup_locks then fresh before (cache path) else none)

  -- The body of the loop.
  unfoldable pub attempt : FilePath → Cache → Attempt → Outcome
  unfolding attempt_with
  attempt path cache answers = attempt_with path cache answers answers.before

  unfoldable pub load_text : FilePath → Cache → Attempt → Attempt → Loaded
  unfolding attempt
  load_text path cache first second =
      first_round (attempt path cache first) (last_round (attempt path cache second))
