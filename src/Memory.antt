-- ===== src/Memory.antt =====
-- crates/ts-memory/src/lib.rs: `MemoryScope`, `NewMemory`, `MemoryRecord` and `MemoryError`.
pub mod Rows
pub mod Store
use mathlib.Core.Option
use token_shrinker.Prelude.{
  ℕ, zero, suc, Bool, true, false, Option, none, some, List, [], ◌∷◌, ◌++◌, Result, ok, err, ◌>>=◌,
  ◌>>◌, refuse_if, map_err, if◌then◌else◌,
}
use token_shrinker.Prelude.Bytes.{Bytes, ascii, is_empty}
use token_shrinker.Prelude.Integers.{ℤ, leb_int}
use token_shrinker.Context.SourceId.{SourceId}
use token_shrinker.Context.SourceId
use token_shrinker.Context.ContentHash.{ContentHash, hex}
use token_shrinker.Context.ContentHash
use token_shrinker.Context.Candidate.{
  ContextCandidate, SourceKind, memory, SourceLocation, Sensitivity, is_private,
}
use token_shrinker.Context.Build.{expect}

pub data MemoryScope : Type 0 where
  user : MemoryScope
  repository : Bytes → MemoryScope

-- Over the errors of the crates `rusqlite` and `r2d2`.
pub data MemoryError (E P : Type 0) : Type 0 where
  sqlite : E → MemoryError E P
  pool : P → MemoryError E P
  zero_pool_size empty_repository_scope invalid_memory_id invalid_expiration : MemoryError E P
  newer_schema : ℤ → MemoryError E P
  integrity : Bytes → MemoryError E P

pub record NewMemory : Type 0 where
  pub id : Bytes
  pub scope : MemoryScope
  pub content : Bytes
  pub created_at_unix_ms : ℤ
  pub expires_at_unix_ms : Option ℤ

pub record MemoryRecord : Type 0 where
  pub id : Bytes
  pub scope : MemoryScope
  pub content : Bytes
  pub created_at_unix_ms : ℤ
  pub expires_at_unix_ms : Option ℤ

-- `format!("memory:{}", id)`
abbrev pub memory_uri : Bytes → Bytes
memory_uri id = ascii "memory:" ++ id

-- `is_some_and(|expiration| expiration <= instant)`
abbrev pub expires_by : ℤ → Option ℤ → Bool
expires_by instant none = false
expires_by instant (some expiration) = leb_int expiration instant

module _ {E P : Type 0} where
  unfoldable pub database_parts : MemoryScope → Result (Bytes × Bytes) (MemoryError E P)
  database_parts user = ok (ascii "user", [])
  database_parts (repository key) =
      if is_empty key then err empty_repository_scope else ok (ascii "repository", key)

  unfoldable pub validate_memory : NewMemory → Result (Unit {0}) (MemoryError E P)
  unfolding database_parts SourceId.new
  validate_memory m =
      map_err (λ _. invalid_memory_id) (SourceId.new (memory_uri m.id))
      >> database_parts m.scope
      >> refuse_if (expires_by m.created_at_unix_ms m.expires_at_unix_ms) invalid_expiration

-- `hash_content`, over the digest function of the crate `sha2`; its panic is `none`.
unfoldable pub hash_content : (Bytes → Bytes) → Bytes → Option ContentHash
unfolding hex ContentHash.new
hash_content sha256 content = expect (ContentHash.new (hex (sha256 content)))

abbrev pub candidate_of : MemoryRecord → SourceId → ContentHash → ContextCandidate
candidate_of r source_id content_hash = record {
  source_id = source_id;
  source_kind = memory;
  location = record { uri = memory_uri r.id; start_line = none; end_line = none };
  content = r.content;
  content_hash = content_hash;
  sensitivity = is_private;
  modified_unix_ms = some r.created_at_unix_ms;
  relevance = record {
    exact_match = true;
    term_match_count = 0;
    path_match = false;
    diagnostic = false;
    freshness = 0;
  };
}

module _ {E P : Type 0} where
  -- From the source handle on.
  abbrev pub addressed :
      (Bytes → Bytes)
      → MemoryRecord
      → Result SourceId (MemoryError E P)
      → Option (Result ContextCandidate (MemoryError E P))
  addressed sha256 r (err e) = some (err e)
  addressed sha256 r (ok source_id) =
      Option.map (λ content_hash. ok (candidate_of r source_id content_hash))
        (hash_content sha256 r.content)

  -- `MemoryRecord::into_candidate`
  unfoldable pub into_candidate :
      (Bytes → Bytes) → MemoryRecord → Option (Result ContextCandidate (MemoryError E P))
  unfolding hash_content
  into_candidate sha256 r =
      addressed sha256 r (map_err (λ _. invalid_memory_id) (SourceId.new (memory_uri r.id)))
