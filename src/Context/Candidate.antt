-- ===== src/Context/Candidate.antt =====
-- crates/ts-context/src/lib.rs: `SourceKind`, `Sensitivity`, `SourceLocation` and
-- `ContextCandidate`.
use token_shrinker.Prelude.{ℕ, Option}
use token_shrinker.Prelude.Bytes.{Bytes}
use token_shrinker.Prelude.Integers.{ℤ}
use token_shrinker.Context.SourceId.{SourceId}
use token_shrinker.Context.ContentHash.{ContentHash}
use token_shrinker.Context.Relevance.{RelevanceSignals}

pub data SourceKind : Type 0 where
  repository_file repository_symbol repository_graph memory : SourceKind

pub data Sensitivity : Type 0 where
  is_public is_private redacted : Sensitivity

pub record SourceLocation : Type 0 where
  pub uri : Bytes
  pub start_line : Option ℕ
  pub end_line : Option ℕ

pub record ContextCandidate : Type 0 where
  pub source_id : SourceId
  pub source_kind : SourceKind
  pub location : SourceLocation
  pub content : Bytes
  pub content_hash : ContentHash
  pub sensitivity : Sensitivity
  pub modified_unix_ms : Option ℤ
  pub relevance : RelevanceSignals
