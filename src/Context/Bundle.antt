-- ===== src/Context/Bundle.antt =====
-- crates/ts-context/src/lib.rs: the parts of a `ContextBundle`, and its hash.
pub mod Framing
use token_shrinker.Prelude.{
  ℕ, zero, suc, ◌/◌, ◌%◌, List, [], ◌∷◌, ◌++◌, length, to_u64, Result, ok, err,
}
use token_shrinker.Prelude.Bytes.{Bytes}
use token_shrinker.Prelude.BigEndian.{to_be_bytes}
use token_shrinker.Types.Count.{TokenBudget, TokenCount}
use token_shrinker.Context.SourceId.{SourceId}
use token_shrinker.Context.ContentHash.{ContentHash, ContentHashError, digest_to_content_hash}
use token_shrinker.Context.Relevance.{ScoreComponent}
use token_shrinker.Context.Candidate.{SourceKind, Sensitivity, SourceLocation}

pub data OmissionReason : Type 0 where
  duplicate : SourceId → OmissionReason
  budget_exceeded : OmissionReason

pub record Omission : Type 0 where
  pub source_id : SourceId
  pub reason : OmissionReason

pub record ContextItem : Type 0 where
  pub source_id : SourceId
  pub source_kind : SourceKind
  pub location : SourceLocation
  pub content : Bytes
  pub content_hash : ContentHash
  pub sensitivity : Sensitivity
  pub score : ℕ
  pub score_breakdown : List ScoreComponent
  pub token_count : TokenCount

pub record ContextTrace : Type 0 where
  pub candidate_count : ℕ
  pub duplicate_count : ℕ
  pub included_count : ℕ
  pub over_budget_count : ℕ
  pub used_tokens : ℕ

pub record ContextBundle : Type 0 where
  pub items : List ContextItem
  pub omissions : List Omission
  pub used : TokenCount
  pub budget : TokenBudget
  pub bundle_hash : ContentHash
  pub trace : ContextTrace

-- `update_framed`: what it feeds to the hasher.
unfoldable pub framed : Bytes → Bytes
unfolding to_be_bytes
framed value = to_be_bytes 8 (to_u64 (length value)) ++ value

-- What `hash_bundle` feeds to the hasher for one item.
unfoldable pub item_frame : ContextItem → Bytes
unfolding framed
item_frame item =
    framed item.source_id.value
    ++ (framed item.content_hash.value
        ++ (to_be_bytes 4 item.score ++ to_be_bytes 8 item.token_count.tokens))

-- All that `hash_bundle` feeds to the hasher. Feeding it in pieces is feeding their concatenation.
unfoldable pub bundle_frame : List ContextItem → Bytes
unfolding item_frame
bundle_frame [] = []
bundle_frame (item ∷ items) = item_frame item ++ bundle_frame items

-- `hash_bundle`, over the digest function of the crate `sha2`
unfoldable pub hash_bundle :
    (Bytes → Bytes) → List ContextItem → Result ContentHash ContentHashError
unfolding bundle_frame
hash_bundle sha256 items = digest_to_content_hash (sha256 (bundle_frame items))
