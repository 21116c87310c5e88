-- ===== src/Context/Build.antt =====
-- crates/ts-context/src/lib.rs: `build_context`, which deduplicates, ranks and packs candidates.
-- Where the source keeps an index into `candidates`, an entry here is the index with the candidate
-- that it names, so `candidates[i]` is the entry's second part; Build/Winners shows that it is the
-- candidate at that index. A missing key and a refused digest, which panic in the source, are
-- `none`.
pub mod Rank
pub mod Winners
pub mod Duplicates
pub mod Pack
pub mod Order
pub mod Unique
pub mod Run
pub mod Bundled
pub mod Accounts
pub mod Selection
use Prim.Native.Nat.Ordering.{lt, eq, gt}
use mathlib.Core.Option
use token_shrinker.Prelude.{
  ℕ, ◌-◌, compare, Ordering, Bool, true, false, ◌&&◌, ◌||◌, ◌==◌, ltb, if◌then◌else◌, Option, none,
  some, List, [], ◌∷◌, ◌++◌, map, length, enumerate_from, saturating_add, add64, to_u64, Result, ok,
  err,
}
use token_shrinker.Prelude.Bytes.{Bytes}
use token_shrinker.Prelude.Order.{then_with, cmp_bytes}
use token_shrinker.Prelude.Sort.{sort_by}
use token_shrinker.Prelude.Map.{get, upsert, values}
use token_shrinker.Types.Count.{TokenBudget, TokenCount}
use token_shrinker.Context.SourceId.{SourceId, cmp}
use token_shrinker.Context.ContentHash.{ContentHash}
use token_shrinker.Context.Relevance.{score, breakdown}
use token_shrinker.Context.Counter.{TokenCounter}
use token_shrinker.Context.Candidate.{ContextCandidate}
use token_shrinker.Context.Bundle.{
  OmissionReason, duplicate, budget_exceeded, Omission, ContextItem, ContextTrace, ContextBundle,
  hash_bundle,
}

abbrev pub Entry : Type 0
Entry = ℕ × ContextCandidate

-- `BTreeMap<ContentHash, usize>`
abbrev pub Winners : Type 0
Winners = List (Bytes × Entry)

abbrev pub is_lt : Ordering → Bool
is_lt lt = true
is_lt _ = false

-- The test of `and_modify`: the candidate displaces the current winner.
unfoldable pub beats : ContextCandidate → ContextCandidate → Bool
beats candidate current =
    ltb (score current.relevance) (score candidate.relevance)
    || (score candidate.relevance == score current.relevance
        && is_lt (cmp candidate.source_id current.source_id))

-- One round of the first loop.
unfoldable pub admit : Winners → Entry → Winners
unfolding beats
admit winners e =
    upsert e.1.content_hash.value (λ winner. if beats e.1 winner.1 then e else winner) e winners

-- The first loop.
unfoldable pub admit_all : Winners → List Entry → Winners
unfolding admit
admit_all winners [] = winners
admit_all winners (e ∷ es) = admit_all (admit winners e) es

-- One round of the second loop: `winners[&candidate.content_hash]` panics if the key is missing.
abbrev pub omit_duplicate : Entry → Option Entry → List Omission → Option (List Omission)
omit_duplicate e none rest = none
omit_duplicate e (some kept) rest =
    if kept.0 == e.0
    then some rest
    else some (record { source_id = e.1.source_id; reason = duplicate kept.1.source_id } ∷ rest)

-- The second loop.
unfoldable pub duplicates : Winners → List Entry → Option (List Omission)
duplicates winners [] = some []
duplicates winners (e ∷ es) =
    Option.bind (duplicates winners es) (omit_duplicate e (get e.1.content_hash.value winners))

-- The comparison of `ranked.sort_by`.
unfoldable pub rank : Entry → Entry → Ordering
rank left right =
    then_with (compare (score right.1.relevance) (score left.1.relevance))
      (cmp left.1.source_id right.1.source_id)

-- The variables of the third loop.
pub record Packed : Type 0 where
  pub used : ℕ
  pub items : List ContextItem
  pub omissions : List Omission

module _ (counter : TokenCounter) (limit : ℕ) where
  -- The body of the third loop.
  unfoldable pub pack_one : Packed → Entry → Packed
  pack_one p (index, candidate) =
      let token_count = counter.count candidate.content in
      if ltb limit (saturating_add p.used token_count.tokens)
      then record p {
        omissions =
            p.omissions
            ++ (record { source_id = candidate.source_id; reason = budget_exceeded } ∷ []);
      }
      else record {
        used = add64 p.used token_count.tokens;
        items =
            p.items
            ++ (record {
              source_id = candidate.source_id;
              source_kind = candidate.source_kind;
              location = candidate.location;
              content = candidate.content;
              content_hash = candidate.content_hash;
              sensitivity = candidate.sensitivity;
              score = score candidate.relevance;
              score_breakdown = breakdown candidate.relevance;
              token_count = token_count;
            }
                ∷ []);
        omissions = p.omissions;
      }

  -- The third loop.
  unfoldable pub pack : Packed → List Entry → Packed
  unfolding pack_one
  pack p [] = p
  pack p (e ∷ es) = pack (pack_one p e) es

-- The trace and the bundle around it.
unfoldable pub bundle_of :
    TokenCounter → TokenBudget → List ContextCandidate → ℕ → Packed → ContentHash → ContextBundle
bundle_of counter budget candidates duplicate_count p bundle_hash = record {
  items = p.items;
  omissions = p.omissions;
  used = record { tokens = p.used; precision = counter.precision; counter_id = counter.id };
  budget = budget;
  bundle_hash = bundle_hash;
  trace = record {
    candidate_count = to_u64 (length candidates);
    duplicate_count = duplicate_count;
    included_count = to_u64 (length p.items);
    over_budget_count = to_u64 (length p.omissions) - duplicate_count;
    used_tokens = p.used;
  };
}

-- `Result::ok`, for the `expect` of the formatter
abbrev pub expect {ℓ κ} : {A : Type ℓ} {E : Type κ} → Result A E → Option A
expect (ok a) = some a
expect (err _) = none

-- From the third loop on, with the omissions of the second.
unfoldable pub finish :
    (Bytes → Bytes)
    → List ContextCandidate
    → TokenBudget
    → TokenCounter
    → List Entry
    → Option (List Omission)
    → Option ContextBundle
unfolding pack bundle_of hash_bundle
finish sha256 candidates budget counter ranked none = none
finish sha256 candidates budget counter ranked (some omissions) =
    let p =
      pack counter budget.get (record { used = 0; items = []; omissions = omissions }) ranked in
    Option.map (bundle_of counter budget candidates (to_u64 (length omissions)) p)
      (expect (hash_bundle sha256 p.items))

unfoldable pub build_context :
    (Bytes → Bytes) → List ContextCandidate → TokenBudget → TokenCounter → Option ContextBundle
unfolding admit_all duplicates rank finish
build_context sha256 candidates budget counter =
    let entries = enumerate_from 0 candidates in
    let winners = admit_all [] entries in
    let ranked = sort_by rank (values winners) in
    finish sha256 candidates budget counter ranked (duplicates winners entries)
