-- ===== src/Daemon/Baseline/Items.antt =====
-- crates/ts-context/src/lib.rs: `build_context` as `build_baseline_context` calls it: the items and their candidates.

use mathlib.Core.Option.{some-injective}
use token_shrinker.Prelude.{ℕ, zero, suc, ◌≡◌, refl, some, List, [], ◌∷◌, All, get_elem?}
use token_shrinker.Prelude.Bytes.{Bytes}
use token_shrinker.Prelude.Sort.{All-sort_by}
use token_shrinker.Prelude.Map.{values}
use token_shrinker.Types.Count.{TokenBudget, IsNonZeroU32}
use token_shrinker.Context.Candidate.{ContextCandidate}
use token_shrinker.Context.Counter.{TokenCounter}
use token_shrinker.Context.Bundle.{ContextItem, ContextBundle}
use token_shrinker.Context.Build
use token_shrinker.Context.Build.{rank, bundle_of, build_context}
use token_shrinker.Context.Build.Winners.{IsEntry}
use token_shrinker.Context.Build.Pack.{item_of, pack-All}
use token_shrinker.Context.Build.Run.{
  winners_of, ranked_of, start, winners_of-IsEntry, build_context-Ran,
}

-- What holds of the candidates holds of an item, as far as the item has it.
module _ (P : ContextCandidate → Type 0) where
  pub record IsMade (item : ContextItem) : Type 0 where
    pub candidate : ContextCandidate
    pub holds : P candidate
    pub content : item.content ≡ candidate.content
    pub content_hash : item.content_hash ≡ candidate.content_hash
    pub source_id : item.source_id ≡ candidate.source_id
    pub sensitivity : item.sensitivity ≡ candidate.sensitivity

  at_holds :
      (candidates : List ContextCandidate) (k : ℕ) (c : ContextCandidate)
      → All P candidates
      → get_elem? candidates k ≡ some c
      → P c
  at_holds [] k c a h = cc
  at_holds (x ∷ xs) zero c (p, a) h = rw (some-injective x c h) at p
  at_holds (x ∷ xs) (suc k) c (p, a) h = at_holds xs k c a h

  values-All :
      (counter : TokenCounter) (candidates : List ContextCandidate)
      → All P candidates
      → (m : List (Bytes × Build.Entry)) → All (IsEntry candidates) m
      → All (λ e. IsMade (item_of counter e)) (values m)
  values-All counter candidates a [] b = tt
  values-All counter candidates a ((key, (index, c)) ∷ m) ((k, (n, e, found)), b) = (
    record {
      candidate = c;
      holds = at_holds candidates n c a found;
      content = refl;
      content_hash = refl;
      source_id = refl;
      sensitivity = refl;
    },
    values-All counter candidates a m b,
  )

  -- Every item of a bundle is made of a candidate.
  pub build_context-All :
      (sha256 : Bytes → Bytes) (candidates : List ContextCandidate) (budget : TokenBudget)
      (counter : TokenCounter) (b : ContextBundle)
      → IsNonZeroU32 budget
      → All P candidates
      → build_context sha256 candidates budget counter ≡ some b
      → All IsMade b.items
  unfolding bundle_of
  build_context-All sha256 candidates budget counter b valid a h =
      let ran = build_context-Ran sha256 candidates budget counter b h in
      let entries =
        values-All counter candidates a (winners_of candidates) (winners_of-IsEntry candidates) in
      rw ran.made (
        pack-All counter budget.get valid.fits IsMade (ranked_of candidates) (start ran.omissions)
          (All-sort_by rank (λ e. IsMade (item_of counter e)) (values (winners_of candidates))
            entries)
          tt)
