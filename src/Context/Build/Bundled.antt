-- ===== src/Context/Build/Bundled.antt =====
-- `build_context` as a whole: what a bundle guarantees.

use token_shrinker.Prelude.{
  ◌≡◌, refl, ap, ◌≤◌, List, [], ◌∷◌, All, All-imp, sum_of, arith, some, enumerate_from,
}
use token_shrinker.Prelude.Bytes.{Bytes}
use token_shrinker.Prelude.Order.{Le}
use token_shrinker.Prelude.Sort.{IsSorted, sort_by-IsSorted, All-sort_by}
use token_shrinker.Prelude.Map.{values}
use token_shrinker.Types.Count.{TokenBudget, IsNonZeroU32}
use token_shrinker.Context.ContentHash.{ContentHash}
use token_shrinker.Context.Counter.{TokenCounter}
use token_shrinker.Context.Candidate.{ContextCandidate}
use token_shrinker.Context.Bundle.{Omission, ContextBundle}
use token_shrinker.Context.Build.{Entry, rank, bundle_of, build_context}
use token_shrinker.Context.Build.Rank.{rank-IsPreorder}
use token_shrinker.Context.Build.Pack.{item_of, item_tokens, IsFitting, pack-IsFitting, pack-All}
use token_shrinker.Context.Build.Order.{item_rank, pack-IsSorted}
use token_shrinker.Context.Build.Run.{
  winners_of, ranked_of, start, packed_of, winners_of-IsMap, winners_of-Covered, winners_of-IsKeyed,
  Ran, build_context-Ran,
}
use token_shrinker.Context.Build.Unique.{Best, values-Best}

-- Ranking winners is ranking the items made of them.
Best-item_of :
    (counter : TokenCounter) (w : Entry) (es : List Entry)
    → All (Best w) es
    → All
        (λ e.
          e.1.content_hash ≡ w.1.content_hash
          → Le item_rank (item_of counter w) (item_of counter e))
        es
unfolding rank item_rank
Best-item_of counter w [] a = tt
Best-item_of counter w (e ∷ es) (p, a) =
    (λ same. p (ap (λ (h : ContentHash). h.value) same), Best-item_of counter w es a)

counted :
    (counter : TokenCounter) (es : List Entry)
    → All (λ e. (item_of counter e).token_count ≡ counter.count (item_of counter e).content) es
counted counter [] = tt
counted counter (e ∷ es) = (refl, counted counter es)

module _ (sha256 : Bytes → Bytes) (candidates : List ContextCandidate) (budget : TokenBudget)
    (counter : TokenCounter) (b : ContextBundle)
    (built : build_context sha256 candidates budget counter ≡ some b)
    (valid : IsNonZeroU32 budget) where
  ran : Ran sha256 candidates budget counter b
  ran = build_context-Ran sha256 candidates budget counter b built

  packed-IsFitting :
      (omissions : List Omission)
      → IsFitting counter budget.get valid.fits (packed_of counter budget candidates omissions)
  packed-IsFitting omissions =
      pack-IsFitting counter budget.get valid.fits (ranked_of candidates) (start omissions)
        (record { total = refl; bounded = omega arith })

  -- The items of a bundle fit its budget, and the reported use is the sum of their counts.
  pub build_context_budget :
      (b.used.tokens ≡ sum_of item_tokens b.items)
      × (b.used.tokens ≤ budget.get)
      × All (λ item. item.token_count ≡ counter.count item.content) b.items
  unfolding bundle_of
  build_context_budget =
      let fit = packed-IsFitting ran.omissions in
      rw ran.made (
        fit.total,
        fit.bounded,
        pack-All counter budget.get valid.fits
            (λ item. item.token_count ≡ counter.count item.content) (ranked_of candidates)
            (start ran.omissions) (counted counter (ranked_of candidates)) tt,
      )

  -- The items stand in rank order: higher scores first, equal scores by source handle.
  pub build_context_order : IsSorted item_rank b.items
  unfolding bundle_of
  build_context_order = rw ran.made (
      pack-IsSorted counter budget.get valid.fits (ranked_of candidates) (start ran.omissions)
        (sort_by-IsSorted rank rank-IsPreorder (values (winners_of candidates))) tt tt)

  -- Every item ranks no worse than any candidate with the same content hash.
  pub build_context_best :
      All
        (λ item.
          All
            (λ (e : Entry).
              e.1.content_hash ≡ item.content_hash → Le item_rank item (item_of counter e))
            (enumerate_from 0 candidates))
        b.items
  unfolding bundle_of
  build_context_best =
      let es = enumerate_from 0 candidates in
      let best =
        values-Best (winners_of candidates) es (winners_of-IsMap candidates)
          (winners_of-IsKeyed candidates) (winners_of-Covered candidates) in
      rw ran.made (
        pack-All counter budget.get valid.fits
          (λ item.
            All
              (λ (e : Entry).
                e.1.content_hash ≡ item.content_hash → Le item_rank item (item_of counter e))
              es)
          (ranked_of candidates) (start ran.omissions)
          (All-sort_by rank _ (values (winners_of candidates)) (
            All-imp (λ w. All (Best w) es) _ (λ w a. Best-item_of counter w es a)
              (values (winners_of candidates)) best))
          tt)
