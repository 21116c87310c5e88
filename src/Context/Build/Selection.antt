-- ===== src/Context/Build/Selection.antt =====
-- `build_context` as a whole: which candidates it selects.

use token_shrinker.Prelude.{
  ℕ, ◌+◌, ◌≡◌, ap, ◌≤◌, ◌<◌, ◌⊎◌, List, [], ◌∷◌, All, All-imp, sum_of, arith, if◌then◌else◌, some,
  enumerate_from, IsAt, inl, inr, Within, u32_max, sum_of-append,
}
use token_shrinker.Prelude.Bytes.{Bytes, eq_bytes}
use token_shrinker.Prelude.Order.{Le}
use token_shrinker.Prelude.Sort.{sum_of-sort_by, sort_by-All}
use token_shrinker.Prelude.Map.{values, get-entries, get-values}
use token_shrinker.Types.Count.{TokenBudget, IsNonZeroU32}
use token_shrinker.Context.ContentHash.{ContentHash}
use token_shrinker.Context.Counter.{TokenCounter}
use token_shrinker.Context.Candidate.{ContextCandidate}
use token_shrinker.Context.Bundle.{ContextItem, ContextBundle}
use token_shrinker.Context.Build.{Entry, rank, Packed, pack, pack_one, bundle_of, build_context}
use token_shrinker.Context.Build.Winners.{key, Covered, IsEntry}
use token_shrinker.Context.Build.Pack.{item_of, tokens, pack_maximal, pack_one-cases}
use token_shrinker.Context.Build.Run.{
  winners_of, ranked_of, start, winners_of-IsMap, winners_of-IsEntry, winners_of-Covered,
  winners_of-IsKeyed, Ran, build_context-Ran,
}
use token_shrinker.Context.Build.Unique.{copy, copies-values}

-- 1 for an item with that content hash.
abbrev pub item_copy : Bytes → ContextItem → ℕ
item_copy h item = if eq_bytes item.content_hash.value h then 1 else 0

module _ (counter : TokenCounter) (limit : ℕ) (small : limit ≤ u32_max) (h : Bytes) where
  pack_one-copies :
      (p : Packed) (e : Entry)
      → sum_of (item_copy h) (pack_one counter limit p e).items
        ≤ sum_of (item_copy h) p.items + copy h e
  pack_one-copies p e = elim (pack_one-cases counter limit small p e) [
    | inl (fits, made) ↦
        rw made (omega (arith, sum_of-append (item_copy h) p.items (item_of counter e ∷ [])))
    | inr (over, made) ↦ rw made (omega arith)
  ]

  pack-copies :
      (es : List Entry) (p : Packed)
      → sum_of (item_copy h) (pack counter limit p es).items
        ≤ sum_of (item_copy h) p.items + sum_of (copy h) es
  unfolding pack
  pack-copies [] p = omega arith
  pack-copies (e ∷ es) p =
      omega (arith, pack_one-copies p e, pack-copies es (pack_one counter limit p e))

module _ (sha256 : Bytes → Bytes) (candidates : List ContextCandidate) (budget : TokenBudget)
    (counter : TokenCounter) (b : ContextBundle)
    (built : build_context sha256 candidates budget counter ≡ some b)
    (valid : IsNonZeroU32 budget) where
  ran : Ran sha256 candidates budget counter b
  ran = build_context-Ran sha256 candidates budget counter b built

  -- No content hash stands in two items.
  pub build_context_unique : (h : Bytes) → sum_of (item_copy h) b.items ≤ 1
  unfolding bundle_of
  build_context_unique h = rw ran.made (
      omega (
        arith,
        pack-copies counter budget.get valid.fits h (ranked_of candidates) (start ran.omissions),
        sum_of-sort_by rank (copy h) (values (winners_of candidates)),
        copies-values h (winners_of candidates) (winners_of-IsMap candidates)
            (winners_of-IsKeyed candidates),
      ))

  -- What became of a content: its winner is an item, or does not fit beside the items.
  abbrev pub Settled : Entry → Type 0
  Settled w = Within (item_of counter w) b.items ⊎ (budget.get < b.used.tokens + tokens counter w)

  ranked-Settled : All Settled (ranked_of candidates)
  unfolding bundle_of
  ranked-Settled =
      rw ran.made
        (pack_maximal counter budget.get valid.fits (ranked_of candidates) (start ran.omissions))

  values-Settled : All Settled (values (winners_of candidates))
  values-Settled = sort_by-All rank Settled (values (winners_of candidates)) ranked-Settled

  -- For every candidate, the best one among those with its content is an item of the bundle, or
  -- would take the bundle over its budget.
  pub build_context_maximal :
      All
        (λ e.
          (w : Entry) × IsAt 0 candidates w
          × (w.1.content_hash ≡ e.1.content_hash)
          × Le rank w e
          × Settled w)
        (enumerate_from 0 candidates)
  build_context_maximal =
      All-imp (Covered (winners_of candidates)) _
        (λ e c.
          let (w, held, best) = c in
          let (same, at) =
            get-entries (IsEntry candidates) (key e) w (winners_of candidates) held
              (winners_of-IsEntry candidates) in
          let settled = get-values Settled (key e) w (winners_of candidates) held values-Settled in
          (
            w,
            at,
            ap (λ (v : Bytes). let h : ContentHash = record { value = v } in h) same,
            best,
            settled,
          ))
        (enumerate_from 0 candidates) (winners_of-Covered candidates)
