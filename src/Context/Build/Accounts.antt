-- ===== src/Context/Build/Accounts.antt =====
-- `build_context` as a whole: that it returns, and that it accounts for every candidate.

use token_shrinker.Prelude.{
  ℕ, suc, ◌+◌, ◌^◌, ◌≡◌, refl, ap, ◌≤◌, ◌<◌, List, [], ◌∷◌, All, sum_of, arith, if◌then◌else◌, some,
  enumerate_from, to_u64, length, sum_of-one, to_u64_lem,
}
use token_shrinker.Prelude.Bytes.{Bytes, IsByte, eq_bytes}
use token_shrinker.Prelude.Sort.{sum_of-sort_by}
use token_shrinker.Prelude.Map.{values}
use token_shrinker.Types.Count.{TokenBudget, IsNonZeroU32}
use token_shrinker.Context.ContentHash.{ContentHash, hex}
use token_shrinker.Context.ContentHash.Laws.{digest_to_content_hash_total}
use token_shrinker.Context.Counter.{TokenCounter}
use token_shrinker.Context.Candidate.{ContextCandidate}
use token_shrinker.Context.Bundle.{Omission, ContextItem, ContextBundle, hash_bundle, bundle_frame}
use token_shrinker.Context.Build.{rank, bundle_of, finish, build_context}
use token_shrinker.Context.Build.Duplicates.{
  duplicates_total, duplicates-values, entry_weight, omission_weight,
}
use token_shrinker.Context.Build.Pack.{item_weight, pack-weight, pack-omissions}
use token_shrinker.Context.Build.Run.{
  winners_of, ranked_of, start, packed_of, winners_of-IsMap, winners_of-IsEntry, winners_of-Covered,
  Ran, build_context-Ran,
}

-- 1 for the handle `s`, so that a sum counts how often it stands in a list.
abbrev pub handle : Bytes → Bytes → ℕ
handle s t = if eq_bytes t s then 1 else 0

enumerate_weight :
    (weight : Bytes → ℕ) (i : ℕ) (cs : List ContextCandidate)
    → sum_of (entry_weight weight) (enumerate_from i cs) ≡ sum_of (λ c. weight c.source_id.value) cs
enumerate_weight weight i [] = refl
enumerate_weight weight i (c ∷ cs) = omega (arith, enumerate_weight weight (suc i) cs)

-- With a digest function that returns 32 bytes, `build_context` never panics: it finds every
-- winner that it looks up, and the digest's text is a valid content hash.
pub build_context_total :
    (sha256 : Bytes → Bytes) (candidates : List ContextCandidate) (budget : TokenBudget)
    (counter : TokenCounter)
    → ((text : Bytes) → All IsByte (sha256 text) × (length (sha256 text) ≡ 32))
    → (b : ContextBundle) × (build_context sha256 candidates budget counter ≡ some b)
unfolding build_context finish hash_bundle
build_context_total sha256 candidates budget counter digest =
    let es = enumerate_from 0 candidates in
    let (omissions, found) =
      duplicates_total (winners_of candidates) es (winners_of-Covered candidates) in
    let p = packed_of counter budget candidates omissions in
    let (is_bytes, long) = digest (bundle_frame p.items) in
    let hash : ContentHash = record { value = hex (sha256 (bundle_frame p.items)) } in
    (
      bundle_of counter budget candidates (to_u64 (length omissions)) p hash,
      rw (found, digest_to_content_hash_total (sha256 (bundle_frame p.items)) is_bytes long),
    )

module _ (sha256 : Bytes → Bytes) (candidates : List ContextCandidate) (budget : TokenBudget)
    (counter : TokenCounter) (b : ContextBundle)
    (built : build_context sha256 candidates budget counter ≡ some b)
    (valid : IsNonZeroU32 budget) where
  ran : Ran sha256 candidates budget counter b
  ran = build_context-Ran sha256 candidates budget counter b built

  accounts :
      (weight : Bytes → ℕ)
      → sum_of (λ (c : ContextCandidate). weight c.source_id.value) candidates
        ≡ sum_of (item_weight counter budget.get valid.fits weight) b.items
          + sum_of (omission_weight weight) b.omissions
  unfolding bundle_of
  accounts weight = rw ran.made (
      omega (
        arith,
        enumerate_weight weight 0 candidates,
        duplicates-values weight candidates (winners_of candidates) ran.omissions
            (winners_of-IsMap candidates) (winners_of-IsEntry candidates) ran.found,
        sum_of-sort_by rank (entry_weight weight) (values (winners_of candidates)),
        pack-weight counter budget.get valid.fits weight (ranked_of candidates)
            (start ran.omissions),
      ))

  -- Every source handle stands as often among the items and the omissions as among the
  -- candidates: nothing is lost and nothing is invented.
  pub build_context_accounts :
      (s : Bytes)
      → sum_of (λ (c : ContextCandidate). handle s c.source_id.value) candidates
        ≡ sum_of (λ (i : ContextItem). handle s i.source_id.value) b.items
          + sum_of (λ (o : Omission). handle s o.source_id.value) b.omissions
  build_context_accounts s = accounts (handle s)

  count_all : length candidates ≡ length b.items + length b.omissions
  count_all =
      omega (
        arith,
        accounts (λ _. 1),
        sum_of-one candidates,
        sum_of-one b.items,
        sum_of-one b.omissions,
      )

  -- The trace counts the candidates, the items and the two kinds of omissions, and these add up,
  -- for fewer than 2^64 candidates.
  pub build_context-trace :
      length candidates < 2 ^ 64
      → (b.trace.candidate_count ≡ length candidates)
        × (b.trace.included_count ≡ length b.items)
        × (b.trace.duplicate_count + b.trace.over_budget_count ≡ length b.omissions)
        × (b.trace.duplicate_count + b.trace.included_count + b.trace.over_budget_count
            ≡ b.trace.candidate_count)
        × (b.trace.used_tokens ≡ b.used.tokens)
  unfolding bundle_of
  build_context-trace small =
      let p = packed_of counter budget candidates ran.omissions in
      let all : length candidates ≡ length p.items + length p.omissions = omega (
        arith,
        count_all,
        ap (λ (x : ContextBundle). length x.items + length x.omissions) ran.made,
      ) in
      let kept : length ran.omissions ≤ length p.omissions =
        pack-omissions counter budget.get valid.fits (ranked_of candidates) (start ran.omissions) in
      let dups = to_u64_lem (length ran.omissions) (omega arith) in
      let outs = to_u64_lem (length p.omissions) (omega arith) in
      let ins = to_u64_lem (length p.items) (omega arith) in
      let cands = to_u64_lem (length candidates) small in
      rw ran.made (rw (dups, outs, ins, cands) (refl, refl, omega arith, omega arith, refl))
