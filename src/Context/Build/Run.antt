-- ===== src/Context/Build/Run.antt =====
-- The intermediate results of a run of `build_context`.
use mathlib.Core.Option
use token_shrinker.Prelude.{
  ◌≡◌, refl, sym, List, [], All, All-imp, Option, none, some, enumerate_from, All-enumerate_from,
  to_u64, length,
}
use token_shrinker.Prelude.Bytes.{Bytes}
use token_shrinker.Prelude.Sort.{sort_by}
use token_shrinker.Prelude.Map.{values, IsMap}
use token_shrinker.Types.Count.{TokenBudget}
use token_shrinker.Context.ContentHash.{ContentHash}
use token_shrinker.Context.Counter.{TokenCounter}
use token_shrinker.Context.Candidate.{ContextCandidate}
use token_shrinker.Context.Bundle.{Omission, ContextBundle}
use token_shrinker.Context.Build.{
  Entry, Winners, admit_all, duplicates, rank, Packed, pack, bundle_of, finish, build_context,
}
use token_shrinker.Context.Build.Winners.{
  Covered, IsEntry, admit_all-All, admit_all-IsEntry, admit_all-IsMap,
}
use token_shrinker.Context.Build.Unique.{IsKeyed}

-- The intermediate results of a run.
abbrev pub winners_of : List ContextCandidate → Winners
winners_of candidates = admit_all [] (enumerate_from 0 candidates)

abbrev pub ranked_of : List ContextCandidate → List Entry
ranked_of candidates = sort_by rank (values (winners_of candidates))

abbrev pub start : List Omission → Packed
start omissions = record { used = 0; items = []; omissions = omissions }

abbrev pub packed_of : TokenCounter → TokenBudget → List ContextCandidate → List Omission → Packed
packed_of counter budget candidates omissions =
    pack counter budget.get (start omissions) (ranked_of candidates)

pub winners_of-IsMap : (candidates : List ContextCandidate) → IsMap (winners_of candidates)
winners_of-IsMap candidates = admit_all-IsMap (enumerate_from 0 candidates) [] tt

pub winners_of-IsEntry :
    (candidates : List ContextCandidate) → All (IsEntry candidates) (winners_of candidates)
winners_of-IsEntry candidates =
    admit_all-IsEntry candidates (enumerate_from 0 candidates) [] (All-enumerate_from 0 candidates)
      tt

pub winners_of-Covered :
    (candidates : List ContextCandidate)
    → All (Covered (winners_of candidates)) (enumerate_from 0 candidates)
winners_of-Covered candidates = admit_all-All (enumerate_from 0 candidates) []

pub winners_of-IsKeyed : (candidates : List ContextCandidate) → All IsKeyed (winners_of candidates)
winners_of-IsKeyed candidates =
    All-imp (IsEntry candidates) IsKeyed (λ x p. p.0) (winners_of candidates)
      (winners_of-IsEntry candidates)

module _ (sha256 : Bytes → Bytes) (candidates : List ContextCandidate) (budget : TokenBudget)
    (counter : TokenCounter) where
  -- What the run went through to return a bundle.
  pub record Ran (b : ContextBundle) : Type 0 where
    pub omissions : List Omission
    pub hash : ContentHash
    pub found : duplicates (winners_of candidates) (enumerate_from 0 candidates) ≡ some omissions
    pub made :
        b
        ≡ bundle_of counter budget candidates
            (to_u64 (length omissions))
            (packed_of counter budget candidates omissions)
            hash

  finish-Ran :
      (o : Option (List Omission)) (b : ContextBundle)
      → duplicates (winners_of candidates) (enumerate_from 0 candidates) ≡ o
      → finish sha256 candidates budget counter (ranked_of candidates) o ≡ some b
      → Ran b
  unfolding finish
  finish-Ran none b e h = cc
  finish-Ran (some omissions) b e h =
      let (hash, hashed, same) = (Option.map-eq-some_iff _ _).0 h in
      record { omissions = omissions; hash = hash; found = e; made = sym same }

  pub build_context-Ran :
      (b : ContextBundle) → build_context sha256 candidates budget counter ≡ some b → Ran b
  unfolding build_context
  build_context-Ran b h =
      finish-Ran (duplicates (winners_of candidates) (enumerate_from 0 candidates)) b refl h
