-- ===== src/Context/Relevance/Laws.antt =====
-- The score does not overflow, and the breakdown accounts for all of it.
use token_shrinker.Prelude.{
  ℕ, ◌≡◌, ◌≤◌, ◌<◌, ◌+◌, ◌*◌, Bool, true, false, All, sum_of, arith, if◌then◌else◌,
}
use token_shrinker.Context.Relevance.{RelevanceSignals, IsU8, score, ScoreComponent, breakdown}

abbrev pub points : Bool → ℕ → ℕ
points b n = if b then n else 0

-- The score is computed without wrap-around, is at most 31555, and is the sum of the components
-- of the breakdown, each of which is positive.
pub score-breakdown :
    (s : RelevanceSignals)
    → IsU8 s
    → (score s
        ≡ points s.exact_match 800
          + s.term_match_count * 100
          + points s.path_match 4_000
          + points s.diagnostic 1_000
          + s.freshness)
      × (score s ≤ 31_555)
      × (sum_of (λ (c : ScoreComponent). c.value) (breakdown s) ≡ score s)
      × All (λ (c : ScoreComponent). 0 < c.value) (breakdown s)
unfolding score breakdown
score-breakdown s u = ground arith

-- A path that the request names outranks every candidate without one that has neither an exact
-- match nor a diagnostic, and whose query terms match at most 37 times.
pub score_path :
    (s t : RelevanceSignals)
    → IsU8 s
    → IsU8 t
    → s.path_match ≡ true
    → t.path_match ≡ false
    → t.exact_match ≡ false
    → t.diagnostic ≡ false
    → t.term_match_count ≤ 37
    → score t < score s
unfolding score
score_path s t u v a b c d e = ground arith

-- Query coverage can crowd a named path out: a candidate with an exact match that matches 35 more
-- query terms outranks one on a named path with neither an exact match nor a diagnostic.
pub score_outranks_path :
    (s t : RelevanceSignals)
    → IsU8 s
    → IsU8 t
    → s.exact_match ≡ false
    → s.diagnostic ≡ false
    → t.exact_match ≡ true
    → s.term_match_count + 35 ≤ t.term_match_count
    → score s < score t
unfolding score
score_outranks_path s t u v a b c d = ground arith
