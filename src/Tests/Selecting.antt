-- ===== src/Tests/Selecting.antt =====
-- The selection under a budget, and the score, at concrete inputs.
use token_shrinker.Prelude.{◌≡◌, refl, true, false, List, [], ◌∷◌, arith, ok}
use token_shrinker.Prelude.Bytes.{Bytes, ascii}
use token_shrinker.Types.CounterId.{new as new_counter}
use token_shrinker.Types.Count.{TokenBudget, IsNonZeroU32}
use token_shrinker.Context.ContentHash.Laws.{hex_injective}
use token_shrinker.Context.Relevance.{RelevanceSignals, IsU8}
use token_shrinker.Context.Counter.{conservative_estimator, conservative_estimator_id}
use token_shrinker.Context.Budget.{select_within_budget}

-- The built-in counter's identity is one that `CounterId::new` accepts.
conservative_estimator_named : new_counter conservative_estimator_id ≡ ok conservative_estimator.id
unfolding new_counter
conservative_estimator_named = refl

abbrev texts : List Bytes
texts = ascii "four" ∷ ascii "eleven byte" ∷ ascii "six by" ∷ []

abbrev ten : TokenBudget
ten = record { get = 10 }

ten-IsNonZeroU32 : IsNonZeroU32 ten
ten-IsNonZeroU32 = record { positive = omega arith; fits = omega arith }

select_skips :
    ((select_within_budget texts ten conservative_estimator).selected ≡ 0 ∷ 2 ∷ [])
    × ((select_within_budget texts ten conservative_estimator).omitted ≡ 1 ∷ [])
unfolding select_within_budget
select_skips = (refl, refl)

abbrev named_path : RelevanceSignals
named_path = record {
  exact_match = true;
  term_match_count = 2;
  path_match = true;
  diagnostic = false;
  freshness = 255;
}

abbrev prose : RelevanceSignals
prose = record {
  exact_match = false;
  term_match_count = 37;
  path_match = false;
  diagnostic = false;
  freshness = 255;
}

named_path-IsU8 : IsU8 named_path
named_path-IsU8 = record { terms = omega arith; fresh = omega arith }

prose-IsU8 : IsU8 prose
prose-IsU8 = record { terms = omega arith; fresh = omega arith }

abbrev only_path : RelevanceSignals
only_path = record named_path { exact_match = false }

abbrev broad_prose : RelevanceSignals
broad_prose = record prose { exact_match = true }

hex_injective_example : ◌≡◌ {A = Bytes} (7 ∷ 171 ∷ []) (7 ∷ 171 ∷ [])
hex_injective_example = hex_injective (7 ∷ 171 ∷ []) (7 ∷ 171 ∷ []) (omega arith) (omega arith) refl
