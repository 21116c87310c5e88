-- ===== src/Tests/Providers.antt =====
-- The circuit breaker, the fallback and the quality figures at concrete inputs.
use token_shrinker.Prelude.{ℕ, ◌+◌, ◌≡◌, refl, false, some, [], ◌∷◌, ok, err, arith}
use token_shrinker.Prelude.Bytes.{ascii}
use token_shrinker.Provider.{
  timeout, crashed, circuit_open, ProviderSpec, ProviderOutcome, ProviderQuality, default,
  reduction_basis_points, resolve_with_fallback,
}
use token_shrinker.Provider.Circuit.{closed, CircuitBreaker, permit, Call, run, run_all}
use token_shrinker.Provider.Circuit.Laws.{IsBreaker}
use token_shrinker.Provider.Circuit.Opening.{refuses_after_failures}

abbrev breaker : CircuitBreaker
breaker = record { threshold = 2; cooldown = 30 }

breaker-IsBreaker : IsBreaker breaker
breaker-IsBreaker = record { positive = omega arith; bounded = omega arith }

abbrev failing : ℕ → Call ℕ
failing now = record { asked = now; result = err timeout; finished = now + 1 }

abbrev working : ℕ → Call ℕ
working now = record { asked = now; result = ok 7; finished = now + 1 }

refuses :
    (run breaker (run_all breaker closed (failing 0 ∷ failing 5 ∷ [])) (working 10)).0
    ≡ err circuit_open
unfolding run run_all
refuses = refl

recovers : (run breaker (run_all breaker closed (failing 0 ∷ failing 5 ∷ [])) (working 36)).0 ≡ ok 7
unfolding run run_all
recovers = refl

refused : (permit breaker 10 (run_all breaker closed (failing 0 ∷ failing 5 ∷ []))).0 ≡ false
unfolding permit run_all
refused = refl

refuses_after_failures_example :
    (run breaker
      (run breaker (run_all breaker closed (failing 0 ∷ [])) (failing 5)).1
      (working 10)).0
    ≡ err circuit_open
refuses_after_failures_example =
    refuses_after_failures breaker (failing 0 ∷ []) (failing 5) (working 10) breaker-IsBreaker
      ((timeout, refl), tt) (timeout, refl) refl (omega arith)

abbrev optional : ProviderSpec (Unit {0})
optional = record {
  id = ascii "headroom";
  command = ascii "headroom";
  base_args = [];
  environment = [];
  version_requirement = tt;
  required = false;
  limits = default;
}

abbrev fallen_back : ProviderOutcome ℕ
fallen_back = record {
  value = 3;
  attribution = record {
    provider = ascii "native";
    fallback_from = some (ascii "headroom");
    warning_code = some (ascii "provider-crashed");
  };
}

falls_back : resolve_with_fallback optional (err crashed) (ascii "native") 3 ≡ ok fallen_back
unfolding resolve_with_fallback
falls_back = refl

abbrev quality : ProviderQuality
quality = record {
  raw_tokens = 1_000;
  optimized_tokens = 250;
  relevant_total = 4;
  relevant_retained = 3;
}

reduces : reduction_basis_points quality ≡ 7_500
unfolding reduction_basis_points
reduces = refl
