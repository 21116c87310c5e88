-- ===== src/Provider/Circuit/Opening.antt =====
-- When the circuit breaker opens.
use token_shrinker.Prelude.{
  lt→ltb, ℕ, ◌+◌, ◌-◌, ◌≡◌, refl, ap, ◌∙◌, ◌<◌, false, Option, none, some, List, [], ◌∷◌, length,
  All, err, arith,
}
use token_shrinker.Provider.{ProviderError, circuit_open}
use token_shrinker.Provider.Circuit.{
  CircuitState, closed, CircuitBreaker, permit_at, permit, failure, Call, run, run_all,
}
use token_shrinker.Provider.Circuit.Laws.{IsBreaker}

-- A closed circuit with `j` failures.
abbrev counting : ℕ → CircuitState
counting j = record { consecutive_failures = j; opened_at = none }

module _ (breaker : CircuitBreaker) where
  failure-counting :
      (j now : ℕ)
      → IsBreaker breaker
      → j + 1 < breaker.threshold
      → failure breaker now (counting j) ≡ counting (j + 1)
  unfolding failure
  failure-counting j now b h = ground (arith, b.bounded)

  failure_opens :
      (j now : ℕ)
      → IsBreaker breaker
      → j + 1 ≡ breaker.threshold
      → (failure breaker now (counting j)).opened_at ≡ some now
  unfolding failure
  failure_opens j now b h = ground (arith, b.bounded)

  permit_at-open :
      (now t : ℕ) (o : Option ℕ) (s : CircuitState)
      → o ≡ some t
      → now - t < breaker.cooldown
      → (permit_at breaker now o s).0 ≡ false
  unfolding permit_at
  permit_at-open now t none s e h = cc
  permit_at-open now t (some u) s e h =
      rw (lt→ltb (now - u) breaker.cooldown (omega (arith, some_eq u t e))) refl
    where
      some_eq : (a b : ℕ) → some a ≡ some b → a ≡ b
      some_eq a b p = cc

module _ {A : Type 0} (breaker : CircuitBreaker) where
  -- The process failed.
  abbrev pub Fails : Call A → Type 0
  Fails call = (e : ProviderError) × (call.result ≡ err e)

  settle-counting :
      (j : ℕ) (call : Call A)
      → Fails call
      → (run breaker (counting j) call).1 ≡ failure breaker call.finished (counting j)
  unfolding run permit permit_at
  settle-counting j call (e, p) = rw p refl

  run_all-counting :
      (j : ℕ) (calls : List (Call A))
      → IsBreaker breaker
      → All Fails calls
      → j + length calls < breaker.threshold
      → run_all breaker (counting j) calls ≡ counting (j + length calls)
  unfolding run_all
  run_all-counting j [] b a h = ap counting (omega arith)
  run_all-counting j (call ∷ calls) b (f, a) h =
      rw (settle-counting j call f, failure-counting breaker j call.finished b (omega arith))
        (run_all-counting (j + 1) calls b a (omega arith) ∙ ap counting (omega arith))

  run-open :
      (call : Call A) (t : ℕ) (s : CircuitState)
      → s.opened_at ≡ some t
      → call.asked - t < breaker.cooldown
      → (run breaker s call).0 ≡ err circuit_open
  unfolding run permit
  run-open call t s e h = rw (permit_at-open breaker call.asked t s.opened_at s e h) refl

  -- From a closed circuit, as many failures in a row as the threshold, which is positive and of 32
  -- bits, open it: until the cooldown has passed since the last of them, the next call is refused
  -- without running.
  pub refuses_after_failures :
      (calls : List (Call A)) (last next : Call A)
      → IsBreaker breaker
      → All Fails calls
      → Fails last
      → length calls + 1 ≡ breaker.threshold
      → next.asked - last.finished < breaker.cooldown
      → (run breaker (run breaker (run_all breaker closed calls) last).1 next).0 ≡ err circuit_open
  refuses_after_failures calls last next b a f n h =
      rw (run_all-counting 0 calls b a (omega arith), settle-counting (0 + length calls) last f)
        (run-open next last.finished (failure breaker last.finished (counting (0 + length calls)))
          (failure_opens breaker (0 + length calls) last.finished b (omega arith)) h)
