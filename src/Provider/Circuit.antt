-- ===== src/Provider/Circuit.antt =====
-- crates/ts-provider/src/lib.rs: `CircuitBreaker`, and `ManagedProcess::run`, which asks it before
-- every call and tells it the outcome. The clock is a number of nanoseconds; the mutex is never
-- poisoned, since nothing panics while it is held. What the process returns is a parameter.
pub mod Laws
pub mod Opening
use token_shrinker.Prelude.{
  ℕ, ◌+◌, ◌-◌, max, min, Bool, true, false, Option, none, some, List, [], ◌∷◌, leb, ltb,
  if◌then◌else◌, Result, ok, err, u32_max,
}
use token_shrinker.Provider.{ProviderError, circuit_open, ProviderSpec}

pub record CircuitState : Type 0 where
  pub consecutive_failures : ℕ
  pub opened_at : Option ℕ

-- `CircuitState::default`
abbrev pub closed : CircuitState
closed = record { consecutive_failures = 0; opened_at = none }

pub record CircuitBreaker : Type 0 where
  pub threshold : ℕ
  pub cooldown : ℕ

abbrev pub new : ℕ → ℕ → CircuitBreaker
new threshold cooldown = record { threshold = max threshold 1; cooldown = cooldown }

-- `CircuitBreaker::permit` at the time `now`: whether the call may run, and the state after it.
-- The time elapsed is 0 when the clock is behind, as `Instant::elapsed` has it.
unfoldable pub permit_at : CircuitBreaker → ℕ → Option ℕ → CircuitState → Bool × CircuitState
permit_at breaker now none s = (true, s)
permit_at breaker now (some opened_at) s =
    if ltb (now - opened_at) breaker.cooldown then (false, s) else (true, closed)

unfoldable pub permit : CircuitBreaker → ℕ → CircuitState → Bool × CircuitState
unfolding permit_at
permit breaker now s = permit_at breaker now s.opened_at s

abbrev pub success : CircuitState → CircuitState
success s = closed

-- `CircuitBreaker::failure` at the time `now`.
unfoldable pub failure : CircuitBreaker → ℕ → CircuitState → CircuitState
failure breaker now s =
    let failures = min (s.consecutive_failures + 1) u32_max in
    record {
      consecutive_failures = failures;
      opened_at = if leb breaker.threshold failures then some now else s.opened_at;
    }

-- A call: when it asks the breaker, what the process gives, and when that is known.
pub record Call (A : Type 0) : Type 0 where
  pub asked : ℕ
  pub result : Result A ProviderError
  pub finished : ℕ

module _ {A : Type 0} where
  abbrev pub settle : CircuitBreaker → Call A → Result A ProviderError → CircuitState → CircuitState
  settle breaker call (ok value) s = success s
  settle breaker call (err e) s = failure breaker call.finished s

  -- `ManagedProcess::run`: the result, and the state after it.
  unfoldable pub run :
      CircuitBreaker → CircuitState → Call A → Result A ProviderError × CircuitState
  unfolding permit failure
  run breaker s call =
      let asked = permit breaker call.asked s in
      if asked.0
      then (call.result, settle breaker call call.result asked.1)
      else (err circuit_open, asked.1)

  -- The state after several calls.
  unfoldable pub run_all : CircuitBreaker → CircuitState → List (Call A) → CircuitState
  unfolding run
  run_all breaker s [] = s
  run_all breaker s (call ∷ calls) = run_all breaker (run breaker s call).1 calls
