-- ===== src/Provider/Circuit/Laws.antt =====
-- Why the circuit breaker refuses.
use token_shrinker.Prelude.{
  ℕ, suc, ◌+◌, ◌-◌, ◌≡◌, refl, ◌≤◌, ◌<◌, min, false, Option, none, some, List, [], ◌∷◌, leb, ltb,
  if◌then◌else◌, Result, ok, err, arith, u32_max, leb→le, leb_false→lt, Bool-cases, inl, inr,
}
use token_shrinker.Provider.{ProviderError}
use token_shrinker.Provider.Circuit.{
  CircuitState, closed, CircuitBreaker, permit_at, permit, failure, Call, settle, run, run_all,
}

-- A breaker as `CircuitBreaker::new` makes it, with a threshold of 32 bits.
pub record IsBreaker (breaker : CircuitBreaker) : Type 0 where
  pub positive : 0 < breaker.threshold
  pub bounded : breaker.threshold ≤ u32_max

-- The circuit is open exactly when the failures reach the threshold.
abbrev IsConsistent : CircuitBreaker → ℕ → Option ℕ → Type 0
IsConsistent breaker failures none = failures < breaker.threshold
IsConsistent breaker failures (some _) = breaker.threshold ≤ failures

-- How many of the calls that ran have failed since the last one that succeeded, after `k` before.
streak_after {ℓ} : {A : Type ℓ} → Result A ProviderError → ℕ → ℕ
streak_after (ok _) k = 0
streak_after (err _) k = suc k

module _ (breaker : CircuitBreaker) where
  record IsState (k : ℕ) (s : CircuitState) : Type 0 where
    consistent : IsConsistent breaker s.consecutive_failures s.opened_at
    counted : s.consecutive_failures ≤ k

  closed-IsState : IsBreaker breaker → (k : ℕ) → IsState k closed
  closed-IsState b k = record { consistent = b.positive; counted = omega arith }

  IsConsistent-some :
      (failures : ℕ) (now : ℕ)
      → breaker.threshold ≤ failures
      → IsConsistent breaker failures (some now)
  IsConsistent-some failures now h = h

  IsConsistent-less :
      (failures : ℕ) (o : Option ℕ)
      → failures < breaker.threshold
      → IsConsistent breaker (failures - 1) o
      → IsConsistent breaker failures o
  IsConsistent-less failures none h c = h
  IsConsistent-less failures (some t) h c = absurd (omega (arith, c))

  failure-IsState :
      (now k : ℕ) (s : CircuitState)
      → IsBreaker breaker
      → IsState k s
      → IsState (suc k) (failure breaker now s)
  unfolding failure
  failure-IsState now k s b i =
      let failures = min (s.consecutive_failures + 1) u32_max in
      elim (Bool-cases (leb breaker.threshold failures)) [
        | inl e ↦ rw e (record {
          consistent = leb→le breaker.threshold failures e;
          counted = omega (arith, i.counted);
        })
        | inr e ↦ rw e (record {
          consistent =
              IsConsistent-less failures s.opened_at (leb_false→lt breaker.threshold failures e)
                (rw (pred_failures (leb_false→lt breaker.threshold failures e)) i.consistent);
          counted = omega (arith, i.counted);
        })
      ]
    where
      pred_failures :
          min (s.consecutive_failures + 1) u32_max < breaker.threshold
          → min (s.consecutive_failures + 1) u32_max - 1 ≡ s.consecutive_failures
      pred_failures h = omega (arith, b.bounded)

  permit_at-IsState :
      (now k : ℕ) (o : Option ℕ) (s : CircuitState)
      → IsBreaker breaker
      → IsState k s
      → IsState k (permit_at breaker now o s).1
  unfolding permit_at
  permit_at-IsState now k none s b i = i
  permit_at-IsState now k (some t) s b i = elim (Bool-cases (ltb (now - t) breaker.cooldown)) [
    | inl p ↦ rw p i
    | inr p ↦ rw p (closed-IsState b k)
  ]

  permit_at-refused :
      (now k : ℕ) (o : Option ℕ) (s : CircuitState)
      → s.opened_at ≡ o
      → IsState k s
      → (permit_at breaker now o s).0 ≡ false
      → breaker.threshold ≤ k
  unfolding permit_at
  permit_at-refused now k none s e i h = cc
  permit_at-refused now k (some t) s e i h =
      omega (arith, consistent_some s.opened_at e i.consistent, i.counted)
    where
      consistent_some :
          (o : Option ℕ)
          → o ≡ some t
          → IsConsistent breaker s.consecutive_failures o
          → breaker.threshold ≤ s.consecutive_failures
      consistent_some none p c = cc
      consistent_some (some u) p c = c

module _ {A : Type 0} (breaker : CircuitBreaker) where
  -- How many of the calls that ran have failed since the last one that succeeded, where `k` had
  -- failed before these.
  unfoldable pub streak : ℕ → CircuitState → List (Call A) → ℕ
  unfolding streak_after
  streak k s [] = k
  streak k s (call ∷ calls) =
      streak (if (permit breaker call.asked s).0 then streak_after call.result k else k)
        (run breaker s call).1 calls

  settle-IsState :
      (k : ℕ) (s : CircuitState) (call : Call A) (r : Result A ProviderError)
      → IsBreaker breaker
      → IsState breaker k s
      → IsState breaker (streak_after r k) (settle breaker call r s)
  unfolding streak_after
  settle-IsState k s call (ok a) b i = closed-IsState breaker b 0
  settle-IsState k s call (err e) b i = failure-IsState breaker call.finished k s b i

  run-IsState :
      (k : ℕ) (s : CircuitState) (call : Call A)
      → IsBreaker breaker
      → IsState breaker k s
      → IsState breaker
          (if (permit breaker call.asked s).0 then streak_after call.result k else k)
          (run breaker s call).1
  unfolding run permit
  run-IsState k s call b i =
      let asked = permit_at-IsState breaker call.asked k s.opened_at s b i in
      elim (Bool-cases (permit_at breaker call.asked s.opened_at s).0) [
        | inl e ↦ rw e (
            settle-IsState k (permit_at breaker call.asked s.opened_at s).1 call call.result b
              asked)
        | inr e ↦ rw e asked
      ]

  streak-IsState :
      (k : ℕ) (s : CircuitState) (calls : List (Call A))
      → IsBreaker breaker
      → IsState breaker k s
      → IsState breaker (streak k s calls) (run_all breaker s calls)
  unfolding streak run_all
  streak-IsState k s [] b i = i
  streak-IsState k s (call ∷ calls) b i =
      streak-IsState (if (permit breaker call.asked s).0 then streak_after call.result k else k)
        (run breaker s call).1 calls b (run-IsState k s call b i)

  -- A breaker with a positive threshold of 32 bits that starts closed refuses a call only after at least as many failures as its
  -- threshold, among the calls that ran, without a success after them.
  pub refused_after_failures :
      (calls : List (Call A)) (now : ℕ)
      → IsBreaker breaker
      → (permit breaker now (run_all breaker closed calls)).0 ≡ false
      → breaker.threshold ≤ streak 0 closed calls
  unfolding permit
  refused_after_failures calls now b h =
      let s = run_all breaker closed calls in
      permit_at-refused breaker now (streak 0 closed calls) s.opened_at s refl
        (streak-IsState 0 closed calls b (closed-IsState breaker b 0)) h
