-- ===== src/Provider/Laws.antt =====
-- The fallback of an optional provider is always visible, and the quality figures are fractions.
use native.Mathlib.Nat.{div-le_of_le-mul}
use token_shrinker.Prelude.{
  u64_max, if◌then◌else◌, ◌-◌, ◌*◌, ◌≡◌, refl, ◌⊎◌, ◌≤◌, min, true, false, Bool, none, some, Result,
  ok, err, ok_injective, arith, inl, inr,
}
use token_shrinker.Prelude.Bytes.{Bytes}
use token_shrinker.Provider.{
  ProviderError, code, ProviderSpec, ProviderOutcome, ProviderQuality, reduction_basis_points,
  recall_basis_points, resolve_with_fallback,
}

module _ {R T : Type 0} (spec : ProviderSpec R) (fallback_id : Bytes) (fallback : T) where
  -- The outcome is the provider's own, and says so.
  pub record IsNative (attempt : Result T ProviderError) (outcome : ProviderOutcome T)
      : Type 0 where
    pub given : attempt ≡ ok outcome.value
    pub by_provider : outcome.attribution.provider ≡ spec.id
    pub no_fallback : outcome.attribution.fallback_from ≡ none
    pub no_warning : outcome.attribution.warning_code ≡ none

  -- The provider failed and is optional; the outcome is the fallback's, and names the provider
  -- and the code of its error.
  pub record IsFallback (attempt : Result T ProviderError) (outcome : ProviderOutcome T)
      : Type 0 where
    pub error : ProviderError
    pub failed : attempt ≡ err error
    pub optional : spec.required ≡ false
    pub value_is : outcome.value ≡ fallback
    pub by_fallback : outcome.attribution.provider ≡ fallback_id
    pub from_provider : outcome.attribution.fallback_from ≡ some spec.id
    pub warning : outcome.attribution.warning_code ≡ some (code error)

  if-eq-ok :
      (test : Bool) (error : ProviderError) (value outcome : ProviderOutcome T)
      → (if test then err error else ok value) ≡ ok outcome
      → (test ≡ false) × (value ≡ outcome)
  if-eq-ok true error value outcome h = cc
  if-eq-ok false error value outcome h = (refl, ok_injective value outcome h)

  err-IsFallback :
      (error : ProviderError) (outcome : ProviderOutcome T)
      → resolve_with_fallback spec (err error) fallback_id fallback ≡ ok outcome
      → IsFallback (err error) outcome
  unfolding resolve_with_fallback
  err-IsFallback error outcome h =
      let (optional, e) = if-eq-ok spec.required error _ outcome h in
      rw (← e) (record {
        error = error;
        failed = refl;
        optional = optional;
        value_is = refl;
        by_fallback = refl;
        from_provider = refl;
        warning = refl;
      })

  -- An outcome is either the provider's own value, attributed to it without a warning, or, when an
  -- optional provider failed, the fallback's value with the provider and its error's code named.
  pub resolve_with_fallback-eq-ok :
      (attempt : Result T ProviderError) (outcome : ProviderOutcome T)
      → resolve_with_fallback spec attempt fallback_id fallback ≡ ok outcome
      → IsNative attempt outcome ⊎ IsFallback attempt outcome
  unfolding resolve_with_fallback
  resolve_with_fallback-eq-ok (ok value) outcome h = inl (
      rw (← ok_injective _ outcome h)
        (record { given = refl; by_provider = refl; no_fallback = refl; no_warning = refl }))
  resolve_with_fallback-eq-ok (err error) outcome h = inr (err-IsFallback error outcome h)

-- The reduction and the recall of any four counts are at most 10000 basis points, also where the
-- product saturates.
pub quality_bounded :
    (q : ProviderQuality) → (reduction_basis_points q ≤ 10_000) × (recall_basis_points q ≤ 10_000)
unfolding reduction_basis_points recall_basis_points
quality_bounded q =
    let saved = min ((q.raw_tokens - q.optimized_tokens) * 10_000) u64_max in
    let retained = min (min q.relevant_retained q.relevant_total * 10_000) u64_max in
    let low = div-le_of_le-mul q.raw_tokens {m = saved} {n = 10_000} (omega arith) in
    let high = div-le_of_le-mul q.relevant_total {m = retained} {n = 10_000} (omega arith) in
    (ground (arith, low), ground (arith, high))
