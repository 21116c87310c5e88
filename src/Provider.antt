-- ===== src/Provider.antt =====
-- crates/ts-provider/src/lib.rs: the errors and limits of an optional provider, its quality figures,
-- and the fallback. A version requirement is a parameter of a specification; durations are numbers
-- of nanoseconds.
pub mod Circuit
pub mod Laws
use token_shrinker.Prelude.{
  ℕ, ◌-◌, ◌*◌, ◌/◌, min, Bool, ◌||◌, Option, none, some, List, ◌==◌, leb, if◌then◌else◌, Result, ok,
  err, u64_max,
}
use token_shrinker.Prelude.Bytes.{Bytes, ascii}

pub data ProviderError : Type 0 where
  unavailable timeout crashed malformed response_too_large circuit_open : ProviderError
  incompatible : Bytes → Bytes → ProviderError
  missing_capability : Bytes → ProviderError

-- `ProviderError::code`
abbrev pub code : ProviderError → Bytes
code unavailable = ascii "provider-unavailable"
code timeout = ascii "provider-timeout"
code crashed = ascii "provider-crashed"
code malformed = ascii "provider-malformed-response"
code (incompatible found expected) = ascii "provider-incompatible-version"
code response_too_large = ascii "provider-response-too-large"
code circuit_open = ascii "provider-circuit-open"
code (missing_capability tool) = ascii "provider-missing-capability"

pub record ProviderLimits : Type 0 where
  pub startup_timeout : ℕ
  pub operation_timeout : ℕ
  pub max_response_bytes : ℕ
  pub failure_threshold : ℕ
  pub cooldown : ℕ

abbrev pub second : ℕ
second = 1_000_000_000

-- `ProviderLimits::default`
abbrev pub default : ProviderLimits
default = record {
  startup_timeout = 3 * second;
  operation_timeout = 10 * second;
  max_response_bytes = 1_024 * 1_024;
  failure_threshold = 3;
  cooldown = 30 * second;
}

pub record ProviderSpec (R : Type 0) : Type 0 where
  pub id : Bytes
  pub command : Bytes
  pub base_args : List Bytes
  pub environment : List (Bytes × Bytes)
  pub version_requirement : R
  pub required : Bool
  pub limits : ProviderLimits

pub record ProviderAttribution : Type 0 where
  pub provider : Bytes
  pub fallback_from : Option Bytes
  pub warning_code : Option Bytes

pub record ProviderOutcome (T : Type 0) : Type 0 where
  pub value : T
  pub attribution : ProviderAttribution

pub record ProviderQuality : Type 0 where
  pub raw_tokens : ℕ
  pub optimized_tokens : ℕ
  pub relevant_total : ℕ
  pub relevant_retained : ℕ

-- `saturating_mul` on `u64`
abbrev pub saturating_mul : ℕ → ℕ → ℕ
saturating_mul a b = min (a * b) u64_max

-- `checked_div(b).unwrap_or(default)`
abbrev pub checked_div_or : ℕ → ℕ → ℕ → ℕ
checked_div_or a b fallback = if b == 0 then fallback else a / b

unfoldable pub reduction_basis_points : ProviderQuality → ℕ
reduction_basis_points quality =
    if quality.raw_tokens == 0 || leb quality.raw_tokens quality.optimized_tokens
    then 0
    else saturating_mul (quality.raw_tokens - quality.optimized_tokens) 10_000 / quality.raw_tokens

unfoldable pub recall_basis_points : ProviderQuality → ℕ
recall_basis_points quality =
    checked_div_or (saturating_mul (min quality.relevant_retained quality.relevant_total) 10_000)
      quality.relevant_total 10_000

module _ {R T : Type 0} where
  -- `fallback` is the value that the closure would compute.
  unfoldable pub resolve_with_fallback :
      ProviderSpec R → Result T ProviderError → Bytes → T → Result (ProviderOutcome T) ProviderError
  resolve_with_fallback spec (ok value) fallback_id fallback = ok (record {
    value = value;
    attribution = record { provider = spec.id; fallback_from = none; warning_code = none };
  })
  resolve_with_fallback spec (err error) fallback_id fallback =
      if spec.required
      then err error
      else ok (record {
        value = fallback;
        attribution = record {
          provider = fallback_id;
          fallback_from = some spec.id;
          warning_code = some (code error);
        };
      })
