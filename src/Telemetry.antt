-- ===== src/Telemetry.antt =====
-- crates/ts-telemetry/src/lib.rs: the events, the errors and the checks of a label and a hash.
pub mod Store
pub mod Savings
use token_shrinker.Prelude.{
  ℕ, ◌^◌, Bool, ◌&&◌, ◌||◌, not, Option, none, some, List, [], ◌∷◌, map, length, all, any, ◌==◌,
  ltb, if◌then◌else◌, Result, ok, err,
}
use token_shrinker.Prelude.Bytes.{
  Bytes, ascii, is_empty, starts_with, contains, to_ascii_lowercase, is_ascii_alphanumeric,
  is_ascii_hexdigit, is_ascii_uppercase,
}
use token_shrinker.Prelude.Integers.{ℤ}
use token_shrinker.Types.RequestId.{RequestId}
use token_shrinker.Types.Route.{RouteMode}

pub data EventStatus : Type 0 where
  success degraded failed cancelled : EventStatus

-- `EventStatus::as_str`
abbrev pub status_as_str : EventStatus → Bytes
status_as_str success = ascii "success"
status_as_str degraded = ascii "degraded"
status_as_str failed = ascii "failed"
status_as_str cancelled = ascii "cancelled"

pub data TokenDirection : Type 0 where
  input output : TokenDirection

-- `TokenDirection::as_str`
abbrev pub direction_as_str : TokenDirection → Bytes
direction_as_str input = ascii "input"
direction_as_str output = ascii "output"

pub record RequestEvent : Type 0 where
  pub request_id : RequestId
  pub session_id : Bytes
  pub agent : Bytes
  pub mode : RouteMode
  pub started_at_ms : ℤ
  pub duration_ms : ℕ
  pub status : EventStatus

pub record TokenEvent : Type 0 where
  pub request_id : RequestId
  pub stage : Bytes
  pub direction : TokenDirection
  pub raw_tokens : ℕ
  pub optimized_tokens : ℕ
  pub tokenizer : Bytes
  pub exact : Bool
  pub created_at_ms : ℤ

pub record ProviderEvent : Type 0 where
  pub request_id : RequestId
  pub provider : Bytes
  pub operation : Bytes
  pub duration_ms : ℕ
  pub status : EventStatus
  pub warning_code : Option Bytes

pub record ArtifactEvent : Type 0 where
  pub request_id : RequestId
  pub kind : Bytes
  pub content_hash : Bytes
  pub byte_count : ℕ
  pub expires_at_ms : ℤ

-- Over the errors of the crates `rusqlite` and `r2d2`.
pub data TelemetryError (E P : Type 0) : Type 0 where
  zero_pool_size invalid_hash integer_overflow : TelemetryError E P
  invalid_label integrity : Bytes → TelemetryError E P
  newer_schema : ℤ → TelemetryError E P
  pool : P → TelemetryError E P
  sqlite : E → TelemetryError E P

-- `byte.is_ascii_alphanumeric() || b"._:-".contains(&byte)`
abbrev pub is_label_byte : ℕ → Bool
is_label_byte b = is_ascii_alphanumeric b || any (λ c. c == b) (ascii "._:-")

-- The test of `validate_label`.
unfoldable pub is_refused_label : Bytes → Bool
is_refused_label value =
    let lower = map to_ascii_lowercase value in
    is_empty value
    || (ltb 64 (length value)
        || (not (all is_label_byte value)
            || (starts_with lower (ascii "sk-")
                || (starts_with lower (ascii "ghp_")
                    || (starts_with lower (ascii "github_pat_")
                        || contains lower (ascii "api_key"))))))

abbrev pub is_hash_byte : ℕ → Bool
is_hash_byte b = is_ascii_hexdigit b && not (is_ascii_uppercase b)

-- The test of `validate_hash`.
unfoldable pub is_hash : Bytes → Bool
is_hash value = length value == 64 && all is_hash_byte value

module _ {E P : Type 0} where
  unfoldable pub validate_label : Bytes → Bytes → Result (Unit {0}) (TelemetryError E P)
  unfolding is_refused_label
  validate_label field value = if is_refused_label value then err (invalid_label field) else ok tt

  unfoldable pub validate_hash : Bytes → Result (Unit {0}) (TelemetryError E P)
  unfolding is_hash
  validate_hash value = if is_hash value then ok tt else err invalid_hash

  -- `i64::try_from`
  unfoldable pub to_i64 : ℕ → Result ℕ (TelemetryError E P)
  to_i64 value = if ltb value (2 ^ 63) then ok value else err integer_overflow
