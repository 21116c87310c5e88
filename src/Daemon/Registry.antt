-- ===== src/Daemon/Registry.antt =====
-- crates/ts-daemon/src/lib.rs: `HealthState`, `Capability` and `CapabilityRegistry`.
use token_shrinker.Prelude.{Bool, true, false, Option, none, some, List, any, if◌then◌else◌}
use token_shrinker.Prelude.Bytes.{Bytes, ascii}
use token_shrinker.Prelude.Map.{upsert, values}

pub data HealthState : Type 0 where
  healthy degraded failed : HealthState

pub record Capability : Type 0 where
  pub id : Bytes
  pub provider : Bytes
  pub fallback : Option Bytes
  pub health : HealthState
  pub warning_code : Option Bytes

-- `BTreeMap<String, Capability>`
pub record CapabilityRegistry : Type 0 where
  pub capabilities : List (Bytes × Capability)

-- The three cases of `register`: the preferred provider is healthy, or required, or neither.
unfoldable pub capability_of : Bytes → Bytes → Bool → Bytes → Bool → Capability
capability_of id preferred preferred_healthy fallback required =
    if preferred_healthy
    then record {
      id = id;
      provider = preferred;
      fallback = some fallback;
      health = healthy;
      warning_code = none;
    }
    else if required
    then record {
      id = id;
      provider = preferred;
      fallback = some fallback;
      health = failed;
      warning_code = some (ascii "required-provider-unavailable");
    }
    else record {
      id = id;
      provider = fallback;
      fallback = some fallback;
      health = degraded;
      warning_code = some (ascii "optional-provider-fallback");
    }

unfoldable pub register :
    CapabilityRegistry → Bytes → Bytes → Bool → Bytes → Bool → CapabilityRegistry
unfolding capability_of upsert
register self id preferred preferred_healthy fallback required =
    let capability = capability_of id preferred preferred_healthy fallback required in
    record { capabilities = upsert id (λ old. capability) capability self.capabilities }

-- `list`, in the order of the identifiers
abbrev pub list : CapabilityRegistry → List Capability
list self = values self.capabilities

abbrev pub is_failed : HealthState → Bool
is_failed failed = true
is_failed healthy = false
is_failed degraded = false

abbrev pub is_degraded : HealthState → Bool
is_degraded degraded = true
is_degraded healthy = false
is_degraded failed = false

unfoldable pub overall_health : CapabilityRegistry → HealthState
overall_health self =
    if any (λ (item : Capability). is_failed item.health) (list self)
    then failed
    else if any (λ (item : Capability). is_degraded item.health) (list self)
    then degraded
    else healthy
