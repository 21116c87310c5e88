-- ===== src/Output.antt =====
-- crates/ts-output/src/lib.rs: which output profile applies to a payload, and what formatting may
-- never touch.
pub mod Laws
use token_shrinker.Prelude.{
  Bool, true, false, ◌&&◌, not, Option, none, some, List, [], ◌∷◌, if◌then◌else◌,
}
use token_shrinker.Prelude.Bytes.{Bytes, eq_bytes}

pub data OutputMode : Type 0 where
  lite full ultra wenyan_lite wenyan_full wenyan_ultra off : OutputMode

-- `OutputMode::clearer`
unfoldable pub clearer : OutputMode → OutputMode
clearer full = lite
clearer ultra = lite
clearer wenyan_full = wenyan_lite
clearer wenyan_ultra = wenyan_lite
clearer lite = lite
clearer wenyan_lite = wenyan_lite
clearer off = off

-- The derived `==` on modes.
unfoldable pub same_mode : OutputMode → OutputMode → Bool
same_mode lite lite = true
same_mode full full = true
same_mode ultra ultra = true
same_mode wenyan_lite wenyan_lite = true
same_mode wenyan_full wenyan_full = true
same_mode wenyan_ultra wenyan_ultra = true
same_mode off off = true
same_mode _ _ = false

-- `BTreeMap<String, OutputMode>` and its `get`
abbrev pub Overrides : Type 0
Overrides = List (Bytes × OutputMode)

unfoldable pub get : Overrides → Bytes → Option OutputMode
get [] k = none
get ((j, m) ∷ rest) k = if eq_bytes j k then some m else get rest k

pub record ProfileConfig : Type 0 where
  pub default_mode : OutputMode
  pub auto_clarity : Bool
  pub agents : Overrides
  pub tools : Overrides

-- `ProfileConfig::default`, with `enabled`
abbrev pub default : ProfileConfig
default = record { default_mode = full; auto_clarity = true; agents = []; tools = [] }

pub data PayloadKind : Type 0 where
  human_text machine_readable raw_evidence source_code third_party_message internal : PayloadKind

pub data ClarityTrigger : Type 0 where
  routine security_warning irreversible_action ordered_recovery : ClarityTrigger
  meaning_sensitive : ClarityTrigger

-- `clarity != ClarityTrigger::Routine`
abbrev pub is_sensitive : ClarityTrigger → Bool
is_sensitive routine = false
is_sensitive _ = true

pub record FormatRequest : Type 0 where
  pub agent : Option Bytes
  pub tool : Option Bytes
  pub session_mode : Option OutputMode
  pub request_mode : Option OutputMode
  pub payload_kind : PayloadKind
  pub clarity : ClarityTrigger

pub data ProfileSource : Type 0 where
  request session tool agent global : ProfileSource

pub data BypassReason : Type 0 where
  machine_readable raw_evidence source_code third_party_message internal : BypassReason

pub record FormatDecision : Type 0 where
  pub configured_mode : OutputMode
  pub effective_mode : OutputMode
  pub source : ProfileSource
  pub bypass : Option BypassReason
  pub clarity_trigger : Option ClarityTrigger

-- `bypass_reason`
unfoldable pub bypass_reason : PayloadKind → Option BypassReason
bypass_reason PayloadKind.human_text = none
bypass_reason PayloadKind.machine_readable = some BypassReason.machine_readable
bypass_reason PayloadKind.raw_evidence = some BypassReason.raw_evidence
bypass_reason PayloadKind.source_code = some BypassReason.source_code
bypass_reason PayloadKind.third_party_message = some BypassReason.third_party_message
bypass_reason PayloadKind.internal = some BypassReason.internal

-- `name.as_ref().and_then(|name| overrides.get(name).copied())`
unfoldable pub scoped : Option Bytes → Overrides → Option OutputMode
unfolding get
scoped none overrides = none
scoped (some name) overrides = get overrides name

-- `mode.map(|mode| (mode, source)).or_else(rest)`
abbrev pub or_source :
    Option OutputMode → ProfileSource → OutputMode × ProfileSource → OutputMode × ProfileSource
or_source (some mode) source rest = (mode, source)
or_source none source rest = rest

-- The chain that selects the configured mode.
unfoldable pub configured : ProfileConfig → FormatRequest → OutputMode × ProfileSource
unfolding scoped
configured config r = or_source r.request_mode ProfileSource.request (
    or_source r.session_mode ProfileSource.session (
      or_source (scoped r.tool config.tools) ProfileSource.tool (
        or_source (scoped r.agent config.agents) ProfileSource.agent
          (config.default_mode, ProfileSource.global))))

-- The clarity rule for a payload that is not bypassed.
unfoldable pub clarify : ProfileConfig → FormatRequest → OutputMode → ProfileSource → FormatDecision
unfolding clearer same_mode
clarify config r mode source =
    let clarified = clearer mode in
    let triggered : Bool =
      config.auto_clarity && (is_sensitive r.clarity && not (same_mode clarified mode)) in
    record {
      configured_mode = mode;
      effective_mode = if triggered then clarified else mode;
      source = source;
      bypass = none;
      clarity_trigger = if triggered then some r.clarity else none;
    }

unfoldable pub resolve : ProfileConfig → FormatRequest → FormatDecision
unfolding configured clarify bypass_reason
resolve config r =
    let (mode, source) = configured config r in
    elim (bypass_reason r.payload_kind) [
      | some reason ↦ record {
        configured_mode = mode;
        effective_mode = off;
        source = source;
        bypass = some reason;
        clarity_trigger = none;
      }
      | none ↦ clarify config r mode source
    ]

pub data ProtectedSpanKind : Type 0 where
  code command path error number_or_unit citation warning uncertainty negation : ProtectedSpanKind

-- `PreservationPolicy::protects`
unfoldable pub protects : ProtectedSpanKind → Bool
protects kind = true
