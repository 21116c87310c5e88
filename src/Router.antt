-- ===== src/Router.antt =====
-- crates/ts-router/src/lib.rs: the ordered, offline routing rules.
pub mod Laws
use token_shrinker.Prelude.{
  Bool, true, false, ◌&&◌, ◌||◌, not, Option, none, some, List, any, all, if◌then◌else◌,
}
use token_shrinker.Prelude.Bytes.{is_empty}
use token_shrinker.Types.Count.{TokenBudget}
use token_shrinker.Types.Route.{
  RouteMode, fast, build, deep, RouteReason, RouteOperation, lookup, command, edit, debug,
  architecture, investigation, RouteScope, named, multi_file, repository, RouteRequest,
  RouteDecision, new_decision, add_reason,
}

pub record RouterConfig : Type 0 where
  pub default_mode : Option RouteMode
  pub fast_budget : TokenBudget
  pub build_budget : TokenBudget
  pub deep_budget : TokenBudget

-- `RouterConfig::default`; its `budget` helper wraps a nonzero literal.
abbrev pub default : RouterConfig
default = record {
  default_mode = none;
  fast_budget = record { get = 4_000 };
  build_budget = record { get = 16_000 };
  deep_budget = record { get = 48_000 };
}

-- `RouterConfig::budget_for`
abbrev pub budget_for : RouterConfig → RouteMode → TokenBudget
budget_for c fast = c.fast_budget
budget_for c build = c.build_budget
budget_for c deep = c.deep_budget

abbrev pub is_broad : RouteOperation → Bool
is_broad architecture = true
is_broad investigation = true
is_broad _ = false

abbrev pub is_building : RouteOperation → Bool
is_building edit = true
is_building debug = true
is_building _ = false

abbrev pub is_focused : RouteOperation → Bool
is_focused lookup = true
is_focused command = true
is_focused _ = false

-- `request.scope == Some(s)`
abbrev pub scope_is : Option RouteScope → RouteScope → Bool
scope_is (some named) named = true
scope_is (some multi_file) multi_file = true
scope_is (some repository) repository = true
scope_is _ _ = false

-- The `else if` chain over scope and operations.
unfoldable pub automatic : Option RouteScope → List RouteOperation → RouteMode × RouteReason
automatic scope ops =
    if scope_is scope repository || any is_broad ops
    then (deep, RouteReason.broad_scope)
    else if scope_is scope multi_file || any is_building ops
    then (build, RouteReason.build_operation)
    else if scope_is scope named || (not (is_empty ops) && all is_focused ops)
    then (fast, RouteReason.focused_lookup)
    else (build, RouteReason.ambiguous_default)

-- The mode and the primary reason.
unfoldable pub select :
    Option RouteMode
    → Option RouteMode
    → Option RouteScope
    → List RouteOperation
    → RouteMode × RouteReason
unfolding automatic
select (some mode) configured scope ops = (mode, RouteReason.explicit_override)
select none (some mode) scope ops = (mode, RouteReason.configured_mode)
select none none scope ops = automatic scope ops

-- `budget_override.unwrap_or_else(|| config.budget_for(mode))`
abbrev pub effective_budget : Option TokenBudget → TokenBudget → TokenBudget
effective_budget (some b) d = b
effective_budget none d = d

-- `if request.budget_override.is_some() { decision.add_reason(..) }`
unfoldable pub note_override : Option TokenBudget → RouteDecision → RouteDecision
unfolding add_reason
note_override (some b) d = add_reason d RouteReason.budget_override
note_override none d = d

unfoldable pub route : RouteRequest → RouterConfig → RouteDecision
unfolding select note_override new_decision
route request config =
    let (mode, reason) =
      select request.explicit_mode config.default_mode request.scope request.operations in
    note_override request.budget_override
      (new_decision mode (effective_budget request.budget_override (budget_for config mode)) reason)
