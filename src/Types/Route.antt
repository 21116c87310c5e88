-- ===== src/Types/Route.antt =====
-- crates/ts-types/src/lib.rs: the routing types, `RouteMode::from_str` and
-- `RouteDecision::add_reason`.
pub mod Laws
use token_shrinker.Prelude.{
  Bool, true, false, ◌||◌, Option, none, some, List, [], ◌∷◌, ◌++◌, if◌then◌else◌, Result, ok, err,
}
use token_shrinker.Prelude.Bytes.{Bytes, ascii, eq_ignore_ascii_case}
use token_shrinker.Types.Count.{TokenBudget}

pub data RouteMode : Type 0 where
  fast build deep : RouteMode

-- `RouteMode::as_str`, which `Display` writes
abbrev pub as_str : RouteMode → Bytes
as_str fast = ascii "FAST"
as_str build = ascii "BUILD"
as_str deep = ascii "DEEP"

pub data ParseRouteModeError : Type 0 where
  parse_route_mode_error : ParseRouteModeError

-- `FromStr for RouteMode`
unfoldable pub from_str : Bytes → Result RouteMode ParseRouteModeError
from_str value =
    if eq_ignore_ascii_case value (ascii "fast")
    then ok fast
    else if eq_ignore_ascii_case value (ascii "build")
    then ok build
    else if eq_ignore_ascii_case value (ascii "deep")
    then ok deep
    else err parse_route_mode_error

pub data RouteReason : Type 0 where
  explicit_override configured_mode focused_lookup build_operation : RouteReason
  broad_scope budget_override ambiguous_default : RouteReason

pub data RouteOperation : Type 0 where
  lookup command edit debug architecture investigation : RouteOperation

pub data RouteScope : Type 0 where
  named multi_file repository : RouteScope

pub record RouteRequest : Type 0 where
  pub explicit_mode : Option RouteMode
  pub operations : List RouteOperation
  pub scope : Option RouteScope
  pub budget_override : Option TokenBudget

pub record RouteDecision : Type 0 where
  pub mode : RouteMode
  pub budget : TokenBudget
  pub reasons : List RouteReason

-- The derived `==` on reasons.
unfoldable pub same_reason : RouteReason → RouteReason → Bool
same_reason explicit_override explicit_override = true
same_reason configured_mode configured_mode = true
same_reason focused_lookup focused_lookup = true
same_reason build_operation build_operation = true
same_reason broad_scope broad_scope = true
same_reason budget_override budget_override = true
same_reason ambiguous_default ambiguous_default = true
same_reason _ _ = false

-- `Vec::contains` on reasons
abbrev pub contains_reason : List RouteReason → RouteReason → Bool
contains_reason [] r = false
contains_reason (x ∷ xs) r = same_reason x r || contains_reason xs r

-- `RouteDecision::new`
unfoldable pub new_decision : RouteMode → TokenBudget → RouteReason → RouteDecision
new_decision mode budget primary_reason = record {
  mode = mode;
  budget = budget;
  reasons = primary_reason ∷ [];
}

-- `RouteDecision::add_reason`
unfoldable pub add_reason : RouteDecision → RouteReason → RouteDecision
unfolding same_reason
add_reason d reason =
    if contains_reason d.reasons reason
    then d
    else record d { reasons = d.reasons ++ (reason ∷ []) }
