-- ===== src/Router/Laws.antt =====
-- What the routing rules guarantee, over every request and configuration.
use token_shrinker.Prelude.{
  ℕ, ◌≡◌, refl, ◌≢◌, ◌≤◌, ◌↔◌, ◌⊎◌, Bool, true, false, ◌||◌, not, Option, none, some, List, [], ◌∷◌,
  any, all, arith,
}
use token_shrinker.Prelude.Bytes.{is_empty}
use token_shrinker.Types.Route.{
  named, multi_file, repository, RouteMode, fast, build, deep, RouteReason, RouteOperation, lookup,
  command, edit, debug, architecture, investigation, RouteScope, RouteRequest, same_reason,
  contains_reason,
}
use token_shrinker.Types.Route.Laws.{Distinct}
use token_shrinker.Router.{
  RouterConfig, budget_for, is_broad, is_building, is_focused, automatic, select, effective_budget,
  route,
}

unfoldable pub same_op : RouteOperation → RouteOperation → Bool
same_op lookup lookup = true
same_op command command = true
same_op edit edit = true
same_op debug debug = true
same_op architecture architecture = true
same_op investigation investigation = true
same_op _ _ = false

-- Whether an operation is requested.
abbrev pub requests : List RouteOperation → RouteOperation → Bool
requests ops o = any (same_op o) ops

any-is_broad :
    (ops : List RouteOperation)
    → any is_broad ops ≡ (requests ops architecture || requests ops investigation)
unfolding same_op
any-is_broad [] = refl
any-is_broad (o ∷ ops) = ground (arith, any-is_broad ops)

any-is_building :
    (ops : List RouteOperation) → any is_building ops ≡ (requests ops edit || requests ops debug)
unfolding same_op
any-is_building [] = refl
any-is_building (o ∷ ops) = ground (arith, any-is_building ops)

all-is_focused :
    (ops : List RouteOperation) → all is_focused ops ≡ not (any is_broad ops || any is_building ops)
all-is_focused [] = refl
all-is_focused (o ∷ ops) = ground (arith, all-is_focused ops)

is_empty-requests :
    (ops : List RouteOperation)
    → not (is_empty ops)
      ≡ (any is_broad ops || any is_building ops || requests ops lookup || requests ops command)
unfolding same_op
is_empty-requests [] = refl
is_empty-requests (o ∷ ops) = ground (arith, is_empty-requests ops)

-- The two requests ask for the same operations, in whatever order and however often.
abbrev pub SameOperations : List RouteOperation → List RouteOperation → Type 0
SameOperations xs ys = (o : RouteOperation) → requests xs o ≡ requests ys o

automatic-SameOperations :
    (scope : Option RouteScope) (xs ys : List RouteOperation)
    → SameOperations xs ys
    → automatic scope xs ≡ automatic scope ys
unfolding automatic
automatic-SameOperations scope xs ys h =
    let broad : any is_broad xs ≡ any is_broad ys = simp (any-is_broad, h) in
    let building : any is_building xs ≡ any is_building ys = simp (any-is_building, h) in
    let focused : all is_focused xs ≡ all is_focused ys =
      simp (all-is_focused, any-is_broad, any-is_building, h) in
    let nonempty : not (is_empty xs) ≡ not (is_empty ys) =
      simp (is_empty-requests, any-is_broad, any-is_building, h) in
    rw (broad, building, focused, nonempty)

-- The decision depends on the requested operations only as a set: two requests that agree in
-- their other fields and ask for the same operations, in any order and with any repetitions,
-- are routed alike.
route-SameOperations :
    (r : RouteRequest) (ops : List RouteOperation) (c : RouterConfig)
    → SameOperations r.operations ops
    → route r c ≡ route (record r { operations = ops }) c
unfolding route select
route-SameOperations r ops c h = ground (arith, automatic-SameOperations r.scope r.operations ops h)

-- How much context a mode asks for.
abbrev pub level : RouteMode → ℕ
level fast = 0
level build = 1
level deep = 2

automatic_mono :
    (scope : Option RouteScope) (ops : List RouteOperation) (o : RouteOperation)
    → ops ≢ []
    → level (automatic scope ops).0 ≤ level (automatic scope (o ∷ ops)).0
unfolding automatic
automatic_mono scope [] o h = absurd (h refl)
automatic_mono scope (x ∷ xs) o h = ground (arith, all-is_focused xs)

-- Asking for one more operation never lowers the mode of a request that names an operation.
pub route_mono :
    (r : RouteRequest) (o : RouteOperation) (c : RouterConfig)
    → r.operations ≢ []
    → level (route r c).mode ≤ level (route (record r { operations = o ∷ r.operations }) c).mode
unfolding route select
route_mono r o c h = ground (arith, automatic_mono r.scope r.operations o)

-- Explicit modes beat the configured mode, which beats the rules on scope and operations; the
-- budget is the request's if it has one, and otherwise the configured budget of the mode that
-- was chosen.
pub route_precedence :
    (r : RouteRequest) (c : RouterConfig)
    → ((m : RouteMode) → r.explicit_mode ≡ some m → (route r c).mode ≡ m)
      × ((m : RouteMode) → r.explicit_mode ≡ none → c.default_mode ≡ some m → (route r c).mode ≡ m)
      × ((route r c).budget ≡ effective_budget r.budget_override (budget_for c (route r c).mode))
unfolding route
route_precedence r c = ground arith

-- The reasons of a decision are not empty, name no reason twice, and name the budget override
-- exactly if the request replaces the budget.
pub route-reasons :
    (r : RouteRequest) (c : RouterConfig)
    → ((route r c).reasons ≢ [])
      × Distinct (route r c).reasons
      × ((contains_reason (route r c).reasons RouteReason.budget_override ≡ true)
          ↔ (r.budget_override ≢ none))
unfolding route select automatic same_reason
route-reasons r c = ground arith

automatic_ambiguous_iff :
    (scope : Option RouteScope) (ops : List RouteOperation)
    → ((automatic scope ops).1 ≡ RouteReason.ambiguous_default) ↔ ((scope ≡ none) × (ops ≡ []))
unfolding automatic
automatic_ambiguous_iff scope [] = ground arith
automatic_ambiguous_iff scope (x ∷ xs) = ground (arith, all-is_focused xs)

-- Without an explicit or configured mode the safe default is the stated reason exactly for the
-- requests that name neither a scope nor an operation.
pub route_ambiguous_iff :
    (r : RouteRequest) (c : RouterConfig)
    → r.explicit_mode ≡ none
    → c.default_mode ≡ none
    → (contains_reason (route r c).reasons RouteReason.ambiguous_default ≡ true)
      ↔ ((r.scope ≡ none) × (r.operations ≡ []))
unfolding route select same_reason
route_ambiguous_iff r c e d = ground (arith, automatic_ambiguous_iff r.scope r.operations)

-- What a request asks for by its scope or one of its operations.
abbrev pub WantsDeep : RouteRequest → Type 0
WantsDeep r =
    (r.scope ≡ some repository)
    ⊎ ((requests r.operations architecture ≡ true) ⊎ (requests r.operations investigation ≡ true))

abbrev pub WantsBuild : RouteRequest → Type 0
WantsBuild r =
    (r.scope ≡ some multi_file)
    ⊎ ((requests r.operations edit ≡ true) ⊎ (requests r.operations debug ≡ true))

abbrev pub WantsFast : RouteRequest → Type 0
WantsFast r =
    (r.scope ≡ some named)
    ⊎ ((requests r.operations lookup ≡ true) ⊎ (requests r.operations command ≡ true))

automatic_iff :
    (r : RouteRequest)
    → (((automatic r.scope r.operations).0 ≡ deep) ↔ WantsDeep r)
      × (((automatic r.scope r.operations).0 ≡ fast)
          ↔ (¬ WantsDeep r × ¬ WantsBuild r × WantsFast r))
unfolding automatic
automatic_iff r = ground (
  arith,
  any-is_broad r.operations,
  any-is_building r.operations,
  all-is_focused r.operations,
  is_empty-requests r.operations,
)

-- The mode is the explicit one, else the configured one, and else given by the scope and the set of the requested
-- operations alone: DEEP exactly if the scope is the repository or an architecture or investigation
-- operation is requested; FAST exactly if that is not so, the scope is not several files, no edit or
-- debug operation is requested, and the scope is named or a lookup or command operation is
-- requested; BUILD otherwise. The budget is the request's if it has one, and otherwise the
-- configured budget of the mode.
pub route_iff :
    (r : RouteRequest) (c : RouterConfig)
    → ((m : RouteMode) → r.explicit_mode ≡ some m → (route r c).mode ≡ m)
      × ((m : RouteMode) → r.explicit_mode ≡ none → c.default_mode ≡ some m → (route r c).mode ≡ m)
      × (r.explicit_mode ≡ none
          → c.default_mode ≡ none
          → (((route r c).mode ≡ deep) ↔ WantsDeep r)
            × (((route r c).mode ≡ fast) ↔ (¬ WantsDeep r × ¬ WantsBuild r × WantsFast r)))
      × ((route r c).budget ≡ effective_budget r.budget_override (budget_for c (route r c).mode))
unfolding route select
route_iff r c =
    let (explicit, configured, budget) = route_precedence r c in
    (explicit, configured, λ e d. rw (e, d) (ground (arith, automatic_iff r)), budget)
