-- ===== src/Tests/Routing.antt =====
-- Routing at concrete requests.
use token_shrinker.Prelude.{◌↔◌, ◌≡◌, refl, none, some, List, [], ◌∷◌}
use token_shrinker.Types.Route.{
  RouteMode, fast, deep, RouteReason, RouteOperation, lookup, edit, investigation, RouteRequest,
}
use token_shrinker.Router.{default, route, budget_for, effective_budget}
use token_shrinker.Router.Laws.{WantsDeep, WantsBuild, WantsFast, route_iff}

abbrev request : List RouteOperation → RouteRequest
request operations = record {
  explicit_mode = none;
  operations = operations;
  scope = none;
  budget_override = some (record { get = 2_048 });
}

abbrev nothing : RouteRequest
nothing = record { explicit_mode = none; operations = []; scope = none; budget_override = none }

investigates : route (request (lookup ∷ investigation ∷ [])) default ≡ record {
  mode = deep;
  budget = record { get = 2_048 };
  reasons = RouteReason.broad_scope ∷ RouteReason.budget_override ∷ [];
}
unfolding route
investigates = refl

routes_alike :
    route (request (lookup ∷ edit ∷ [])) default
    ≡ route (request (edit ∷ lookup ∷ edit ∷ [])) default
unfolding route
routes_alike = refl

abbrev asked : RouteRequest
asked = request (lookup ∷ edit ∷ [])

route_iff_example :
    ((m : RouteMode) → asked.explicit_mode ≡ some m → (route asked default).mode ≡ m)
    × ((m : RouteMode)
        → asked.explicit_mode ≡ none
        → default.default_mode ≡ some m
        → (route asked default).mode ≡ m)
    × (asked.explicit_mode ≡ none
        → default.default_mode ≡ none
        → (((route asked default).mode ≡ deep) ↔ WantsDeep asked)
          × (((route asked default).mode ≡ fast)
              ↔ (¬ WantsDeep asked × ¬ WantsBuild asked × WantsFast asked)))
    × ((route asked default).budget
        ≡ effective_budget asked.budget_override (budget_for default (route asked default).mode))
route_iff_example = route_iff asked default
