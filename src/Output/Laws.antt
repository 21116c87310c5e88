-- ===== src/Output/Laws.antt =====
-- What the output policy guarantees, over every configuration and request.
use token_shrinker.Prelude.{◌≡◌, ◌≢◌, ◌↔◌, Bool, true, false, Option, none, some, arith}
use token_shrinker.Output.{
  OutputMode, wenyan_lite, wenyan_full, wenyan_ultra, off, clearer, ProfileConfig, PayloadKind,
  routine, FormatRequest, ProfileSource, request, session, tool, agent, global, scoped, configured,
  clarify, resolve,
}

-- A payload that is not text for a person is left alone whatever the configuration and the
-- overrides say: its effective mode is off, it carries a bypass reason and no clarity trigger.
-- Text for a person is never bypassed.
pub resolve_bypass :
    (c : ProfileConfig) (r : FormatRequest)
    → (r.payload_kind ≢ PayloadKind.human_text
        → ((resolve c r).effective_mode ≡ off)
          × ((resolve c r).bypass ≢ none)
          × ((resolve c r).clarity_trigger ≡ none))
      × (r.payload_kind ≡ PayloadKind.human_text → (resolve c r).bypass ≡ none)
unfolding resolve configured
resolve_bypass c r = ground arith

-- The mode that a scope supplies.
abbrev pub supplied : ProfileConfig → FormatRequest → ProfileSource → Option OutputMode
supplied c r request = r.request_mode
supplied c r session = r.session_mode
supplied c r tool = scoped r.tool c.tools
supplied c r agent = scoped r.agent c.agents
supplied c r global = some c.default_mode

-- The scopes that take precedence over a scope.
abbrev pub SilentAbove : ProfileConfig → FormatRequest → ProfileSource → Type 0
SilentAbove c r request = Unit {0}
SilentAbove c r session = r.request_mode ≡ none
SilentAbove c r tool = (r.request_mode ≡ none) × (r.session_mode ≡ none)
SilentAbove c r agent =
    (r.request_mode ≡ none) × (r.session_mode ≡ none) × (scoped r.tool c.tools ≡ none)
SilentAbove c r global =
    (r.request_mode ≡ none)
    × (r.session_mode ≡ none)
    × (scoped r.tool c.tools ≡ none)
    × (scoped r.agent c.agents ≡ none)

configured-source :
    (c : ProfileConfig) (r : FormatRequest)
    → (supplied c r (configured c r).1 ≡ some (configured c r).0)
      × SilentAbove c r (configured c r).1
unfolding configured
configured-source c r = ground arith

resolve-configured :
    (c : ProfileConfig) (r : FormatRequest)
    → ((resolve c r).source ≡ (configured c r).1)
      × ((resolve c r).configured_mode ≡ (configured c r).0)
unfolding resolve
resolve-configured c r = ground arith

-- The configured mode is the one that the reported scope supplies, and no scope of higher
-- precedence (request, session, tool, agent, global) supplies one. This holds for every payload.
pub resolve-source :
    (c : ProfileConfig) (r : FormatRequest)
    → (supplied c r (resolve c r).source ≡ some (resolve c r).configured_mode)
      × SilentAbove c r (resolve c r).source
resolve-source c r = let e = resolve-configured c r in rw (e.0, e.1) (configured-source c r)

-- Whether a mode writes classical Chinese.
abbrev pub is_wenyan : OutputMode → Bool
is_wenyan wenyan_lite = true
is_wenyan wenyan_full = true
is_wenyan wenyan_ultra = true
is_wenyan _ = false

clarify_lem :
    (c : ProfileConfig) (r : FormatRequest) (m : OutputMode) (s : ProfileSource)
    → let d = clarify c r m s in
      ((d.clarity_trigger ≡ none) ↔ (d.effective_mode ≡ m))
      × (d.clarity_trigger ≢ none
          → (d.clarity_trigger ≡ some r.clarity)
            × (r.clarity ≢ routine)
            × (c.auto_clarity ≡ true)
            × (is_wenyan d.effective_mode ≡ is_wenyan m)
            × (clearer d.effective_mode ≡ d.effective_mode))
unfolding clarify
clarify_lem c r m s = ground arith

resolve_human :
    (c : ProfileConfig) (r : FormatRequest)
    → r.payload_kind ≡ PayloadKind.human_text
    → resolve c r ≡ clarify c r (configured c r).0 (configured c r).1
unfolding resolve
resolve_human c r h = rw (h, resolve)

-- On text for a person the clarity rule changes the mode exactly when it reports a trigger; the
-- trigger is then the request's, which is not routine, automatic clarity is on, and the mode
-- becomes the clearest of its own language, from which the rule would not change it again.
pub resolve-clarity :
    (c : ProfileConfig) (r : FormatRequest)
    → r.payload_kind ≡ PayloadKind.human_text
    → let d = resolve c r in
      ((d.clarity_trigger ≡ none) ↔ (d.effective_mode ≡ d.configured_mode))
      × (d.clarity_trigger ≢ none
          → (d.clarity_trigger ≡ some r.clarity)
            × (r.clarity ≢ routine)
            × (c.auto_clarity ≡ true)
            × (is_wenyan d.effective_mode ≡ is_wenyan d.configured_mode)
            × (clearer d.effective_mode ≡ d.effective_mode))
unfolding clarify configured
resolve-clarity c r h =
    rw (resolve_human c r h) (clarify_lem c r (configured c r).0 (configured c r).1)
