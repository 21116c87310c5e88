-- ===== src/Tests/Formatting.antt =====
-- The output policy at concrete requests.
use token_shrinker.Prelude.{◌≡◌, refl, ◌≢◌, none, some, [], ◌∷◌}
use token_shrinker.Prelude.Bytes.{ascii}
use token_shrinker.Output.{
  lite, ultra, off, ProfileConfig, PayloadKind, security_warning, FormatRequest, resolve, default,
}
use token_shrinker.Output.Laws.{resolve_bypass}

abbrev config : ProfileConfig
config = record default { tools = (ascii "repo", ultra) ∷ [] }

abbrev warning : PayloadKind → FormatRequest
warning kind = record {
  agent = some (ascii "claude");
  tool = some (ascii "repo");
  session_mode = none;
  request_mode = none;
  payload_kind = kind;
  clarity = security_warning;
}

clarifies : (resolve config (warning PayloadKind.human_text)).effective_mode ≡ lite
unfolding resolve
clarifies = refl

resolve_bypass_example :
    let r = warning PayloadKind.source_code in
    (PayloadKind.source_code ≢ PayloadKind.human_text
      → ((resolve config r).effective_mode ≡ off)
        × ((resolve config r).bypass ≢ none)
        × ((resolve config r).clarity_trigger ≡ none))
    × (PayloadKind.source_code ≡ PayloadKind.human_text → (resolve config r).bypass ≡ none)
resolve_bypass_example = resolve_bypass config (warning PayloadKind.source_code)
