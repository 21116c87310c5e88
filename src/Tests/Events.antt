-- ===== src/Tests/Events.antt =====
-- The telemetry store at concrete inputs.
use token_shrinker.Prelude.{ℕ, ◌≡◌, refl, Bool, true, false, none, List, [], ◌∷◌, any, ok, err}
use token_shrinker.Prelude.Bytes.{Bytes, ascii, eq_bytes}
use token_shrinker.Prelude.Integers.{pos}
use token_shrinker.Prelude.Order.{cmp_bytes}
use token_shrinker.Types.RequestId.{RequestId}
use token_shrinker.Types.Route.{fast}
use token_shrinker.Telemetry.{
  RequestEvent, TokenEvent, success, input, invalid_label, validate_label, validate_hash,
  invalid_hash,
}
use token_shrinker.Telemetry.Store.{
  Tables, TokenRow, has_request, record_request, record_tokens, forget_request,
}
use token_shrinker.Telemetry.Store.Sound.{IsSound}
use token_shrinker.Telemetry.Store.Sound.Calls.{
  no_rows, requested, tokens_recorded, Reach, opened, next, Reach-IsSound, forget_request_erases,
}
use token_shrinker.Telemetry.Savings.{TokenSavings, token_savings}
use token_shrinker.Telemetry.Savings.Laws.{AreDistinct, of_savings, of_events, token_savings-eq-ok}

abbrev request_id : RequestId
request_id = record { value = ascii "r1" }

abbrev request : RequestEvent
request = record {
  request_id = request_id;
  session_id = ascii "s1";
  agent = ascii "cli";
  mode = fast;
  started_at_ms = pos 3;
  duration_ms = 4;
  status = success;
}

abbrev tokens : ℕ → TokenEvent
tokens optimized = record {
  request_id = request_id;
  stage = ascii "rank";
  direction = input;
  raw_tokens = 10;
  optimized_tokens = optimized;
  tokenizer = ascii "bytes";
  exact = true;
  created_at_ms = pos 3;
}

-- The tables after a request and two token events, over numbers as errors.
unfoldable used : Tables
unfolding record_request record_tokens
used =
    let one = (record_request {E = ℕ} {P = ℕ} none none request no_rows).1 in
    let two = (record_tokens {E = ℕ} {P = ℕ} none none 9 (tokens 4) one).1 in
    (record_tokens {E = ℕ} {P = ℕ} none none 9 (tokens 13) two).1

used-Reach : Reach ℕ ℕ used
unfolding used
used-Reach =
    next
      (next (next opened (requested none none request no_rows)) (
        tokens_recorded none none 9 (tokens 4)
          (record_request {E = ℕ} {P = ℕ} none none request no_rows).1))
      (tokens_recorded none none 9 (tokens 13)
        (record_tokens {E = ℕ} {P = ℕ} none none 9 (tokens 4)
          (record_request {E = ℕ} {P = ℕ} none none request no_rows).1).1)

Reach-IsSound_example : IsSound used
Reach-IsSound_example = Reach-IsSound used-Reach

forget_request_erases_example :
    let u = (forget_request {E = ℕ} {P = ℕ} none none request_id used).1 in
    (has_request (ascii "r1") u.requests ≡ false)
    × (any (λ e. eq_bytes e.request_id (ascii "r1")) u.token_events ≡ false)
    × (any (λ e. eq_bytes e.request_id (ascii "r1")) u.provider_events ≡ false)
    × (any (λ e. eq_bytes e.request_id (ascii "r1")) u.artifacts ≡ false)
forget_request_erases_example =
    forget_request_erases {E = ℕ} {P = ℕ} {t = used} used-Reach request_id

-- One event saves six tokens and the other costs three.
abbrev savings : List TokenSavings
savings =
    record {
      tokenizer = ascii "bytes";
      exact = true;
      raw_tokens = 20;
      optimized_tokens = 17;
      savings_tokens = pos 3;
      event_count = 2;
    }
    ∷ []

saves : token_savings {E = ℕ} {P = ℕ} none none 8 used ≡ ok savings
unfolding used token_savings cmp_bytes
saves = refl

token_savings-eq-ok_example :
    let pick : Bytes → Bool → Bool = λ _ exact. exact in
    AreDistinct savings
    × (of_savings pick TokenSavings.raw_tokens savings
        ≡ of_events pick TokenRow.raw_tokens used.token_events)
    × (of_savings pick TokenSavings.optimized_tokens savings
        ≡ of_events pick TokenRow.optimized_tokens used.token_events)
    × (of_savings pick TokenSavings.event_count savings ≡ of_events pick (λ e. 1) used.token_events)
token_savings-eq-ok_example =
    token_savings-eq-ok (λ _ exact. exact) {E = ℕ} {P = ℕ} none none 8 used savings saves

-- A label that looks like a key is refused, and an event without its request.
refuses_key :
    validate_label {E = ℕ} {P = ℕ} (ascii "agent") (ascii "SK-1")
    ≡ err (invalid_label (ascii "agent"))
unfolding validate_label
refuses_key = refl

refuses_orphan :
    record_tokens {E = ℕ} {P = ℕ} none none 9 (tokens 4) no_rows
    ≡ (err (token_shrinker.Telemetry.sqlite 9), no_rows)
unfolding record_tokens
refuses_orphan = refl
