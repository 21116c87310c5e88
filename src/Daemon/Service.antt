-- ===== src/Daemon/Service.antt =====
-- crates/ts-daemon/src/lib.rs: `RequestGate` and `ServiceGraph`, the state that the threads of the daemon share,
-- and the steps of `dispatch` between its locks. No lock is poisoned: nothing panics under one.
pub mod Threads
pub mod Moves
pub mod Safety
use token_shrinker.Prelude.{
  ℕ, ◌+◌, ◌-◌, Bool, true, false, Option, none, some, List, [], ◌∷◌, ◌==◌, leb, if◌then◌else◌,
  add64, Result, ok, err,
}
use token_shrinker.Prelude.Bytes.{Bytes, eq_bytes, ascii}
use token_shrinker.Prelude.Integers.{ℤ, pos, negsuc, leb_int}

-- `Json` has the error of the JSON library, `Internal` its code.
pub data ServiceError (J : Type 0) : Type 0 where
  zero_concurrency method_not_found shutting_down poisoned duplicate_request : ServiceError J
  json : J → ServiceError J
  internal : Bytes → ServiceError J

-- `ServiceError::code`
unfoldable pub error_code : {J : Type 0} → ServiceError J → ℤ
error_code method_not_found = negsuc 32_600
error_code shutting_down = negsuc 32_002
error_code duplicate_request = negsuc 32_003
error_code zero_concurrency = negsuc 32_602
error_code poisoned = negsuc 32_602
error_code (json j) = negsuc 32_602
error_code (internal code) = negsuc 32_602

-- `ServiceError::data_code`
unfoldable pub data_code : {J : Type 0} → ServiceError J → Bytes
data_code zero_concurrency = ascii "zero-concurrency"
data_code method_not_found = ascii "method-not-found"
data_code shutting_down = ascii "shutting-down"
data_code poisoned = ascii "lock-poisoned"
data_code duplicate_request = ascii "duplicate-request"
data_code (json j) = ascii "json"
data_code (internal code) = code

-- A cancellation token, an `Arc<AtomicBool>`: which one it is, and the flags by the tokens.
abbrev pub Token : Type 0
Token = ℕ

-- The gate's `active` and `maximum`, the flag of the shutdown, the map of the tokens by request identifier as
-- what `get` answers, the flags, and the number of tokens that were made.
pub record ServiceGraph : Type 0 where
  pub maximum : ℕ
  pub active : ℕ
  pub shutting_down_flag : Bool
  pub cancellations : Bytes → Option Token
  pub raised : Token → Bool
  pub made : ℕ

unfoldable pub new_graph : {J : Type 0} → ℕ → Result ServiceGraph (ServiceError J)
new_graph maximum_concurrency =
    if maximum_concurrency == 0
    then err zero_concurrency
    else ok (record {
      maximum = maximum_concurrency;
      active = 0;
      shutting_down_flag = false;
      cancellations = λ id. none;
      raised = λ token. false;
      made = 0;
    })

-- One look of `RequestGate::enter` at the state, under its lock: `none` is to wait.
unfoldable pub enter : {J : Type 0} → ServiceGraph → Option (Result ServiceGraph (ServiceError J))
enter g =
    if g.shutting_down_flag
    then some (err shutting_down)
    else if leb g.maximum g.active
    then none
    else some (ok (record g { active = add64 g.active 1 }))

-- `RequestPermit::drop`
unfoldable pub leave : ServiceGraph → ServiceGraph
leave g = record g { active = g.active - 1 }

abbrev pub put_token : Bytes → Option Token → (Bytes → Option Token) → Bytes → Option Token
put_token id token cancellations other = if eq_bytes other id then token else cancellations other

abbrev pub is_some {ℓ} : {A : Type ℓ} → Option A → Bool
is_some none = false
is_some (some x) = true

-- The block that makes the token and inserts it: the graph, and whether the identifier was in use.
unfoldable pub register_token : ServiceGraph → Bytes → ServiceGraph × Bool
register_token g id = (
  record g { cancellations = put_token id (some g.made) g.cancellations; made = g.made + 1 },
  is_some (g.cancellations id),
)

abbrev pub raise : ServiceGraph → Token → ServiceGraph
raise g token = record g { raised = λ other. if other == token then true else g.raised other }

-- The deadline of the request, against the clock, which may fail: a deadline that has passed raises the flag at
-- once, and for another one a thread waits.
unfoldable pub arm_deadline :
    {J : Type 0} → ServiceGraph → Token → Option ℤ → Option ℤ → Result ServiceGraph (ServiceError J)
arm_deadline g token none clock = ok g
arm_deadline g token (some deadline) none = err (internal (ascii "clock"))
arm_deadline g token (some deadline) (some now) =
    if leb_int deadline now then ok (raise g token) else ok g

-- What follows the handler: the identifier is removed.
unfoldable pub unregister : ServiceGraph → Bytes → ServiceGraph
unregister g id = record g { cancellations = put_token id none g.cancellations }

abbrev pub raise_found : ServiceGraph → Option Token → ServiceGraph × Bool
raise_found g none = (g, false)
raise_found g (some token) = (raise g token, true)

unfoldable pub cancel : ServiceGraph → Bytes → ServiceGraph × Bool
cancel g request_id = raise_found g (g.cancellations request_id)

unfoldable pub begin_shutdown : ServiceGraph → ServiceGraph
begin_shutdown g = record g { shutting_down_flag = true }
