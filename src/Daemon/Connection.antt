-- ===== src/Daemon/Connection.antt =====
-- crates/ts-daemon/src/lib.rs: `handle_connection`, which answers one request, and `daemon_call`, which makes
-- one. The JSON values are a parameter, and so is what `dispatch` does in the other threads.
pub mod Laws
use token_shrinker.Prelude.{
  ℕ, ◌≡◌, refl, Bool, false, ◌||◌, not, Option, none, some, ◌==◌, if◌then◌else◌, Result, ok, err,
  ◌>>=◌, map_err,
}
use token_shrinker.Prelude.Bytes.{Bytes, ascii, eq_bytes}
use token_shrinker.Prelude.Integers.{ℤ, negsuc, leb_int}
use token_shrinker.Types.RequestId
use token_shrinker.Types.RequestId.{RequestId}
use token_shrinker.Types.Protocol.{current}
use token_shrinker.Protocol.{
  ProtocolError, RpcRequest, RpcResponse, RpcError, validate, success, failure, is_valid,
}
use token_shrinker.Daemon.Service.{
  ServiceError, ServiceGraph, error_code, data_code, cancel, begin_shutdown,
}

-- The texts of `Display for ServiceError`.
unfoldable pub message : {J : Type 0} → ServiceError J → Bytes
message ServiceError.zero_concurrency = ascii "service concurrency must be positive"
message ServiceError.method_not_found = ascii "method not found"
message ServiceError.shutting_down = ascii "service is shutting down"
message ServiceError.poisoned = ascii "service synchronization failed"
message ServiceError.duplicate_request = ascii "duplicate request ID"
message (ServiceError.json j) = ascii "service serialization failed"
message (ServiceError.internal code) = ascii "service failed"

unfoldable pub protocol_error_code : {J : Type 0} → ProtocolError J → Bytes
protocol_error_code ProtocolError.invalid_json_rpc = ascii "invalid-jsonrpc"
protocol_error_code (ProtocolError.incompatible_version v) = ascii "incompatible-version"
protocol_error_code ProtocolError.authentication = ascii "authentication"
protocol_error_code ProtocolError.invalid_method = ascii "invalid-method"
protocol_error_code (ProtocolError.frame_too_large n) = ascii "frame-too-large"
protocol_error_code (ProtocolError.json j) = ascii "invalid-json"
protocol_error_code ProtocolError.unexpected_eof = ascii "io"

-- The values that the daemon builds and reads: `json!({"status":"shutting_down"})`, `json!({"cancelled":…})`, and
-- `params.get("requestId").and_then(Value::as_str)`.
pub record Values (V : Type 0) : Type 0 where
  pub status : V
  pub was_cancelled : Bool → V
  pub request_id : V → Option Bytes

-- `unix_millis().is_ok_and(|now| now > deadline)`
abbrev pub is_past : Option ℤ → Option ℤ → Bool
is_past none now = false
is_past (some deadline) none = false
is_past (some deadline) (some now) = not (leb_int now deadline)

module _ (J : Type 0) {V : Type 0} (values : Values V) where
  -- `dispatch` and its effect on the graph, as this connection sees them.
  abbrev pub Dispatch : Type 0
  Dispatch = ServiceGraph → RpcRequest V → Result V (ServiceError J) × ServiceGraph

  abbrev pub answer : RequestId → Result V (ServiceError J) → RpcResponse V
  unfolding error_code message data_code
  answer id (ok result) = success id result
  answer id (err error) = failure id (error_code error) (message error) (some (data_code error))

  abbrev pub answer_cancel : ServiceGraph → RequestId → Option Bytes → RpcResponse V × ServiceGraph
  unfolding cancel
  answer_cancel graph id none = (
    failure id (negsuc 32_601) (ascii "invalid cancellation request")
        (some (ascii "invalid-params")),
    graph,
  )
  answer_cancel graph id (some target) =
      let (after, cancelled) = cancel graph target in
      (success id (values.was_cancelled cancelled), after)

  -- A valid request, by its method.
  unfoldable pub respond :
      Dispatch → ServiceGraph → Option ℤ → RpcRequest V → RpcResponse V × ServiceGraph
  unfolding answer answer_cancel begin_shutdown
  respond dispatch graph now request =
      if eq_bytes request.method (ascii "daemon.shutdown")
      then (success request.id values.status, begin_shutdown graph)
      else if eq_bytes request.method (ascii "daemon.cancel")
      then answer_cancel graph request.id (values.request_id request.params)
      else if is_past request.deadline_unix_ms now
      then (
        failure request.id (negsuc 32_001) (ascii "request deadline exceeded")
            (some (ascii "deadline-exceeded")),
        graph,
      )
      else (answer request.id (dispatch graph request).0, (dispatch graph request).1)

  abbrev pub reply :
      Dispatch
      → ServiceGraph
      → Option ℤ
      → RpcRequest V
      → Result (Unit {0}) (ProtocolError J)
      → RpcResponse V × ServiceGraph
  unfolding respond protocol_error_code
  reply dispatch graph now request (err error) = (
    failure request.id (negsuc 32_000) (ascii "request rejected")
        (some (protocol_error_code error)),
    graph,
  )
  reply dispatch graph now request (ok tt) = respond dispatch graph now request

  abbrev pub reply_read :
      Dispatch
      → ServiceGraph
      → Bytes
      → Option ℤ
      → Result (RpcRequest V) (ProtocolError J)
      → Option (RpcResponse V) × ServiceGraph
  unfolding reply validate
  reply_read dispatch graph auth now (err error) = (none, graph)
  reply_read dispatch graph auth now (ok request) =
      let (response, after) = reply dispatch graph now request (validate request auth) in
      (some response, after)

  -- The response to what `read_frame` read, if there is one, and the graph afterwards.
  unfoldable pub handle_connection :
      Dispatch
      → ServiceGraph
      → Bytes
      → Option ℤ
      → Result (RpcRequest V) (ProtocolError J)
      → Option (RpcResponse V) × ServiceGraph
  unfolding reply_read
  handle_connection dispatch graph auth now frame = reply_read dispatch graph auth now frame

pub data DaemonError (J : Type 0) : Type 0 where
  invalid_response request_id zero_limit : DaemonError J
  protocol : ProtocolError J → DaemonError J
  remote : ℤ → Option Bytes → DaemonError J

pub record DaemonConfig : Type 0 where
  pub max_frame_bytes : ℕ
  pub max_concurrency : ℕ
  pub graceful_shutdown_timeout : ℕ
  pub max_log_bytes : ℕ

unfoldable pub validate_daemon_config :
    {J : Type 0} → DaemonConfig → Result (Unit {0}) (DaemonError J)
validate_daemon_config config =
    if config.max_frame_bytes == 0
      || (config.max_concurrency == 0
          || (config.graceful_shutdown_timeout == 0 || config.max_log_bytes == 0))
    then err zero_limit
    else ok tt

module _ {J V : Type 0} where
  abbrev pub outcome : Option V → Option RpcError → Result V (DaemonError J)
  outcome (some result) none = ok result
  outcome none (some error) = err (remote error.code error.data_code)
  outcome (some result) (some error) = err invalid_response
  outcome none none = err invalid_response

  -- What `daemon_call` makes of the response.
  unfoldable pub read_response : RpcResponse V → Result V (DaemonError J)
  unfolding is_valid
  read_response response =
      if not (is_valid response)
      then err invalid_response
      else outcome response.result response.error

  -- The request of `daemon_call`; `random_id` is the identifier that was drawn.
  unfoldable pub call_request : Bytes → Bytes → Bytes → V → Result (RpcRequest V) (DaemonError J)
  unfolding RequestId.new
  call_request random_id auth_token method params =
      map_err (λ e. request_id) (RequestId.new random_id) >>= (λ id. ok (record {
        jsonrpc = ascii "2.0";
        id = id;
        protocol_version = current;
        auth_token = auth_token;
        method = method;
        params = params;
        deadline_unix_ms = none;
      }))

  -- A caller gets from the response to its request what the handler returned: the value, or the number and
  -- the code of the error.
  pub read_response-answer :
      (values : Values V) (id : RequestId) (result : Result V (ServiceError J))
      → read_response (answer J values id result)
        ≡ map_err (λ error. remote (error_code error) (some (data_code error))) result
  unfolding read_response answer
  read_response-answer values id (ok v) = refl
  read_response-answer values id (err e) = refl
