-- ===== src/Tests/Service.antt =====
-- The service graph, its threads and its connections at concrete inputs.
use token_shrinker.Prelude.{◌≡◌, refl, ◌<◌, true, false, none, some, [], ok, err, arith}
use token_shrinker.Prelude.Bytes.{Bytes, ascii}
use token_shrinker.Types.Protocol.{current}
use token_shrinker.Protocol.{RpcRequest, validate, invalid_json_rpc}
use token_shrinker.Daemon.Registry.{CapabilityRegistry, register, overall_health, degraded, failed}
use token_shrinker.Prelude.Map.{upsert}
use token_shrinker.Prelude.Order.{cmp_bytes}
use token_shrinker.Daemon.Service.{ServiceGraph, new_graph, register_token, cancel, enter}
use token_shrinker.Daemon.Service.Threads.{System, Reach, here, next, arrive, pass}
use token_shrinker.Daemon.Service.Safety.{ServesWell, Reach-ServesWell, insert_duplicate-cancel}
use token_shrinker.Daemon.Connection.{Values}

-- An optional provider that is down degrades the service; a required one fails it.
abbrev no_capabilities : CapabilityRegistry
no_capabilities = record { capabilities = [] }

health_degrades :
    overall_health
      (register no_capabilities (ascii "graph") (ascii "graphify") false (ascii "native") false)
    ≡ degraded
unfolding overall_health register
health_degrades = refl

health_fails :
    overall_health (
      register
        (register no_capabilities (ascii "graph") (ascii "graphify") false (ascii "native") false)
        (ascii "a")
        (ascii "b")
        false
        (ascii "c")
        true)
    ≡ failed
unfolding overall_health register upsert cmp_bytes
health_fails = refl

abbrev graph : ServiceGraph
graph = record {
  maximum = 1;
  active = 0;
  shutting_down_flag = false;
  cancellations = λ id. none;
  raised = λ token. false;
  made = 0;
}

graph_is_new : new_graph {J = Bytes} 1 ≡ ok graph
unfolding new_graph
graph_is_new = refl

abbrev begun : System
begun = record { graph = graph; threads = [] }

-- Two requests arrive, and the gate lets the first one in.
reached : (s : System) × Reach Bytes begun s
unfolding enter
reached = (
  _,
  next (next (next here (arrive (ascii "x") none)) (arrive (ascii "y") none))
      (pass 0 _ _ (refl, refl) refl),
)

Reach-ServesWell_example : ServesWell Bytes 1 (omega arith) reached.0
Reach-ServesWell_example =
    Reach-ServesWell Bytes 1 (omega arith) graph reached.0 graph_is_new reached.1

-- A request `x` runs with the token 0.
abbrev busy : ServiceGraph
busy = (register_token graph (ascii "x")).0

busy_runs : busy.cancellations (ascii "x") ≡ some 0
unfolding register_token
busy_runs = refl

busy_made : 0 < busy.made
unfolding register_token
busy_made = omega arith

insert_duplicate-cancel_example :
    ((register_token busy (ascii "x")).1 ≡ true)
    × ((cancel (register_token busy (ascii "x")).0 (ascii "x")).1 ≡ true)
    × ((cancel (register_token busy (ascii "x")).0 (ascii "x")).0.raised 0 ≡ busy.raised 0)
insert_duplicate-cancel_example = insert_duplicate-cancel busy (ascii "x") 0 busy_runs busy_made

abbrev values : Values Bytes
values = record {
  status = ascii "shutting_down";
  was_cancelled = λ b. ascii "cancelled";
  request_id = λ v. some v;
}

abbrev request : RpcRequest Bytes
request = record {
  jsonrpc = ascii "1.0";
  id = record { value = ascii "x" };
  protocol_version = current;
  auth_token = [];
  method = ascii "daemon.shutdown";
  params = [];
  deadline_unix_ms = none;
}

-- The request has no token, and is refused.
request_is_invalid : validate {J = Bytes} request [] ≡ err invalid_json_rpc
unfolding validate
request_is_invalid = refl
