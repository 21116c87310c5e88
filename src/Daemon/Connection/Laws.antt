-- ===== src/Daemon/Connection/Laws.antt =====
-- crates/ts-daemon/src/lib.rs: `handle_connection`, whatever the request is.
use token_shrinker.Prelude.{◌≡◌, true}
use token_shrinker.Prelude.Bytes.{Bytes}
use token_shrinker.Types.RequestId.{RequestId}
use token_shrinker.Protocol.{RpcResponse, is_valid}
use token_shrinker.Daemon.Connection.{Values}

module _ (J : Type 0) {V : Type 0} (values : Values V) where
  -- A response with the identifier and with exactly one of result and error.
  abbrev pub IsResponse : RequestId → RpcResponse V → Type 0
  IsResponse id response = (response.id ≡ id) × (is_valid response ≡ true)
