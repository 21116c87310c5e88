-- ===== src/Protocol.antt =====
-- crates/ts-protocol/src/lib.rs: the request envelope and its validation, the responses, and the
-- bounded frames. A JSON value is a parameter, as are the serializer and the decoder; a
-- writer is what was written so far and a reader what is still to come, as `Vec<u8>` and `&[u8]` are.
pub mod Laws
pub mod Frames
use Prim.Native.Nat.{bit_or, bit_xor}
use token_shrinker.Prelude.{
  ℕ, suc, ◌^◌, Bool, true, false, ◌&&◌, ◌||◌, not, Option, none, some, List, [], ◌∷◌, ◌++◌, length,
  all, any, take, drop, ◌==◌, ltb, leb, if◌then◌else◌, Result, ok, err, map_err, ◌>>=◌, u64_max,
}
use token_shrinker.Prelude.Bytes.{
  Bytes, ascii, eq_bytes, is_empty, is_ascii_hexdigit, is_ascii_uppercase, is_ascii_alphanumeric,
}
use token_shrinker.Prelude.BigEndian.{to_be_bytes, from_be_bytes}
use token_shrinker.Prelude.Integers.{ℤ}
use token_shrinker.Types.RequestId.{RequestId}
use token_shrinker.Types.Protocol.{ProtocolVersion, current, is_compatible_with}

-- The error of the JSON library is the parameter `J`; the one I/O failure of an in-memory stream is
-- an unexpected end.
pub data ProtocolError (J : Type 0) : Type 0 where
  invalid_json_rpc authentication invalid_method unexpected_eof : ProtocolError J
  incompatible_version : ProtocolVersion → ProtocolError J
  frame_too_large : ℕ → ProtocolError J
  json : J → ProtocolError J

pub record RpcRequest (V : Type 0) : Type 0 where
  pub jsonrpc : Bytes
  pub id : RequestId
  pub protocol_version : ProtocolVersion
  pub auth_token : Bytes
  pub method : Bytes
  pub params : V
  pub deadline_unix_ms : Option ℤ

-- The fold over the two byte strings, which stops with the shorter.
unfoldable pub difference_of : ℕ → Bytes → Bytes → ℕ
difference_of difference [] right = difference
difference_of difference (l ∷ left) [] = difference
difference_of difference (l ∷ left) (r ∷ right) =
    difference_of (bit_or difference (bit_xor l r)) left right

unfoldable pub constant_time_eq : Bytes → Bytes → Bool
unfolding difference_of
constant_time_eq left right =
    if not (length left == length right) then false else difference_of 0 left right == 0

-- A byte of a lower-case hexadecimal token.
unfoldable pub is_token_byte : ℕ → Bool
is_token_byte b = is_ascii_hexdigit b && not (is_ascii_uppercase b)

-- A byte of a method name.
unfoldable pub is_method_byte : ℕ → Bool
is_method_byte b = is_ascii_alphanumeric b || any (λ c. c == b) (ascii "._-/")

-- `RpcRequest::validate`
unfoldable pub validate :
    {J V : Type 0} → RpcRequest V → Bytes → Result (Unit {0}) (ProtocolError J)
unfolding is_compatible_with constant_time_eq is_token_byte is_method_byte
validate request expected_auth =
    if not (eq_bytes request.jsonrpc (ascii "2.0"))
    then err invalid_json_rpc
    else if not (is_compatible_with request.protocol_version current)
    then err (incompatible_version request.protocol_version)
    else if not (length request.auth_token == 64)
        || (not (all is_token_byte request.auth_token)
            || not (constant_time_eq request.auth_token expected_auth))
    then err authentication
    else if is_empty request.method
        || (ltb 128 (length request.method) || not (all is_method_byte request.method))
    then err invalid_method
    else ok tt

pub record RpcError : Type 0 where
  pub code : ℤ
  pub message : Bytes
  pub data_code : Option Bytes

pub record RpcResponse (V : Type 0) : Type 0 where
  pub jsonrpc : Bytes
  pub id : RequestId
  pub protocol_version : ProtocolVersion
  pub result : Option V
  pub error : Option RpcError

abbrev pub success : {V : Type 0} → RequestId → V → RpcResponse V
success id result = record {
  jsonrpc = ascii "2.0";
  id = id;
  protocol_version = current;
  result = some result;
  error = none;
}

abbrev pub failure : {V : Type 0} → RequestId → ℤ → Bytes → Option Bytes → RpcResponse V
failure id code message data_code = record {
  jsonrpc = ascii "2.0";
  id = id;
  protocol_version = current;
  result = none;
  error = some (record { code = code; message = message; data_code = data_code });
}

abbrev pub is_some {ℓ} : {A : Type ℓ} → Option A → Bool
is_some none = false
is_some (some _) = true

-- `RpcResponse::is_valid`: `!=` on the two tests.
unfoldable pub is_valid : {V : Type 0} → RpcResponse V → Bool
is_valid response =
    if is_some response.result then not (is_some response.error) else is_some response.error

-- `Read::read_exact` of `n` bytes: the bytes, and the reader after them.
unfoldable pub read_exact : {J : Type 0} → ℕ → Bytes → Result (Bytes × Bytes) (ProtocolError J)
read_exact n reader =
    if leb n (length reader) then ok (take n reader, drop n reader) else err unexpected_eof

module _ {J T : Type 0} where
  -- The writer after the frame, where `to_vec` is the serializer.
  unfoldable pub write_frame : (T → Result Bytes J) → Bytes → T → ℕ → Result Bytes (ProtocolError J)
  unfolding to_be_bytes
  write_frame to_vec writer value max_frame_bytes = map_err json (to_vec value) >>= λ payload.
      if leb (2 ^ 32) (length payload)
      then err (frame_too_large u64_max)
      else if length payload == 0 || ltb max_frame_bytes (length payload)
      then err (frame_too_large (length payload))
      else ok ((writer ++ to_be_bytes 4 (length payload)) ++ payload)

  -- The payload of the given size, decoded by `from_slice`, and the reader after it.
  unfoldable pub read_payload :
      (Bytes → Result T J) → ℕ → Bytes → Result (T × Bytes) (ProtocolError J)
  unfolding read_exact
  read_payload from_slice size reader = do
    payload ← read_exact size reader
    value ← map_err json (from_slice payload.0)
    ok (value, payload.1)

  -- What follows the header, and the reader after the frame.
  unfoldable pub read_sized :
      (Bytes → Result T J) → ℕ → Bytes × Bytes → Result (T × Bytes) (ProtocolError J)
  unfolding read_payload from_be_bytes
  read_sized from_slice max_frame_bytes (header, reader) =
      let size = from_be_bytes header in
      if size == 0 || ltb max_frame_bytes size
      then err (frame_too_large size)
      else read_payload from_slice size reader

  -- The value and the reader after its frame.
  unfoldable pub read_frame :
      (Bytes → Result T J) → Bytes → ℕ → Result (T × Bytes) (ProtocolError J)
  unfolding read_exact read_sized
  read_frame from_slice reader max_frame_bytes =
      read_exact 4 reader >>= read_sized from_slice max_frame_bytes
