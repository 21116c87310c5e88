-- ===== src/Tests/Messages.antt =====
-- Requests and frames at concrete inputs.
use token_shrinker.Prelude.{◌≡◌, refl, ◌↔◌, none, [], ◌∷◌, ◌++◌, Result, ok, err, arith}
use token_shrinker.Prelude.Bytes.{Bytes, ascii}
use token_shrinker.Protocol.{
  RpcRequest, validate, authentication, invalid_method, frame_too_large, write_frame, read_frame,
}
use token_shrinker.Protocol.Laws.{IsAdmitted, validate_iff}
use token_shrinker.Protocol.Frames.{read_frame-write_frame}

-- Sixteen bytes, four times.
abbrev token : Bytes
token = ascii "0123456789abcdef0123456789abcdef0123456789abcdef0123456789abcdef"

abbrev request : RpcRequest (Unit {0})
request = record {
  jsonrpc = ascii "2.0";
  id = record { value = ascii "req-1" };
  protocol_version = record { major = 1; minor = 7 };
  auth_token = token;
  method = ascii "context.build";
  params = tt;
  deadline_unix_ms = none;
}

validate_iff_example : (validate {J = Unit {0}} request token ≡ ok tt) ↔ IsAdmitted request token
validate_iff_example = validate_iff {J = Unit {0}} request token

validate_accepts : validate {J = Unit {0}} request token ≡ ok tt
unfolding validate
validate_accepts = refl

validate_rejects_token : validate {J = Unit {0}} request (ascii "other") ≡ err authentication
unfolding validate
validate_rejects_token = refl

validate_rejects_method :
    validate {J = Unit {0}} (record request { method = ascii "a b" }) token ≡ err invalid_method
unfolding validate
validate_rejects_method = refl

-- A serializer that writes a text as it is, and its decoder.
abbrev to_text : Bytes → Result Bytes (Unit {0})
to_text value = ok value

abbrev on_wire : Bytes
on_wire = 0 ∷ 0 ∷ 0 ∷ 2 ∷ ascii "{}"

writes : write_frame {J = Unit {0}} to_text [] (ascii "{}") 16 ≡ ok on_wire
unfolding write_frame
writes = refl

reads : read_frame {J = Unit {0}} to_text (on_wire ++ (7 ∷ [])) 16 ≡ ok (ascii "{}", 7 ∷ [])
unfolding read_frame
reads = refl

reads_oversized :
    read_frame {J = Unit {0}} to_text (1 ∷ 0 ∷ 0 ∷ 2 ∷ []) 16 ≡ err (frame_too_large 16_777_218)
unfolding read_frame
reads_oversized = refl

read_frame-write_frame_example :
    (frame_sent : Bytes) × (on_wire ≡ [] ++ frame_sent)
    × (read_frame to_text (frame_sent ++ (7 ∷ [])) 64 ≡ ok (ascii "{}", 7 ∷ []))
read_frame-write_frame_example =
    read_frame-write_frame to_text to_text [] (ascii "{}") (ascii "{}") 16 64 on_wire (7 ∷ [])
      (omega arith) (omega arith) refl refl writes
