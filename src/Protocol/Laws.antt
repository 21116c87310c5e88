-- ===== src/Protocol/Laws.antt =====
-- The comparison of tokens is equality, and which requests `validate` accepts.
use Prim.Native.Nat.{bit_or, bit_xor}
use token_shrinker.Prelude.{
  ℕ, ◌≡◌, refl, ◌↔◌, ◌≤◌, ◌<◌, true, false, List, [], ◌∷◌, all, length, ok, arith,
}
use token_shrinker.Prelude.Bytes.{Bytes, ascii, eq_bytes_iff, is_empty}
use token_shrinker.Prelude.BitTests.{bit_or_zero, bit_xor_zero, bit_xor_self}
use token_shrinker.Types.Protocol.{is_compatible_with}
use token_shrinker.Protocol.{
  RpcRequest, difference_of, constant_time_eq, is_token_byte, is_method_byte, validate,
}

difference_of_zero :
    (d : ℕ) (x y : Bytes) → length x ≡ length y → difference_of d x y ≡ 0 → (d ≡ 0) × (x ≡ y)
unfolding difference_of
difference_of_zero d [] [] l h = (h, refl)
difference_of_zero d [] (b ∷ y) l h = absurd (omega arith)
difference_of_zero d (a ∷ x) [] l h = absurd (omega arith)
difference_of_zero d (a ∷ x) (b ∷ y) l h =
    let rest = difference_of_zero (bit_or d (bit_xor a b)) x y (omega arith) h in
    let parts = bit_or_zero d (bit_xor a b) rest.0 in
    (parts.0, rw (bit_xor_zero a b parts.1, rest.1) refl)

difference_of_self : (x : Bytes) → difference_of 0 x x ≡ 0
unfolding difference_of
difference_of_self [] = refl
difference_of_self (a ∷ x) = rw (bit_xor_self a) (difference_of_self x)

-- The comparison whose running time does not depend on the first difference is equality, on
-- all byte strings.
pub constant_time_eq_iff :
    (left right : Bytes) → (constant_time_eq left right ≡ true) ↔ (left ≡ right)
unfolding constant_time_eq
constant_time_eq_iff left right = (
  λ h. ground (arith, difference_of_zero 0 left right),
  λ e. rw (← e) (ground (arith, difference_of_self left)),
)

is_empty_iff {ℓ} : {A : Type ℓ} (xs : List A) → (is_empty xs ≡ false) ↔ (0 < length xs)
is_empty_iff [] = ground arith
is_empty_iff (x ∷ xs) = ground arith

-- What the server promises of an accepted request whose token is compared with `expected`.
pub record IsAdmitted {V : Type 0} (request : RpcRequest V) (expected : Bytes) : Type 0 where
  pub version : request.jsonrpc ≡ ascii "2.0"
  pub compatible : request.protocol_version.major ≡ 1
  pub authenticated : request.auth_token ≡ expected
  pub token_length : length expected ≡ 64
  pub token_bytes : all is_token_byte expected ≡ true
  pub method_nonempty : 0 < length request.method
  pub method_bounded : length request.method ≤ 128
  pub method_bytes : all is_method_byte request.method ≡ true

-- `validate` succeeds exactly on the requests with the JSON-RPC version, the major version, the
-- server's own token of 64 lower-case hexadecimal digits and a well-formed method of 1 to 128 bytes.
pub validate_iff :
    {J V : Type 0} (request : RpcRequest V) (expected : Bytes)
    → (validate {J = J} request expected ≡ ok tt) ↔ IsAdmitted request expected
unfolding validate is_compatible_with
validate_iff request expected = ground (
  arith,
  eq_bytes_iff request.jsonrpc (ascii "2.0"),
  constant_time_eq_iff request.auth_token expected,
  is_empty_iff request.method,
)
