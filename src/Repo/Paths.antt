-- ===== src/Repo/Paths.antt =====
-- crates/ts-repo/src/lib.rs: `normalized_relative`, `encode_path` and `decode_relative_path`, which make
-- the handle of a file and read it. A relative path of normal components is the list of these.
pub mod Laws
use token_shrinker.Prelude.{
  ℕ, zero, suc, length, ◌+◌, ◌-◌, ◌*◌, ◌/◌, ◌%◌, Bool, true, false, ◌&&◌, ◌||◌, not, Option, none,
  some, List, [], ◌∷◌, ◌++◌, any, ◌==◌, leb, ltb, if◌then◌else◌, Result, ok, err, ok_or, ◌>>=◌,
  ◌>>◌, refuse_if,
}
use token_shrinker.Prelude.Bytes.{Bytes, ascii, eq_bytes, is_empty, is_ascii_alphanumeric}
use mathlib.Core.Option

-- The errors of the path functions: `RepositoryError::InvalidEncodedPath`.
pub data EncodedPathError : Type 0 where
  invalid_encoded_path : EncodedPathError

-- `std::path::Component`: a normal component, or a prefix, a root or a reference to a directory.
pub data PathComponent : Type 0 where
  normal : Bytes → PathComponent
  special : PathComponent

abbrev pub slash : ℕ
slash = b'/'

-- `parts.join("/")`
unfoldable pub join_parts : List Bytes → Bytes
join_parts [] = []
join_parts (part ∷ []) = part
join_parts (part ∷ next ∷ parts) = part ++ (slash ∷ join_parts (next ∷ parts))

-- The loop over the components; `to_str` gives nothing where the component is not UTF-8.
unfoldable pub normal_parts : (Bytes → Bool) → List PathComponent → Option (List Bytes)
normal_parts is_utf8 [] = some []
normal_parts is_utf8 (special ∷ components) = none
normal_parts is_utf8 (normal part ∷ components) =
    let rest = normal_parts is_utf8 components in
    if is_utf8 part then Option.map (◌∷◌ part) rest else none

unfoldable pub joined_unless_empty : List Bytes → Option Bytes
unfolding join_parts
joined_unless_empty [] = none
joined_unless_empty (part ∷ parts) = some (join_parts (part ∷ parts))

unfoldable pub normalized_relative : (Bytes → Bool) → List PathComponent → Option Bytes
unfolding normal_parts joined_unless_empty Option.bind
normalized_relative is_utf8 components =
    Option.bind (normal_parts is_utf8 components) joined_unless_empty

-- A byte that stands for itself.
abbrev pub is_plain : ℕ → Bool
is_plain b = is_ascii_alphanumeric b || any (λ c. c == b) (ascii "/._-")

-- `HEX[n]` for a nibble `n`
abbrev pub upper_hex_digit : ℕ → ℕ
upper_hex_digit n = if ltb n 10 then b'0' + n else b'A' + n - 10

unfoldable pub encode_path : Bytes → Bytes
encode_path [] = []
encode_path (b ∷ bs) =
    let rest = encode_path bs in
    if is_plain b
    then b ∷ rest
    else b'%' ∷ upper_hex_digit (b / 16) ∷ upper_hex_digit (b % 16) ∷ rest

unfoldable pub hex_value : ℕ → Option ℕ
hex_value byte =
    if leb b'0' byte && leb byte b'9'
    then some (byte - b'0')
    else if leb b'a' byte && leb byte b'f'
    then some (byte - b'a' + 10)
    else if leb b'A' byte && leb byte b'F'
    then some (byte - b'A' + 10)
    else none

-- An escaped byte before the rest, `(high << 4) | low`: `low` is below 16.
abbrev pub unescaped : Option ℕ → Option ℕ → Option Bytes → Option Bytes
unescaped (some high) (some low) rest = Option.map (◌∷◌ (high * 16 + low)) rest
unescaped (some high) none rest = none
unescaped none low rest = none

-- The two digits after a percent sign, and what follows them.
unfoldable pub escaped : (Bytes → Option Bytes) → Bytes → Option Bytes
unfolding hex_value
escaped continue (high ∷ low ∷ rest) = unescaped (hex_value high) (hex_value low) (continue rest)
escaped continue _ = none

-- The loop of `decode_relative_path` on the bytes from the index on. Each turn takes one at least, so
-- as many turns as bytes are enough.
unfoldable pub decode_loop : ℕ → Bytes → Option Bytes
unfolding escaped
decode_loop turns [] = some []
decode_loop zero (b ∷ bs) = none
decode_loop (suc turns) (b ∷ bs) = elim (b == b'%') [
  | true ↦ escaped (decode_loop turns) bs
  | false ↦ Option.map (◌∷◌ b) (decode_loop turns bs)
]

abbrev pub put_byte : ℕ → List Bytes → List Bytes
put_byte b [] = (b ∷ []) ∷ []
put_byte b (part ∷ parts) = (b ∷ part) ∷ parts

-- `split('/')`
unfoldable pub split_slash : Bytes → List Bytes
split_slash [] = [] ∷ []
split_slash (b ∷ bs) =
    let rest = split_slash bs in if b == slash then [] ∷ rest else put_byte b rest

-- `part.is_empty() || matches!(part, "." | "..")`
abbrev pub is_refused_part : Bytes → Bool
is_refused_part part = is_empty part || (eq_bytes part (ascii ".") || eq_bytes part (ascii ".."))

-- The loop over the parts.
unfoldable pub push_parts : List Bytes → Result (List Bytes) EncodedPathError
push_parts [] = ok []
push_parts (part ∷ parts) =
    refuse_if (is_refused_part part) invalid_encoded_path
    >> (push_parts parts >>= (λ path. ok (part ∷ path)))

unfoldable pub decode_relative_path : (Bytes → Bool) → Bytes → Result (List Bytes) EncodedPathError
unfolding decode_loop split_slash push_parts
decode_relative_path is_utf8 encoded =
    ok_or (decode_loop (length encoded) encoded) invalid_encoded_path >>= (λ decoded.
      refuse_if (not (is_utf8 decoded)) invalid_encoded_path >> push_parts (split_slash decoded))
