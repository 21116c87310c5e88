-- ===== src/Context/ContentHash.antt =====
-- crates/ts-context/src/lib.rs: `ContentHash`, `ContentHashError` and `digest_to_content_hash`.
pub mod Laws
use token_shrinker.Prelude.{
  ℕ, ◌/◌, ◌%◌, ◌+◌, ◌-◌, Bool, ◌&&◌, ◌||◌, ◌==◌, leb, ltb, if◌then◌else◌, all, length, not, Result,
  ok, err, List, [], ◌∷◌,
}
use token_shrinker.Prelude.Bytes.{Bytes, is_ascii_digit}

pub record ContentHash : Type 0 where
  pub value : Bytes

pub data ContentHashError : Type 0 where
  content_hash_error : ContentHashError

-- `byte.is_ascii_digit() || matches!(byte, b'a'..=b'f')`
abbrev pub is_digest_byte : ℕ → Bool
is_digest_byte b = is_ascii_digit b || leb b'a' b && leb b b'f'

-- `ContentHash::new`, which `TryFrom<String>` calls
unfoldable pub new : Bytes → Result ContentHash ContentHashError
new value =
    if not (length value == 64) || not (all is_digest_byte value)
    then err content_hash_error
    else ok (record { value = value })

-- `HEX[n]` for a nibble `n`
abbrev pub hex_digit : ℕ → ℕ
hex_digit n = if ltb n 10 then b'0' + n else b'a' + n - 10

-- The loop of `digest_to_content_hash`: `byte >> 4`, then `byte & 0x0f`.
unfoldable pub hex : Bytes → Bytes
hex [] = []
hex (b ∷ bs) = hex_digit (b / 16) ∷ hex_digit (b % 16) ∷ hex bs

-- `digest_to_content_hash`; its `expect` is the error case.
unfoldable pub digest_to_content_hash : Bytes → Result ContentHash ContentHashError
unfolding new hex
digest_to_content_hash digest = new (hex digest)
