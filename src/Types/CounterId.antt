-- ===== src/Types/CounterId.antt =====
-- crates/ts-types/src/lib.rs: `CounterId` and `CounterIdError`.
use token_shrinker.Prelude.{
  ℕ, Bool, ◌||◌, ◌==◌, ltb, if◌then◌else◌, all, length, not, Result, ok, err,
}
use token_shrinker.Prelude.Bytes.{Bytes, is_empty, is_ascii_alphanumeric}

pub record CounterId : Type 0 where
  pub value : Bytes

pub data CounterIdError : Type 0 where
  empty too_long invalid_character : CounterIdError

abbrev pub is_counter_byte : ℕ → Bool
is_counter_byte b = is_ascii_alphanumeric b || (b == b'.' || (b == b'-' || b == b'_'))

-- `CounterId::new`, which `TryFrom<String>` calls
unfoldable pub new : Bytes → Result CounterId CounterIdError
new value =
    if is_empty value
    then err empty
    else if ltb 64 (length value)
    then err too_long
    else if not (all is_counter_byte value)
    then err invalid_character
    else ok (record { value = value })
