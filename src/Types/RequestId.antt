-- ===== src/Types/RequestId.antt =====
-- crates/ts-types/src/lib.rs: `RequestId` and `RequestIdError`.
pub mod Laws
use token_shrinker.Prelude.{ltb, if◌then◌else◌, all, length, not, Result, ok, err}
use token_shrinker.Prelude.Bytes.{Bytes, is_empty, is_ascii_byte}

pub record RequestId : Type 0 where
  pub value : Bytes

pub data RequestIdError : Type 0 where
  empty too_long non_ascii : RequestIdError

-- `RequestId::new`, which `TryFrom<String>` calls
unfoldable pub new : Bytes → Result RequestId RequestIdError
new value =
    if is_empty value
    then err empty
    else if ltb 128 (length value)
    then err too_long
    else if not (all is_ascii_byte value)
    then err non_ascii
    else ok (record { value = value })

-- `as_str`, `Display` and `From<RequestId> for String`
abbrev pub as_str : RequestId → Bytes
as_str id = id.value
