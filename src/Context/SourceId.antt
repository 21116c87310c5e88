-- ===== src/Context/SourceId.antt =====
-- crates/ts-context/src/lib.rs: `SourceId` and `SourceIdError`.
pub mod Laws
use token_shrinker.Prelude.{
  ltb, if◌then◌else◌, all, any, ◌||◌, length, not, Result, ok, err, Ordering,
}
use token_shrinker.Prelude.Bytes.{Bytes, is_empty, is_ascii_byte, is_ascii_control}
use token_shrinker.Prelude.Order.{cmp_bytes}

pub record SourceId : Type 0 where
  pub value : Bytes

pub data SourceIdError : Type 0 where
  empty too_long unsafe_character : SourceIdError

-- `SourceId::new`, which `TryFrom<String>` calls
unfoldable pub new : Bytes → Result SourceId SourceIdError
new value =
    if is_empty value
    then err empty
    else if ltb 1_024 (length value)
    then err too_long
    else if not (all is_ascii_byte value) || any is_ascii_control value
    then err unsafe_character
    else ok (record { value = value })

-- The derived `Ord`.
abbrev pub cmp : SourceId → SourceId → Ordering
cmp a b = cmp_bytes a.value b.value
