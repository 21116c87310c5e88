-- ===== src/Types/Protocol.antt =====
-- crates/ts-types/src/lib.rs: `ProtocolVersion`.
use token_shrinker.Prelude.{ℕ, Bool, ◌==◌}

pub record ProtocolVersion : Type 0 where
  pub major : ℕ
  pub minor : ℕ

-- `ProtocolVersion::CURRENT`
abbrev pub current : ProtocolVersion
current = record { major = 1; minor = 0 }

unfoldable pub is_compatible_with : ProtocolVersion → ProtocolVersion → Bool
is_compatible_with a b = a.major == b.major
