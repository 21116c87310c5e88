-- ===== src/Prelude/Unicode.antt =====
-- The operations of the standard library on texts that rest on the tables of Unicode: parameters.
use token_shrinker.Prelude.Bytes.{Bytes}

pub record Unicode : Type 0 where
  -- `String::from_utf8_lossy`
  pub lossy : Bytes → Bytes
  -- `str::to_lowercase`, `str::trim` and `str::trim_start`
  pub to_lowercase : Bytes → Bytes
  pub trim : Bytes → Bytes
  pub trim_start : Bytes → Bytes
