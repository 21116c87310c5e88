-- ===== src/Types/Count.antt =====
-- crates/ts-types/src/lib.rs: `TokenBudget`, `CountPrecision` and `TokenCount`.
use token_shrinker.Prelude.{ℕ, Option, none, some, ◌==◌, ◌<◌, ◌≤◌, u32_max, if◌then◌else◌}
use token_shrinker.Types.CounterId.{CounterId}

-- `TokenBudget(NonZeroU32)`
pub record TokenBudget : Type 0 where
  pub get : ℕ

-- What the type `NonZeroU32` guarantees of its value.
pub record IsNonZeroU32 (b : TokenBudget) : Type 0 where
  pub positive : 0 < b.get
  pub fits : b.get ≤ u32_max

unfoldable pub from_u32 : ℕ → Option TokenBudget
from_u32 tokens = if tokens == 0 then none else some (record { get = tokens })

pub data CountPrecision : Type 0 where
  exact estimated : CountPrecision

pub record TokenCount : Type 0 where
  pub tokens : ℕ
  pub precision : CountPrecision
  pub counter_id : CounterId
