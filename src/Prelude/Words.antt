-- ===== src/Prelude/Words.antt =====
-- Unsigned machine words as numbers with their wrap-around written out.
use Prim.Native.Nat.{ℕ, ◌+◌, ◌-◌, ◌^◌, ◌%◌, ◌≤◌, ◌<◌, min}
use mathlib.Core.Path.{◌≡◌}
use mathlib.Core.Bool.{false}
use native.Mathlib.Omega.{arith}
use token_shrinker.Prelude.Tests.{ltb, lt→ltb, leb, if◌then◌else◌}

abbrev pub u32_max : ℕ
u32_max = 2 ^ 32 - 1

abbrev pub u64_max : ℕ
u64_max = 2 ^ 64 - 1

-- `a.saturating_add(b)` on `u64`
abbrev pub saturating_add : ℕ → ℕ → ℕ
saturating_add a b = min (a + b) u64_max

-- `a + b` on `u64` and on `u32`
abbrev pub add64 : ℕ → ℕ → ℕ
add64 a b = (a + b) % 2 ^ 64

abbrev pub add32 : ℕ → ℕ → ℕ
add32 a b = (a + b) % 2 ^ 32

-- `u64::try_from(n).unwrap_or(u64::MAX)` and the same at `u32`
abbrev pub to_u64 : ℕ → ℕ
to_u64 n = if ltb n (2 ^ 64) then n else u64_max

abbrev pub to_u32 : ℕ → ℕ
to_u32 n = if ltb n (2 ^ 32) then n else u32_max

-- A saturated sum that passes a 32-bit limit is the sum, and `+` does not wrap there.
pub saturating_add_fits :
    (a b limit : ℕ)
    → limit ≤ u32_max
    → saturating_add a b ≤ limit
    → (a + b ≤ limit) × (add64 a b ≡ a + b)
saturating_add_fits a b limit h p = omega arith

pub saturating_add_over : (a b limit : ℕ) → limit < saturating_add a b → limit < a + b
saturating_add_over a b limit p = omega arith

pub leb_false→lt : (a b : ℕ) → leb a b ≡ false → b < a
leb_false→lt a b h = ground arith

pub ltb_false→le : (a b : ℕ) → ltb a b ≡ false → b ≤ a
ltb_false→le a b h = ground arith

pub to_u64_lem : (n : ℕ) → n < 2 ^ 64 → to_u64 n ≡ n
to_u64_lem n h = rw (lt→ltb n (2 ^ 64) h)

pub le→ltb_false : (a b : ℕ) → b ≤ a → ltb a b ≡ false
le→ltb_false a b h = ground arith
