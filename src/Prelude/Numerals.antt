-- ===== src/Prelude/Numerals.antt =====
-- `str::parse::<u32>`: a `+` at most, then decimal digits, within the width.
use Prim.Native.Nat.{ℕ, ◌+◌, ◌-◌, ◌*◌}
use mathlib.Core.List.{[], ◌∷◌}
use mathlib.Core.Option.{Option, none, some}
use token_shrinker.Prelude.Tests.{◌==◌, leb, if◌then◌else◌}
use token_shrinker.Prelude.Words.{u32_max}
use token_shrinker.Prelude.Bytes.{Bytes, is_ascii_digit}

-- The digits after those that make `acc`; an overflow or another byte is an error.
unfoldable pub digits_u32 : ℕ → Bytes → Option ℕ
digits_u32 acc [] = some acc
digits_u32 acc (b ∷ bs) =
    let next = acc * 10 + (b - b'0') in
    let rest = digits_u32 next bs in
    if is_ascii_digit b then if leb next u32_max then rest else none else none

unfoldable pub parse_u32 : Bytes → Option ℕ
unfolding digits_u32
parse_u32 [] = none
parse_u32 (b ∷ []) = digits_u32 0 (b ∷ [])
parse_u32 (b ∷ c ∷ bs) = if b == b'+' then digits_u32 0 (c ∷ bs) else digits_u32 0 (b ∷ c ∷ bs)
