-- ===== src/Prelude/Decimal.antt =====
-- The decimal text of a number, as `u32::to_string` writes it, and reading it back.
use Prim.Native.Nat.{ℕ, zero, suc, ◌+◌, ◌*◌, ◌/◌, ◌%◌, ◌≤◌, ◌<◌}
use mathlib.Core.Path.{◌≡◌, refl, ◌∙◌}
use mathlib.Core.List.{[], ◌∷◌, ◌++◌}
use mathlib.Core.Logic.{◌≢◌, inl, inr}
use mathlib.Core.Option.{some}
use native.Mathlib.Omega.{arith}
use token_shrinker.Prelude.Tests.{ltb, if◌then◌else◌, Bool-cases, ltb→lt}
use token_shrinker.Prelude.Lists.{All, All-append, length, length-append}
use token_shrinker.Prelude.Words.{u32_max, ltb_false→le}
use token_shrinker.Prelude.Bytes.{Bytes}
use token_shrinker.Prelude.Pieces.{append_assoc, append_nil}
use token_shrinker.Prelude.Numerals.{digits_u32, parse_u32}

-- The digits of a number, in as many turns at most. More turns than the number are enough.
unfoldable pub digits : ℕ → ℕ → Bytes
digits zero n = []
digits (suc turns) n =
    let rest = digits turns (n / 10) ++ ((b'0' + n % 10) ∷ []) in
    if ltb n 10 then (b'0' + n) ∷ [] else rest

unfoldable pub decimal : ℕ → Bytes
unfolding digits
decimal n = digits (suc n) n

abbrev pub IsDigit : ℕ → Type 0
IsDigit b = (b'0' ≤ b) × (b ≤ b'9')

All-digits : (turns n : ℕ) → All IsDigit (digits turns n)
unfolding digits
All-digits zero n = tt
All-digits (suc turns) n = elim (Bool-cases (ltb n 10)) [
  | inl e ↦ rw e ((omega arith, omega (arith, ltb→lt n 10 e)), tt)
  | inr e ↦ rw e (
      All-append IsDigit (digits turns (n / 10)) ((b'0' + n % 10) ∷ []) (All-digits turns (n / 10))
        ((omega arith, omega arith), tt))
]

pub All-decimal : (n : ℕ) → All IsDigit (decimal n)
unfolding decimal
All-decimal n = All-digits (suc n) n

-- Reading the digits of a number goes on from the number.
digits_u32-digits :
    (turns n : ℕ) (rest : Bytes)
    → n < turns
    → n ≤ u32_max
    → digits_u32 0 (digits turns n ++ rest) ≡ digits_u32 n rest
unfolding digits digits_u32
digits_u32-digits zero n rest h b = absurd (omega arith)
digits_u32-digits (suc turns) n rest h b = elim (Bool-cases (ltb n 10)) [
  | inl e ↦ rw e (ground (arith, ltb→lt n 10 e))
  | inr e ↦
      rw
        (
          e,
          append_assoc (digits turns (n / 10)) ((b'0' + n % 10) ∷ []) rest,
          digits_u32-digits turns (n / 10) ((b'0' + n % 10) ∷ rest)
              (omega (arith, ltb_false→le n 10 e)) (omega arith),
        )
        (ground (arith))
]

digits-ne-nil : (turns n : ℕ) → n < turns → digits turns n ≢ []
unfolding digits
digits-ne-nil zero n h = absurd (omega arith)
digits-ne-nil (suc turns) n h = elim (Bool-cases (ltb n 10)) [
  | inl e ↦ rw e (λ p. cc)
  | inr e ↦ rw e (not_snoc (digits turns (n / 10)))
]
  where
    not_snoc : (xs : Bytes) → (xs ++ ((b'0' + n % 10) ∷ [])) ≢ []
    not_snoc [] p = cc
    not_snoc (x ∷ xs) p = cc

-- A text of digits has no sign, so all of it is read as digits.
parse_u32-digits :
    (text : Bytes) → text ≢ [] → All IsDigit text → parse_u32 text ≡ digits_u32 0 text
unfolding parse_u32
parse_u32-digits [] n a = absurd (n refl)
parse_u32-digits (b ∷ []) n a = refl
parse_u32-digits (b ∷ c ∷ bs) n (d, a) = ground arith

-- Reading the decimal text of a number of 32 bits gives the number.
pub parse_u32-decimal : (n : ℕ) → n ≤ u32_max → parse_u32 (decimal n) ≡ some n
unfolding decimal digits_u32
parse_u32-decimal n h =
    parse_u32-digits (decimal n) (digits-ne-nil (suc n) n (omega arith)) (All-decimal n)
    ∙ nothing_follows (digits (suc n) n) (digits_u32-digits (suc n) n [] (omega arith) h)
  where
    nothing_follows :
        (xs : Bytes) → digits_u32 0 (xs ++ []) ≡ digits_u32 n [] → digits_u32 0 xs ≡ some n
    nothing_follows xs g = rw (append_nil xs) at g

-- `10 ^ k`
power_of_ten : ℕ → ℕ
power_of_ten zero = 1
power_of_ten (suc k) = 10 * power_of_ten k

length-digits : (k turns n : ℕ) → n < power_of_ten (suc k) → length (digits turns n) ≤ suc k
unfolding digits power_of_ten
length-digits k zero n h = omega arith
length-digits zero (suc turns) n h = elim (Bool-cases (ltb n 10)) [
  | inl e ↦ rw e (omega arith)
  | inr e ↦ absurd (omega (arith, ltb_false→le n 10 e))
]
length-digits (suc k) (suc turns) n h = elim (Bool-cases (ltb n 10)) [
  | inl e ↦ rw e (omega arith)
  | inr e ↦ rw e (
      omega (
        arith,
        length-digits k turns (n / 10) (omega arith),
        length-append (digits turns (n / 10)) ((b'0' + n % 10) ∷ []),
      ))
]

-- A number of 32 bits has ten digits at most.
pub length-decimal : (n : ℕ) → n ≤ u32_max → length (decimal n) ≤ 10
unfolding decimal power_of_ten
length-decimal n h = length-digits 9 (suc n) n (omega arith)
