-- ===== src/Prelude/BigEndian.antt =====
-- `to_be_bytes` and `from_be_bytes` of the unsigned integers, at any width.
use Prim.Native.Nat.{ℕ, zero, suc, ◌+◌, ◌*◌, ◌/◌, ◌%◌, ◌^◌, ◌<◌}
use mathlib.Core.Path.{◌≡◌, refl, ap}
use mathlib.Core.List.{List, [], ◌∷◌, ◌++◌}
use native.Mathlib.Omega.{arith}
use token_shrinker.Prelude.Lists.{length, length-append}
use token_shrinker.Prelude.Bytes.{Bytes}

-- `n.to_be_bytes()` for an integer of `k` bytes: the most significant byte first.
unfoldable pub to_be_bytes : ℕ → ℕ → Bytes
to_be_bytes zero n = []
to_be_bytes (suc k) n = to_be_bytes k (n / 256) ++ (n % 256 ∷ [])

unfoldable pub from_be_onto : ℕ → Bytes → ℕ
from_be_onto acc [] = acc
from_be_onto acc (b ∷ bs) = from_be_onto (acc * 256 + b) bs

-- `from_be_bytes`
unfoldable pub from_be_bytes : Bytes → ℕ
unfolding from_be_onto
from_be_bytes = from_be_onto 0

-- The number is one of `k` bytes.
abbrev pub Fits : ℕ → ℕ → Type 0
Fits zero n = n ≡ 0
Fits (suc k) n = Fits k (n / 256)

pub Fits-u32 : (n : ℕ) → n < 2 ^ 32 → Fits 4 n
Fits-u32 n h = omega arith

pub Fits-u64 : (n : ℕ) → n < 2 ^ 64 → Fits 8 n
Fits-u64 n h = omega arith

pub length-to_be_bytes : (k n : ℕ) → length (to_be_bytes k n) ≡ k
unfolding to_be_bytes
length-to_be_bytes zero n = refl
length-to_be_bytes (suc k) n =
    omega (
      arith,
      length-append (to_be_bytes k (n / 256)) (n % 256 ∷ []),
      length-to_be_bytes k (n / 256),
    )

from_be_onto-append :
    (acc : ℕ) (xs ys : Bytes) → from_be_onto acc (xs ++ ys) ≡ from_be_onto (from_be_onto acc xs) ys
unfolding from_be_onto
from_be_onto-append acc [] ys = refl
from_be_onto-append acc (x ∷ xs) ys = from_be_onto-append (acc * 256 + x) xs ys

-- Reading back what was written gives the number.
pub from_be_bytes-to_be_bytes : (k n : ℕ) → Fits k n → from_be_bytes (to_be_bytes k n) ≡ n
unfolding from_be_bytes to_be_bytes
from_be_bytes-to_be_bytes zero n h = omega arith
from_be_bytes-to_be_bytes (suc k) n h = omega (
  arith,
  from_be_onto-append 0 (to_be_bytes k (n / 256)) (n % 256 ∷ []),
  from_be_bytes-to_be_bytes k (n / 256) h,
)

pub to_be_bytes_injective :
    (k m n : ℕ) → Fits k m → Fits k n → to_be_bytes k m ≡ to_be_bytes k n → m ≡ n
to_be_bytes_injective k m n p q e =
    omega
      (arith, from_be_bytes-to_be_bytes k m p, from_be_bytes-to_be_bytes k n q, ap from_be_bytes e)

-- Two texts that begin with pieces of one length agree piece by piece.
pub append_split {ℓ} :
    {A : Type ℓ} (xs ys r s : List A)
    → length xs ≡ length ys
    → xs ++ r ≡ ys ++ s
    → (xs ≡ ys) × (r ≡ s)
append_split [] [] r s h e = (refl, e)
append_split [] (y ∷ ys) r s h e = absurd (omega arith)
append_split (x ∷ xs) [] r s h e = absurd (omega arith)
append_split (x ∷ xs) (y ∷ ys) r s h e = ground (arith, append_split xs ys r s)
