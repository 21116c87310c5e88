-- ===== src/Prelude/Sums.antt =====
-- Finite sums over lists: one entry of an enumeration, and double sums.
use Prim.Native.Nat.{ℕ, zero, suc, ◌+◌, ◌<◌}
use mathlib.Core.Path.{◌≡◌, refl, sym}
use mathlib.Core.List.{List, [], ◌∷◌}
use native.Mathlib.Omega.{arith}
use token_shrinker.Prelude.Tests.{◌==◌, if◌then◌else◌}
use token_shrinker.Prelude.Lists.{sum_of, enumerate_from, IsAt}

module _ {ℓ} {A : Type ℓ} (f : ℕ × A → ℕ) (n : ℕ) where
  -- The entry of an enumeration with index `n` contributes alone.
  sum_of-index_below :
      (i : ℕ) (xs : List A)
      → n < i
      → sum_of (λ (e : ℕ × A). if n == e.0 then f e else 0) (enumerate_from i xs) ≡ 0
  sum_of-index_below i [] h = refl
  sum_of-index_below i (x ∷ xs) h = ground (arith, sum_of-index_below (suc i) xs)

  pub sum_of-index :
      (i : ℕ) (xs : List A) (a : A)
      → IsAt i xs (n, a)
      → sum_of (λ (e : ℕ × A). if n == e.0 then f e else 0) (enumerate_from i xs) ≡ f (n, a)
  sum_of-index i [] a (k, p, q) = cc
  sum_of-index i (x ∷ xs) a (zero, p, q) = ground (arith, sum_of-index_below (suc i) xs)
  sum_of-index i (x ∷ xs) a (suc k, p, q) =
      ground (arith, sum_of-index (suc i) xs a (k, omega arith, q))

module _ {ℓ} {A : Type ℓ} where
  sum_of-zero : (xs : List A) → sum_of (λ (x : A). 0) xs ≡ 0
  sum_of-zero [] = refl
  sum_of-zero (x ∷ xs) = omega (arith, sum_of-zero xs)

  sum_of-add : (f g : A → ℕ) (xs : List A) → sum_of (λ x. f x + g x) xs ≡ sum_of f xs + sum_of g xs
  sum_of-add f g [] = refl
  sum_of-add f g (x ∷ xs) = omega (arith, sum_of-add f g xs)

-- A double sum in either order.
pub sum_of-swap {ℓ κ} :
    {A : Type ℓ} {B : Type κ} (f : A → B → ℕ) (xs : List A) (ys : List B)
    → sum_of (λ x. sum_of (f x) ys) xs ≡ sum_of (λ y. sum_of (λ x. f x y) xs) ys
sum_of-swap f [] ys = sym (sum_of-zero ys)
sum_of-swap f (x ∷ xs) ys =
    rw (sum_of-swap f xs ys) (sym (sum_of-add (f x) (λ y. sum_of (λ a. f a y) xs) ys))
