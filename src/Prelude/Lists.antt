-- ===== src/Prelude/Lists.antt =====
-- Lists measured and indexed by native numbers, under the library's names.
use Prim.Native.Nat.{ℕ, zero, suc, ◌+◌, ◌-◌, min}
use mathlib.Core.Path.{◌≡◌, refl, ap}
use mathlib.Core.Logic.{◌⊎◌, inl, inr}
use mathlib.Core.Bool.{Bool, true, false, ◌&&◌, ◌||◌}
use mathlib.Core.List.{List, [], ◌∷◌, ◌++◌, map}
use mathlib.Core.Option.{Option, none, some}
use native.Mathlib.Omega.{arith}
use token_shrinker.Prelude.Tests.{◌==◌, if◌then◌else◌}

module _ {ℓ} {A : Type ℓ} where
  abbrev pub length : List A → ℕ
  length [] = 0
  length (x ∷ xs) = suc (length xs)

  abbrev pub get_elem? : List A → ℕ → Option A
  get_elem? [] i = none
  get_elem? (x ∷ xs) zero = some x
  get_elem? (x ∷ xs) (suc i) = get_elem? xs i

  abbrev pub take : ℕ → List A → List A
  take zero xs = []
  take (suc n) [] = []
  take (suc n) (x ∷ xs) = x ∷ take n xs

  abbrev pub drop : ℕ → List A → List A
  drop zero xs = xs
  drop (suc n) [] = []
  drop (suc n) (x ∷ xs) = drop n xs

  -- `iter().any(p)` and `iter().all(p)`
  abbrev pub any : (A → Bool) → List A → Bool
  any p [] = false
  any p (x ∷ xs) = p x || any p xs

  abbrev pub all : (A → Bool) → List A → Bool
  all p [] = true
  all p (x ∷ xs) = p x && all p xs

  -- `iter().filter(p)`
  abbrev pub filter : (A → Bool) → List A → List A
  filter p [] = []
  filter p (x ∷ xs) = let rest = filter p xs in if p x then x ∷ rest else rest

  -- `iter().sum()` of a measure
  abbrev pub sum_of : (A → ℕ) → List A → ℕ
  sum_of f [] = 0
  sum_of f (x ∷ xs) = f x + sum_of f xs

  -- The predicate at every element.
  abbrev pub All {κ} : (A → Type κ) → List A → Type κ
  All P [] = Unit
  All P (x ∷ xs) = P x × All P xs

  -- `iter().enumerate()`, counting from `i`.
  abbrev pub enumerate_from : ℕ → List A → List (ℕ × A)
  enumerate_from i [] = []
  enumerate_from i (x ∷ xs) = (i, x) ∷ enumerate_from (suc i) xs

  pub length-append : (xs ys : List A) → length (xs ++ ys) ≡ length xs + length ys
  length-append [] ys = omega arith
  length-append (x ∷ xs) ys = omega (arith, length-append xs ys)

  pub sum_of-append : (f : A → ℕ) (xs ys : List A) → sum_of f (xs ++ ys) ≡ sum_of f xs + sum_of f ys
  sum_of-append f [] ys = omega arith
  sum_of-append f (x ∷ xs) ys = omega (arith, sum_of-append f xs ys)

  pub length-take : (n : ℕ) (xs : List A) → length (take n xs) ≡ min n (length xs)
  length-take zero xs = omega arith
  length-take (suc n) [] = omega arith
  length-take (suc n) (x ∷ xs) = omega (arith, length-take n xs)

  pub length-drop : (n : ℕ) (xs : List A) → length (drop n xs) ≡ length xs - n
  length-drop zero xs = omega arith
  length-drop (suc n) [] = omega arith
  length-drop (suc n) (x ∷ xs) = omega (arith, length-drop n xs)

  pub take-append-drop : (n : ℕ) (xs : List A) → take n xs ++ drop n xs ≡ xs
  take-append-drop zero xs = refl
  take-append-drop (suc n) [] = refl
  take-append-drop (suc n) (x ∷ xs) = rw (take-append-drop n xs)

  pub All-append {κ} : (P : A → Type κ) (xs ys : List A) → All P xs → All P ys → All P (xs ++ ys)
  All-append P [] ys a b = b
  All-append P (x ∷ xs) ys (p, a) b = (p, All-append P xs ys a b)

  pub All-imp {κ μ} :
      (P : A → Type κ) (Q : A → Type μ)
      → ((x : A) → P x → Q x)
      → (xs : List A) → All P xs
      → All Q xs
  All-imp P Q f [] a = tt
  All-imp P Q f (x ∷ xs) (p, a) = (f x p, All-imp P Q f xs a)

module _ {ℓ κ} {A : Type ℓ} {B : Type κ} where
  pub length-map : (f : A → B) (xs : List A) → length (map f xs) ≡ length xs
  length-map f [] = refl
  length-map f (x ∷ xs) = ap suc (length-map f xs)

module _ {ℓ} {A : Type ℓ} where
  pub length-enumerate_from : (i : ℕ) (xs : List A) → length (enumerate_from i xs) ≡ length xs
  length-enumerate_from i [] = refl
  length-enumerate_from i (x ∷ xs) = omega (arith, length-enumerate_from (suc i) xs)

module _ {ℓ} {A : Type ℓ} where
  -- The pair is an element of the list with its index, counted from `i`.
  abbrev pub IsAt : ℕ → List A → ℕ × A → Type ℓ
  IsAt i xs e = (k : ℕ) × (e.0 ≡ i + k) × (get_elem? xs k ≡ some e.1)

  IsAt-cons : (i : ℕ) (x : A) (xs : List A) (e : ℕ × A) → IsAt (suc i) xs e → IsAt i (x ∷ xs) e
  IsAt-cons i x xs e (k, p, q) = (suc k, omega arith, q)

  -- `enumerate` pairs every element with its own index.
  pub All-enumerate_from : (i : ℕ) (xs : List A) → All (IsAt i xs) (enumerate_from i xs)
  All-enumerate_from i [] = tt
  All-enumerate_from i (x ∷ xs) = (
    (0, omega arith, refl),
    All-imp (IsAt (suc i) xs) (IsAt i (x ∷ xs)) (IsAt-cons i x xs) (enumerate_from (suc i) xs)
        (All-enumerate_from (suc i) xs),
  )

-- How often a number occurs in a list.
abbrev pub occurrences : ℕ → List ℕ → ℕ
occurrences n = sum_of (λ m. if m == n then 1 else 0)

-- The element stands in the list.
abbrev pub Within : {A : Type 0} → A → List A → Type 0
Within a [] = ⊥
Within a (x ∷ xs) = (a ≡ x) ⊎ Within a xs

pub Within-append_left : {A : Type 0} (a : A) (xs ys : List A) → Within a xs → Within a (xs ++ ys)
Within-append_left a [] ys w = absurd w
Within-append_left a (x ∷ xs) ys (inl e) = inl e
Within-append_left a (x ∷ xs) ys (inr w) = inr (Within-append_left a xs ys w)

pub Within-snoc : {A : Type 0} (a : A) (xs : List A) → Within a (xs ++ (a ∷ []))
Within-snoc a [] = inl refl
Within-snoc a (x ∷ xs) = inr (Within-snoc a xs)

pub sum_of-one {ℓ} : {A : Type ℓ} (xs : List A) → sum_of (λ (x : A). 1) xs ≡ length xs
sum_of-one [] = refl
sum_of-one (x ∷ xs) = omega (arith, sum_of-one xs)

-- The chunks, one after the other.
abbrev pub concat {ℓ} : {A : Type ℓ} → List (List A) → List A
concat [] = []
concat (xs ∷ xss) = xs ++ concat xss
