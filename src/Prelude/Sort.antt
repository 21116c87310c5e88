-- ===== src/Prelude/Sort.antt =====
-- `sort_by`: a stable sort by a comparison, written as insertion, and its laws.
use Prim.Native.Nat.{ℕ, ◌+◌, Ordering}
use Prim.Native.Nat.Ordering.{lt, eq, gt}
use mathlib.Core.Path.{◌≡◌, refl}
use mathlib.Core.List.{List, [], ◌∷◌, ◌++◌, Perm}
use mathlib.Core.List.Perm
use native.Mathlib.Omega.{arith}
use token_shrinker.Prelude.Lists.{All, All-imp, All-append, sum_of}
use token_shrinker.Prelude.Order.{IsPreorder, Le, le_of_gt, Le_trans}

module _ {ℓ} {A : Type ℓ} (cmp : A → A → Ordering) where
  -- `x` goes before the first entry that it is not greater than.
  unfoldable pub insert_by : A → List A → List A
  insert_by x [] = x ∷ []
  insert_by x (y ∷ ys) = elim (cmp x y) [
    | lt ↦ x ∷ y ∷ ys
    | eq ↦ x ∷ y ∷ ys
    | gt ↦ y ∷ insert_by x ys
  ]

  unfoldable pub sort_by : List A → List A
  unfolding insert_by
  sort_by [] = []
  sort_by (x ∷ xs) = insert_by x (sort_by xs)

  -- Every entry may stand before all that follow it.
  abbrev pub IsSorted : List A → Type ℓ
  IsSorted [] = Unit
  IsSorted (x ∷ xs) = All (Le cmp x) xs × IsSorted xs

  All-insert_by {κ} :
      (P : A → Type κ) (x : A) (ys : List A) → P x → All P ys → All P (insert_by x ys)
  unfolding insert_by
  All-insert_by P x [] p a = (p, tt)
  All-insert_by P x (y ∷ ys) p (q, a) = ground (arith, All-insert_by P x ys p a)

  pub All-sort_by {κ} : (P : A → Type κ) (xs : List A) → All P xs → All P (sort_by xs)
  unfolding sort_by
  All-sort_by P [] a = tt
  All-sort_by P (x ∷ xs) (p, a) = All-insert_by P x (sort_by xs) p (All-sort_by P xs a)

  sum_of-insert_by :
      (f : A → ℕ) (x : A) (ys : List A) → sum_of f (insert_by x ys) ≡ f x + sum_of f ys
  unfolding insert_by
  sum_of-insert_by f x [] = refl
  sum_of-insert_by f x (y ∷ ys) = ground (arith, sum_of-insert_by f x ys)

  pub sum_of-sort_by : (f : A → ℕ) (xs : List A) → sum_of f (sort_by xs) ≡ sum_of f xs
  unfolding sort_by
  sum_of-sort_by f [] = refl
  sum_of-sort_by f (x ∷ xs) = ground (arith, sum_of-insert_by f x (sort_by xs), sum_of-sort_by f xs)

  insert_by-perm : (x : A) (ys : List A) → Perm (insert_by x ys) (x ∷ ys)
  unfolding insert_by
  insert_by-perm x [] = Perm.refl (x ∷ [])
  insert_by-perm x (y ∷ ys) =
      elim (cmp x y)
        as (λ c.
          Perm (elim c [ lt ↦ x ∷ y ∷ ys | eq ↦ x ∷ y ∷ ys | gt ↦ y ∷ insert_by x ys ])
            (x ∷ y ∷ ys)) [
              | lt ↦ Perm.refl (x ∷ y ∷ ys)
              | eq ↦ Perm.refl (x ∷ y ∷ ys)
              | gt ↦ Perm.trans (Perm.cons y (insert_by-perm x ys)) (Perm.swap x y ys)
            ]

  -- Sorting loses nothing and adds nothing.
  pub sort_by-perm : (xs : List A) → Perm (sort_by xs) xs
  unfolding sort_by
  sort_by-perm [] = Perm.refl []
  sort_by-perm (x ∷ xs) = Perm.trans (insert_by-perm x (sort_by xs)) (Perm.cons x (sort_by-perm xs))

  module _ (o : IsPreorder cmp) where
    All-Le_trans : (x y : A) (ys : List A) → Le cmp x y → All (Le cmp y) ys → All (Le cmp x) ys
    All-Le_trans x y ys h = All-imp (Le cmp y) (Le cmp x) (λ z. Le_trans cmp o x y z h) ys

    insert_by-IsSorted : (x : A) (ys : List A) → IsSorted ys → IsSorted (insert_by x ys)
    unfolding insert_by
    insert_by-IsSorted x [] s = (tt, tt)
    insert_by-IsSorted x (y ∷ ys) (low, s) = ground (
      arith,
      le_of_gt cmp o x y,
      insert_by-IsSorted x ys s,
      All-insert_by (Le cmp y) x ys,
      All-Le_trans x y ys,
    )

    -- The result is in the order of the comparison.
    pub sort_by-IsSorted : (xs : List A) → IsSorted (sort_by xs)
    unfolding sort_by
    sort_by-IsSorted [] = tt
    sort_by-IsSorted (x ∷ xs) = insert_by-IsSorted x (sort_by xs) (sort_by-IsSorted xs)

  pub IsSorted-snoc :
      (xs : List A) (y : A) → IsSorted xs → All (λ x. Le cmp x y) xs → IsSorted (xs ++ (y ∷ []))
  IsSorted-snoc [] y s a = (tt, tt)
  IsSorted-snoc (x ∷ xs) y (low, s) (p, a) =
      (All-append (Le cmp x) xs (y ∷ []) low (p, tt), IsSorted-snoc xs y s a)

  insert_by-All : (P : A → Type 0) (x : A) (ys : List A) → All P (insert_by x ys) → P x × All P ys
  unfolding insert_by
  insert_by-All P x [] a = a
  insert_by-All P x (y ∷ ys) a = ground (arith, insert_by-All P x ys)

  pub sort_by-All : (P : A → Type 0) (xs : List A) → All P (sort_by xs) → All P xs
  unfolding sort_by
  sort_by-All P [] a = tt
  sort_by-All P (x ∷ xs) a =
      let (p, rest) = insert_by-All P x (sort_by xs) a in (p, sort_by-All P xs rest)
