-- ===== src/Prelude/Order.antt =====
-- `Ord`: a comparison with the laws that the trait asks of it, and the order of byte strings.
use Prim.Native.Nat.Ordering.{lt, eq, gt}
use mathlib.Core.Path.{◌≡◌, refl}
use mathlib.Core.Logic.{◌≢◌}
use mathlib.Core.List.{List, [], ◌∷◌}
use native.Mathlib.Omega.{arith}
use Prim.Native.Nat.{ℕ, compare, Ordering}

-- `Ordering::then_with`
abbrev pub then_with : Ordering → Ordering → Ordering
then_with eq second = second
then_with first _ = first

-- `Ordering::reverse`
abbrev pub reverse : Ordering → Ordering
reverse lt = gt
reverse eq = eq
reverse gt = lt

-- A lawful total preorder: `eq` need not mean equality.
pub record IsPreorder {ℓ} {A : Type ℓ} (cmp : A → A → Ordering) : Type ℓ where
  pub flip : (a b : A) → cmp b a ≡ reverse (cmp a b)
  pub lt_trans : (a b c : A) → cmp a b ≡ lt → cmp b c ≡ lt → cmp a c ≡ lt
  pub eq_lt : (a b c : A) → cmp a b ≡ eq → cmp b c ≡ lt → cmp a c ≡ lt
  pub lt_eq : (a b c : A) → cmp a b ≡ lt → cmp b c ≡ eq → cmp a c ≡ lt
  pub eq_trans : (a b c : A) → cmp a b ≡ eq → cmp b c ≡ eq → cmp a c ≡ eq

-- A total order: `eq` means equality.
pub record IsOrder {ℓ} {A : Type ℓ} (cmp : A → A → Ordering) : Type ℓ where
  pub preorder : IsPreorder cmp
  pub open preorder use *
  pub cmp_refl : (a : A) → cmp a a ≡ eq
  pub eq_of_cmp : (a b : A) → cmp a b ≡ eq → a ≡ b

pub compare-IsOrder : IsOrder compare
compare-IsOrder = ground arith

-- `Ord` of `[u8]` and of `str`: lexicographic.
unfoldable pub cmp_bytes : List ℕ → List ℕ → Ordering
cmp_bytes [] [] = eq
cmp_bytes [] (b ∷ y) = lt
cmp_bytes (a ∷ x) [] = gt
cmp_bytes (a ∷ x) (b ∷ y) = elim (compare a b) [ lt ↦ lt | eq ↦ cmp_bytes x y | gt ↦ gt ]

pub cmp_bytes_refl : (x : List ℕ) → cmp_bytes x x ≡ eq
unfolding cmp_bytes
cmp_bytes_refl [] = refl
cmp_bytes_refl (a ∷ x) = ground (arith, cmp_bytes_refl x)

pub eq_of_cmp_bytes : (x y : List ℕ) → cmp_bytes x y ≡ eq → x ≡ y
unfolding cmp_bytes
eq_of_cmp_bytes [] [] h = refl
eq_of_cmp_bytes [] (b ∷ y) h = cc
eq_of_cmp_bytes (a ∷ x) [] h = cc
eq_of_cmp_bytes (a ∷ x) (b ∷ y) h = ground (arith, eq_of_cmp_bytes x y)

cmp_bytes_flip : (x y : List ℕ) → cmp_bytes y x ≡ reverse (cmp_bytes x y)
unfolding cmp_bytes
cmp_bytes_flip [] [] = refl
cmp_bytes_flip [] (b ∷ y) = refl
cmp_bytes_flip (a ∷ x) [] = refl
cmp_bytes_flip (a ∷ x) (b ∷ y) = ground (arith, cmp_bytes_flip x y)

cmp_bytes-lt_trans : (x y z : List ℕ) → cmp_bytes x y ≡ lt → cmp_bytes y z ≡ lt → cmp_bytes x z ≡ lt
unfolding cmp_bytes
cmp_bytes-lt_trans [] [] z p q = cc
cmp_bytes-lt_trans [] (b ∷ y) [] p q = cc
cmp_bytes-lt_trans [] (b ∷ y) (c ∷ z) p q = refl
cmp_bytes-lt_trans (a ∷ x) [] z p q = cc
cmp_bytes-lt_trans (a ∷ x) (b ∷ y) [] p q = cc
cmp_bytes-lt_trans (a ∷ x) (b ∷ y) (c ∷ z) p q = ground (arith, cmp_bytes-lt_trans x y z)

pub cmp_bytes-IsOrder : IsOrder cmp_bytes
cmp_bytes-IsOrder = record {
  preorder = record {
    flip = cmp_bytes_flip;
    lt_trans = cmp_bytes-lt_trans;
    eq_lt = λ a b c p q. rw (eq_of_cmp_bytes a b p) q;
    lt_eq = λ a b c p q. rw (← eq_of_cmp_bytes b c q) p;
    eq_trans = λ a b c p q. rw (eq_of_cmp_bytes a b p) q;
  };
  cmp_refl = cmp_bytes_refl;
  eq_of_cmp = eq_of_cmp_bytes;
}

module _ {ℓ} {A : Type ℓ} (cmp : A → A → Ordering) where
  -- `a` may stand before `b`.
  abbrev pub Le : A → A → Type 0
  Le a b = cmp a b ≢ gt

  module _ (o : IsPreorder cmp) where
    pub le_of_gt : (a b : A) → cmp a b ≡ gt → Le b a
    le_of_gt a b h = ground (arith, o.flip a b)

    pub Le_trans : (a b c : A) → Le a b → Le b c → Le a c
    Le_trans a b c p q =
        ground (arith, o.lt_trans a b c, o.eq_lt a b c, o.lt_eq a b c, o.eq_trans a b c)
