-- ===== src/Prelude/Integers.antt =====
-- The signed integers over the native numbers, under the library's names, and their order.
use Prim.Native.Nat.{ℕ, compare, Ordering}
use Prim.Native.Nat.Ordering.{lt, eq, gt}
use mathlib.Core.Path.{◌≡◌}
use mathlib.Core.Bool.{Bool, true, false}
use native.Mathlib.Omega.{arith}
use token_shrinker.Prelude.Order.{IsPreorder, IsOrder}

pub data ℤ : Type 0 where
  pos negsuc : ℕ → ℤ

abbrev pub compare_int : ℤ → ℤ → Ordering
compare_int (pos a) (pos b) = compare a b
compare_int (pos a) (negsuc b) = gt
compare_int (negsuc a) (pos b) = lt
compare_int (negsuc a) (negsuc b) = compare b a

abbrev pub leb_int : ℤ → ℤ → Bool
leb_int a b = elim (compare_int a b) [ gt ↦ false | _ ↦ true ]

pub leb_int_trans : (a b c : ℤ) → leb_int a b ≡ true → leb_int b c ≡ true → leb_int a c ≡ true
leb_int_trans (pos a) (pos b) (pos c) p q = ground arith
leb_int_trans (pos a) (pos b) (negsuc c) p q = cc
leb_int_trans (pos a) (negsuc b) c p q = cc
leb_int_trans (negsuc a) (pos b) (pos c) p q = ground arith
leb_int_trans (negsuc a) (pos b) (negsuc c) p q = cc
leb_int_trans (negsuc a) (negsuc b) (pos c) p q = ground arith
leb_int_trans (negsuc a) (negsuc b) (negsuc c) p q = ground arith

flip : (a b : ℤ) → compare_int b a ≡ token_shrinker.Prelude.Order.reverse (compare_int a b)
flip (pos a) (pos b) = ground arith
flip (pos a) (negsuc b) = ground arith
flip (negsuc a) (pos b) = ground arith
flip (negsuc a) (negsuc b) = ground arith

eq_of_compare_int : (a b : ℤ) → compare_int a b ≡ eq → a ≡ b
eq_of_compare_int (pos a) (pos b) h = ground arith
eq_of_compare_int (pos a) (negsuc b) h = cc
eq_of_compare_int (negsuc a) (pos b) h = cc
eq_of_compare_int (negsuc a) (negsuc b) h = ground arith

compare_int_refl : (a : ℤ) → compare_int a a ≡ eq
compare_int_refl (pos a) = ground arith
compare_int_refl (negsuc a) = ground arith

compare_int-lt_trans :
    (a b c : ℤ) → compare_int a b ≡ lt → compare_int b c ≡ lt → compare_int a c ≡ lt
compare_int-lt_trans (pos a) (pos b) (pos c) p q = ground arith
compare_int-lt_trans (pos a) (pos b) (negsuc c) p q = cc
compare_int-lt_trans (pos a) (negsuc b) c p q = cc
compare_int-lt_trans (negsuc a) (pos b) (pos c) p q = ground arith
compare_int-lt_trans (negsuc a) (pos b) (negsuc c) p q = cc
compare_int-lt_trans (negsuc a) (negsuc b) (pos c) p q = ground arith
compare_int-lt_trans (negsuc a) (negsuc b) (negsuc c) p q = ground arith

pub compare_int-IsOrder : IsOrder compare_int
compare_int-IsOrder = record {
  preorder = record {
    flip = flip;
    lt_trans = compare_int-lt_trans;
    eq_lt = λ a b c p q. rw (eq_of_compare_int a b p) q;
    lt_eq = λ a b c p q. rw (← eq_of_compare_int b c q) p;
    eq_trans = λ a b c p q. rw (eq_of_compare_int a b p) q;
  };
  cmp_refl = compare_int_refl;
  eq_of_cmp = eq_of_compare_int;
}
