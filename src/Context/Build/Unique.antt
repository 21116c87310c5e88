-- ===== src/Context/Build/Unique.antt =====
-- The winners have pairwise different contents, and each beats every candidate of its content.
use mathlib.Core.Option.{some-injective}
use token_shrinker.Prelude.{
  ℕ, ◌≡◌, refl, sym, ◌∙◌, ◌≤◌, List, [], ◌∷◌, All, sum_of, arith, if◌then◌else◌, some, ap,
}
use token_shrinker.Prelude.Bytes.{Bytes, eq_bytes, eq_bytes_iff}
use token_shrinker.Prelude.Order.{Le, cmp_bytes-IsOrder}
use token_shrinker.Prelude.Map.{get, get-All, values, IsMap, Above}
use token_shrinker.Context.Build.{Entry, Winners, rank}
use token_shrinker.Context.Build.Winners.{key, Covered}

-- 1 for an entry with that content.
abbrev pub copy : Bytes → Entry → ℕ
copy h e = if eq_bytes (key e) h then 1 else 0

abbrev pub IsKeyed : Bytes × Entry → Type 0
IsKeyed (k, e) = key e ≡ k

copies-Above :
    (h : Bytes) (winners : Winners)
    → All IsKeyed winners
    → All (Above h) winners
    → sum_of (copy h) (values winners) ≡ 0
copies-Above h [] a b = refl
copies-Above h ((k, e) ∷ winners) (p, a) (q, b) =
    ground (arith, copies-Above h winners a b, eq_bytes_iff (key e) h, cmp_bytes-IsOrder.cmp_refl h)

-- No content has two winners.
pub copies-values :
    (h : Bytes) (winners : Winners)
    → IsMap winners
    → All IsKeyed winners
    → sum_of (copy h) (values winners) ≤ 1
copies-values h [] s a = omega arith
copies-values h ((k, e) ∷ winners) (low, s) (p, a) =
    ground
      (arith, copies-values h winners s a, copies-Above k winners a low, eq_bytes_iff (key e) h)

-- The winner of a content, and a candidate that ranks no better if it has the same content.
abbrev pub Best : Entry → Entry → Type 0
Best w e = key e ≡ key w → Le rank w e

Best-of_get :
    (winners : Winners) (k : Bytes) (w : Entry) (es : List Entry)
    → key w ≡ k
    → get k winners ≡ some w
    → All (Covered winners) es
    → All (Best w) es
Best-of_get winners k w [] same found c = tt
Best-of_get winners k w (e ∷ es) same found ((v, held, le), c) = (
  λ h.
      let v_is_w : v ≡ w =
        some-injective v w (sym held ∙ (ap (λ x. get x winners) (h ∙ same) ∙ found)) in
      rw v_is_w at le,
  Best-of_get winners k w es same found c,
)

Best-values :
    (winners : Winners) (rest : Winners) (es : List Entry)
    → All (Covered winners) es
    → All IsKeyed rest
    → All (λ x. get x.0 winners ≡ some x.1) rest
    → All (λ w. All (Best w) es) (values rest)
Best-values winners [] es c a g = tt
Best-values winners ((k, w) ∷ rest) es c (p, a) (q, g) =
    (Best-of_get winners k w es p q c, Best-values winners rest es c a g)

-- Each winner ranks no worse than every candidate with its content.
pub values-Best :
    (winners : Winners) (es : List Entry)
    → IsMap winners
    → All IsKeyed winners
    → All (Covered winners) es
    → All (λ w. All (Best w) es) (values winners)
values-Best winners es s a c = Best-values winners winners es c a (get-All winners s)
