-- ===== src/Prelude/Map.antt =====
-- `BTreeMap` with text keys: its entries in ascending order of the keys.
use Prim.Native.Nat.{Ordering}
use Prim.Native.Nat.Ordering.{lt, eq, gt}
use mathlib.Core.Path.{◌≡◌, refl}
use mathlib.Core.Logic.{◌⊎◌}
use mathlib.Core.Option.{Option, none, some, some-injective}
use mathlib.Core.List.{List, [], ◌∷◌}
use native.Mathlib.Omega.{arith}
use token_shrinker.Prelude.Bytes.{Bytes}
use token_shrinker.Prelude.Lists.{All}
use token_shrinker.Prelude.Order.{cmp_bytes, cmp_bytes-IsOrder}

module _ {ℓ} {V : Type ℓ} where
  -- `map.get(k)`
  unfoldable pub get : Bytes → List (Bytes × V) → Option V
  get k [] = none
  get k ((j, w) ∷ m) = elim (cmp_bytes k j) [ lt ↦ none | eq ↦ some w | gt ↦ get k m ]

  -- `map.entry(k).and_modify(f).or_insert(v)`
  unfoldable pub upsert : Bytes → (V → V) → V → List (Bytes × V) → List (Bytes × V)
  upsert k f v [] = (k, v) ∷ []
  upsert k f v ((j, w) ∷ m) = elim (cmp_bytes k j) [
    | lt ↦ (k, v) ∷ (j, w) ∷ m
    | eq ↦ (j, f w) ∷ m
    | gt ↦ (j, w) ∷ upsert k f v m
  ]

  -- `map.into_values()`
  abbrev pub values : List (Bytes × V) → List V
  values [] = []
  values ((j, w) ∷ m) = w ∷ values m

  abbrev pub Above : Bytes → Bytes × V → Type 0
  Above k e = cmp_bytes k e.0 ≡ lt

  -- The keys ascend strictly.
  abbrev pub IsMap : List (Bytes × V) → Type 0
  IsMap [] = Unit
  IsMap (e ∷ m) = All (Above e.0) m × IsMap m

  pub All-upsert {κ} :
      (P : Bytes × V → Type κ) (k : Bytes) (f : V → V) (v : V) (m : List (Bytes × V))
      → P (k, v)
      → ((j : Bytes) (w : V) → k ≡ j → P (j, w) → P (j, f w))
      → All P m
      → All P (upsert k f v m)
  unfolding upsert
  All-upsert P k f v [] p g a = (p, tt)
  All-upsert P k f v ((j, w) ∷ m) p g (q, a) =
      ground (arith, g j w, cmp_bytes-IsOrder.eq_of_cmp k j, All-upsert P k f v m p g a)

  Above-trans :
      (j k : Bytes) (m : List (Bytes × V)) → cmp_bytes j k ≡ lt → All (Above k) m → All (Above j) m
  Above-trans j k [] h a = tt
  Above-trans j k (e ∷ m) h (p, a) = (cmp_bytes-IsOrder.lt_trans j k e.0 h p, Above-trans j k m h a)

  All-Above-upsert :
      (j k : Bytes) (f : V → V) (v : V) (m : List (Bytes × V))
      → cmp_bytes j k ≡ lt
      → All (Above j) m
      → All (Above j) (upsert k f v m)
  All-Above-upsert j k f v m h a = All-upsert (Above j) k f v m h (λ i w e p. p) a

  pub upsert-IsMap :
      (k : Bytes) (f : V → V) (v : V) (m : List (Bytes × V)) → IsMap m → IsMap (upsert k f v m)
  unfolding upsert
  upsert-IsMap k f v [] s = (tt, tt)
  upsert-IsMap k f v ((j, w) ∷ m) (low, s) = ground (
    arith,
    cmp_bytes-IsOrder.flip k j,
    Above-trans k j m,
    All-Above-upsert j k f v m,
    upsert-IsMap k f v m s,
  )

  abbrev pub merged : (V → V) → V → Option V → V
  merged f v none = v
  merged f v (some w) = f w

  get-Above : (k : Bytes) (m : List (Bytes × V)) → All (Above k) m → get k m ≡ none
  unfolding get
  get-Above k [] a = refl
  get-Above k (e ∷ m) (p, a) = rw (p, get)

  -- What the map holds after `entry(k).and_modify(f).or_insert(v)`.
  pub get-upsert_self :
      (k : Bytes) (f : V → V) (v : V) (m : List (Bytes × V))
      → get k (upsert k f v m) ≡ some (merged f v (get k m))
  unfolding get upsert
  get-upsert_self k f v [] = rw (cmp_bytes-IsOrder.cmp_refl k, get)
  get-upsert_self k f v ((j, w) ∷ m) =
      ground (arith, cmp_bytes-IsOrder.cmp_refl k, get-upsert_self k f v m)

  pub get-upsert_ne :
      (k j : Bytes) (f : V → V) (v : V) (m : List (Bytes × V))
      → cmp_bytes j k ≡ lt ⊎ cmp_bytes j k ≡ gt
      → get j (upsert k f v m) ≡ get j m
  unfolding get upsert
  get-upsert_ne k j f v [] h = ground arith
  get-upsert_ne k j f v ((i, w) ∷ m) h = ground (
    arith,
    cmp_bytes-IsOrder.lt_trans j k i,
    cmp_bytes-IsOrder.eq_of_cmp k i,
    get-upsert_ne k j f v m h,
  )

  get-later :
      (k : Bytes) (m : List (Bytes × V)) (es : List (Bytes × V))
      → All (Above k) es
      → All (λ e. get e.0 m ≡ some e.1) es
      → (w : V) → All (λ e. get e.0 ((k, w) ∷ m) ≡ some e.1) es
  unfolding get
  get-later k m [] a b w = tt
  get-later k m (e ∷ es) (p, a) (q, b) w =
      (ground (arith, cmp_bytes-IsOrder.flip k e.0), get-later k m es a b w)

  -- Every entry of a map is found under its key.
  pub get-All : (m : List (Bytes × V)) → IsMap m → All (λ e. get e.0 m ≡ some e.1) m
  unfolding get
  get-All [] s = tt
  get-All ((k, w) ∷ m) (low, s) =
      (rw (cmp_bytes-IsOrder.cmp_refl k, get), get-later k m m low (get-All m s) w)

  found_at :
      (P : V → Type 0) (o : Ordering) (v w : V) (rest : Option V)
      → (elim o [ lt ↦ none | eq ↦ some v | gt ↦ rest ]) ≡ some w
      → P v
      → (rest ≡ some w → P w)
      → P w
  found_at P lt v w rest h p f = cc
  found_at P eq v w rest h p f = rw (some-injective v w h) at p
  found_at P gt v w rest h p f = f h

  -- What holds of every value holds of the one under a key.
  pub get-values :
      (P : V → Type 0) (k : Bytes) (w : V) (m : List (Bytes × V))
      → get k m ≡ some w
      → All P (values m)
      → P w
  unfolding get
  get-values P k w [] h a = cc
  get-values P k w ((j, v) ∷ m) h (p, a) =
      found_at P (cmp_bytes k j) v w (get k m) h p (λ found. get-values P k w m found a)

  entry_at :
      (P : Bytes × V → Type 0) (k j : Bytes) (o : Ordering) (v w : V) (rest : Option V)
      → cmp_bytes k j ≡ o
      → (elim o [ lt ↦ none | eq ↦ some v | gt ↦ rest ]) ≡ some w
      → P (j, v)
      → (rest ≡ some w → P (k, w))
      → P (k, w)
  entry_at P k j lt v w rest e h p f = cc
  entry_at P k j eq v w rest e h p f =
      rw (cmp_bytes-IsOrder.eq_of_cmp k j e, ← some-injective v w h) p
  entry_at P k j gt v w rest e h p f = f h

  -- What holds of every entry holds of the one under a key.
  pub get-entries :
      (P : Bytes × V → Type 0) (k : Bytes) (w : V) (m : List (Bytes × V))
      → get k m ≡ some w
      → All P m
      → P (k, w)
  unfolding get
  get-entries P k w [] h a = cc
  get-entries P k w ((j, v) ∷ m) h (p, a) =
      entry_at P k j (cmp_bytes k j) v w (get k m) refl h p (λ found. get-entries P k w m found a)
