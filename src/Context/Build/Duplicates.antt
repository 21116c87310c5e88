-- ===== src/Context/Build/Duplicates.antt =====
-- The second loop: it never misses a key, and with the winners it accounts for every candidate.
use Prim.Native.Nat.Ordering.{eq, gt}
use mathlib.Core.Option
use token_shrinker.Prelude.{
  ℕ, ◌+◌, ◌≡◌, refl, ◌∙◌, ap, ◌≢◌, Option, none, some, List, [], ◌∷◌, All, arith, if◌then◌else◌,
  ◌==◌, enumerate_from, sum_of, Ordering, bind-eq-some, Bool-cases, inl, inr,
}
use mathlib.Core.Path.{fun_ext}
use token_shrinker.Prelude.Bytes.{Bytes}
use token_shrinker.Prelude.Order.{cmp_bytes, cmp_bytes-IsOrder}
use token_shrinker.Prelude.Map.{get, values, IsMap, Above}
use token_shrinker.Prelude.Sums.{sum_of-index, sum_of-swap}
use token_shrinker.Context.Candidate.{ContextCandidate}
use token_shrinker.Context.Bundle.{Omission, duplicate}
use token_shrinker.Context.Build.{Entry, Winners, duplicates, omit_duplicate}
use token_shrinker.Context.Build.Winners.{key, Covered, IsEntry}

omit_duplicate_total :
    (e w : Entry) (rest : List Omission)
    → (omissions : List Omission) × (omit_duplicate e (some w) rest ≡ some omissions)
omit_duplicate_total e w rest = elim (Bool-cases (w.0 == e.0)) [
  | inl kept ↦ (rest, rw kept)
  | inr lost ↦
      (record { source_id = e.1.source_id; reason = duplicate w.1.source_id } ∷ rest, rw lost)
]

-- A loop over covered candidates finds every key.
pub duplicates_total :
    (winners : Winners) (es : List Entry)
    → All (Covered winners) es
    → (omissions : List Omission) × (duplicates winners es ≡ some omissions)
unfolding duplicates Option.bind
duplicates_total winners [] c = ([], refl)
duplicates_total winners (e ∷ es) ((w, held, best), c) =
    let (rest, found) = duplicates_total winners es c in
    rw (found, held, Option.bind) (omit_duplicate_total e w rest)

-- A weight on source handles, to count them with.
module _ (weight : Bytes → ℕ) where
  abbrev pub entry_weight : Entry → ℕ
  entry_weight e = weight e.1.source_id.value

  abbrev pub omission_weight : Omission → ℕ
  omission_weight o = weight o.source_id.value

  -- What a candidate contributes as the winner of its content.
  kept_weight : Entry → Option Entry → ℕ
  kept_weight e none = 0
  kept_weight e (some w) = if w.0 == e.0 then entry_weight e else 0

  omit_duplicate_weight :
      (e : Entry) (o : Option Entry) (rest omissions : List Omission)
      → omit_duplicate e o rest ≡ some omissions
      → entry_weight e + sum_of omission_weight rest
        ≡ kept_weight e o + sum_of omission_weight omissions
  unfolding kept_weight
  omit_duplicate_weight e none rest omissions h = cc
  omit_duplicate_weight e (some w) rest omissions h = ground arith

  duplicates_weight :
      (winners : Winners) (es : List Entry) (omissions : List Omission)
      → duplicates winners es ≡ some omissions
      → sum_of entry_weight es
        ≡ sum_of (λ e. kept_weight e (get (key e) winners)) es + sum_of omission_weight omissions
  unfolding duplicates
  duplicates_weight winners [] om h = ground arith
  duplicates_weight winners (e ∷ es) om h =
      let (rest, found, made) =
        bind-eq-some (duplicates winners es) (omit_duplicate e (get (key e) winners)) h in
      omega (
        arith,
        omit_duplicate_weight e (get (key e) winners) rest om made,
        duplicates_weight winners es rest found,
      )

  under : Ordering → Entry → ℕ
  under eq e = entry_weight e
  under _ e = 0

  -- What a candidate contributes at one entry of the map.
  hit : Bytes × Entry → Entry → ℕ
  unfolding under
  hit x e = if x.1.0 == e.0 then under (cmp_bytes (key e) x.0) e else 0

  hit-Above :
      (e : Entry) (k : Bytes) (winners : Winners)
      → cmp_bytes (key e) k ≢ gt
      → All (Above k) winners
      → sum_of (λ x. hit x e) winners ≡ 0
  unfolding hit
  hit-Above e k [] h a = refl
  hit-Above e k (x ∷ winners) h (p, a) = ground (
    arith,
    hit-Above e k winners h a,
    cmp_bytes-IsOrder.lt_trans (key e) k x.0,
    cmp_bytes-IsOrder.eq_lt (key e) k x.0,
  )

  kept_weight_sum :
      (e : Entry) (winners : Winners)
      → IsMap winners
      → kept_weight e (get (key e) winners) ≡ sum_of (λ x. hit x e) winners
  unfolding get kept_weight hit
  kept_weight_sum e [] s = refl
  kept_weight_sum e ((k, w) ∷ winners) (low, s) =
      ground (arith, hit-Above e k winners, kept_weight_sum e winners s)

  module _ (candidates : List ContextCandidate) where
    -- Each winner is hit by one candidate, itself.
    hit_once :
        (x : Bytes × Entry)
        → IsEntry candidates x
        → sum_of (hit x) (enumerate_from 0 candidates) ≡ entry_weight x.1
    unfolding hit under
    hit_once (k, (n, c)) (same, at) =
        sum_of-index (λ e. under (cmp_bytes (key e) k) e) n 0 candidates c at
        ∙ rw (same, cmp_bytes-IsOrder.cmp_refl k, under)

    hits :
        (winners : Winners)
        → All (IsEntry candidates) winners
        → sum_of (λ x. sum_of (hit x) (enumerate_from 0 candidates)) winners
          ≡ sum_of entry_weight (values winners)
    hits [] a = refl
    hits (x ∷ winners) (p, a) = omega (arith, hit_once x p, hits winners a)

    -- Every candidate is counted once: as a winner, or as a duplicate.
    pub duplicates-values :
        (winners : Winners) (omissions : List Omission)
        → IsMap winners
        → All (IsEntry candidates) winners
        → duplicates winners (enumerate_from 0 candidates) ≡ some omissions
        → sum_of entry_weight (enumerate_from 0 candidates)
          ≡ sum_of entry_weight (values winners) + sum_of omission_weight omissions
    duplicates-values winners omissions s a found =
        let es = enumerate_from 0 candidates in
        let kept : (λ (e : Entry). kept_weight e (get (key e) winners))
            ≡ (λ e. sum_of (λ x. hit x e) winners) =
          fun_ext (λ e. kept_weight_sum e winners s) in
        omega (
          arith,
          duplicates_weight winners es omissions found,
          ap (λ (f : Entry → ℕ). sum_of f es) kept,
          sum_of-swap (λ e x. hit x e) es winners,
          hits winners a,
        )
