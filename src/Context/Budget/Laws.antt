-- ===== src/Context/Budget/Laws.antt =====
-- The selection under a budget: bounded, complete, and refusing only what does not fit.
use token_shrinker.Prelude.{
  ℕ, suc, ◌≡◌, refl, ◌+◌, ◌≤◌, ◌<◌, List, [], ◌∷◌, All, All-append, sum_of, sum_of-append, arith,
  Option, none, some, get_elem?, IsAt, All-enumerate_from, enumerate_from, occurrences, ltb, leb,
  if◌then◌else◌, ◌==◌, length, ap, ◌∙◌, Bool-cases, inl, inr, leb→le, leb_false→lt, saturating_add,
  saturating_add_fits, saturating_add_over, u32_max,
}
use token_shrinker.Prelude.Bytes.{Bytes}
use token_shrinker.Types.Count.{TokenBudget, IsNonZeroU32}
use token_shrinker.Context.Counter.{TokenCounter}
use token_shrinker.Context.Budget.{Progress, consider, select_loop, select_within_budget}

cost_of : TokenCounter → Option Bytes → ℕ
cost_of counter none = 0
cost_of counter (some c) = (counter.count c).tokens

-- The count of the candidate at an index.
unfoldable pub cost : TokenCounter → List Bytes → ℕ → ℕ
unfolding cost_of
cost counter candidates i = cost_of counter (get_elem? candidates i)

module _ (counter : TokenCounter) (candidates : List Bytes) (limit : ℕ) where
  -- What holds of the loop's variables.
  record IsSound (p : Progress) : Type 0 where
    total : p.used ≡ sum_of (cost counter candidates) p.selected
    bounded : p.used ≤ limit
    refused : All (λ i. limit < p.used + cost counter candidates i) p.omitted

  refused_later :
      (is : List ℕ) (a b : ℕ)
      → a ≤ b
      → All (λ i. limit < a + cost counter candidates i) is
      → All (λ i. limit < b + cost counter candidates i) is
  refused_later [] a b h x = tt
  refused_later (i ∷ is) a b h (p, x) = (omega arith, refused_later is a b h x)

  cost_at :
      (e : ℕ × Bytes)
      → IsAt 0 candidates e
      → cost counter candidates e.0 ≡ (counter.count e.1).tokens
  unfolding cost
  cost_at e (k, p, q) =
      let at : e.0 ≡ k = omega arith in ap (cost_of counter) (ap (get_elem? candidates) at ∙ q)

  consider-IsSound :
      (e : ℕ × Bytes) (p : Progress)
      → limit ≤ u32_max
      → IsAt 0 candidates e
      → IsSound p
      → IsSound (consider counter limit e p)
  unfolding consider
  consider-IsSound e p h at s =
      let c = (counter.count e.1).tokens in
      elim (Bool-cases (leb (saturating_add p.used c) limit)) [
        | inl yes_fits ↦
            let fits = saturating_add_fits p.used c limit h (leb→le _ _ yes_fits) in
            rw (yes_fits, fits.1)
              (record {
                total = omega (
                  arith,
                  s.total,
                  cost_at e at,
                  sum_of-append (cost counter candidates) p.selected (e.0 ∷ []),
                );
                bounded = fits.0;
                refused = refused_later p.omitted p.used (p.used + c) (omega arith) s.refused;
              })
        | inr over ↦
            let past = saturating_add_over p.used c limit (leb_false→lt _ _ over) in
            rw over (record {
              total = s.total;
              bounded = s.bounded;
              refused =
                  All-append (λ i. limit < p.used + cost counter candidates i) p.omitted (e.0 ∷ [])
                    s.refused (omega (arith, cost_at e at), tt);
            })
      ]

  select_loop-IsSound :
      (es : List (ℕ × Bytes)) (p : Progress)
      → limit ≤ u32_max
      → All (IsAt 0 candidates) es
      → IsSound p
      → IsSound (select_loop counter limit es p)
  unfolding select_loop
  select_loop-IsSound [] p h a s = s
  select_loop-IsSound (e ∷ es) p h (at, a) s =
      select_loop-IsSound es (consider counter limit e p) h a (consider-IsSound e p h at s)

-- What is selected fits the budget, is what the reported count adds up to, and no candidate that
-- was left out would still fit beside it.
pub select_within_budget_fits :
    (candidates : List Bytes) (budget : TokenBudget) (counter : TokenCounter)
    → IsNonZeroU32 budget
    → let s = select_within_budget candidates budget counter in
      (s.used.tokens ≡ sum_of (cost counter candidates) s.selected)
      × (s.used.tokens ≤ budget.get)
      × All (λ i. budget.get < s.used.tokens + cost counter candidates i) s.omitted
unfolding select_within_budget
select_within_budget_fits candidates budget counter n =
    let s =
      select_loop-IsSound counter candidates budget.get (enumerate_from 0 candidates)
        (record { used = 0; selected = []; omitted = [] }) n.fits (All-enumerate_from 0 candidates)
        (record { total = refl; bounded = omega arith; refused = tt }) in
    (s.total, s.bounded, s.refused)

module _ (counter : TokenCounter) (limit : ℕ) where
  select_loop-occurrences :
      (i from : ℕ) (cs : List Bytes) (p : Progress)
      → let r = select_loop counter limit (enumerate_from from cs) p in
        occurrences i r.selected + occurrences i r.omitted
        ≡ occurrences i p.selected
          + occurrences i p.omitted
          + (if leb from i then (if ltb i (from + length cs) then 1 else 0) else 0)
  unfolding select_loop
  select_loop-occurrences i from [] p = ground arith
  select_loop-occurrences i from (c ∷ cs) p =
      let one : ℕ → ℕ = λ m. if m == i then 1 else 0 in
      ground (
        arith,
        select_loop-occurrences i (suc from) cs (consider counter limit (from, c) p),
        sum_of-append one p.selected (from ∷ []),
        sum_of-append one p.omitted (from ∷ []),
      )

-- Every candidate is listed exactly once, as selected or as omitted, and no other index is.
pub select_within_budget_complete :
    (candidates : List Bytes) (budget : TokenBudget) (counter : TokenCounter) (i : ℕ)
    → let s = select_within_budget candidates budget counter in
      occurrences i s.selected + occurrences i s.omitted
      ≡ (if ltb i (length candidates) then 1 else 0)
unfolding select_within_budget
select_within_budget_complete candidates budget counter i = ground (
  arith,
  select_loop-occurrences counter budget.get i 0 candidates
      (record { used = 0; selected = []; omitted = [] }),
)
