-- ===== src/Context/Budget.antt =====
-- crates/ts-context/src/lib.rs: `select_within_budget`, the in-order selection under a budget.
pub mod Laws
use token_shrinker.Prelude.{
  ℕ, List, [], ◌∷◌, ◌++◌, leb, if◌then◌else◌, saturating_add, add64, enumerate_from,
}
use token_shrinker.Prelude.Bytes.{Bytes}
use token_shrinker.Types.Count.{TokenBudget, TokenCount}
use token_shrinker.Context.Counter.{TokenCounter}

pub record BudgetSelection : Type 0 where
  pub selected : List ℕ
  pub omitted : List ℕ
  pub used : TokenCount

-- The variables of the loop.
pub record Progress : Type 0 where
  pub used : ℕ
  pub selected : List ℕ
  pub omitted : List ℕ

module _ (counter : TokenCounter) (limit : ℕ) where
  -- The body of the loop.
  unfoldable pub consider : ℕ × Bytes → Progress → Progress
  consider (index, candidate) p =
      let candidate_tokens = (counter.count candidate).tokens in
      if leb (saturating_add p.used candidate_tokens) limit
      then record {
        used = add64 p.used candidate_tokens;
        selected = p.selected ++ (index ∷ []);
        omitted = p.omitted;
      }
      else record p { omitted = p.omitted ++ (index ∷ []) }

  unfoldable pub select_loop : List (ℕ × Bytes) → Progress → Progress
  unfolding consider
  select_loop [] p = p
  select_loop (c ∷ candidates) p = select_loop candidates (consider c p)

unfoldable pub select_within_budget : List Bytes → TokenBudget → TokenCounter → BudgetSelection
unfolding select_loop
select_within_budget candidates budget counter =
    let p =
      select_loop counter budget.get (enumerate_from 0 candidates)
        (record { used = 0; selected = []; omitted = [] }) in
    record {
      selected = p.selected;
      omitted = p.omitted;
      used = record { tokens = p.used; precision = counter.precision; counter_id = counter.id };
    }
