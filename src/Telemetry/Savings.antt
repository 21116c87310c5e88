-- ===== src/Telemetry/Savings.antt =====
-- crates/ts-telemetry/src/lib.rs: `token_savings`, the sums of the token events for each tokenizer.
pub mod Laws
use Prim.Native.Nat.Ordering.{lt, eq, gt}
use token_shrinker.Prelude.{
  ℕ, suc, ◌+◌, ◌-◌, ◌^◌, Ordering, Bool, true, false, ◌&&◌, ◌||◌, Option, none, some, List, [], ◌∷◌,
  leb, ltb, if◌then◌else◌, Result, ok, err, ◌>>=◌,
}
use token_shrinker.Prelude.Bytes.{Bytes}
use token_shrinker.Prelude.Integers.{ℤ, pos, negsuc}
use token_shrinker.Prelude.Order.{then_with, cmp_bytes}
use token_shrinker.Telemetry.{TelemetryError, pool, sqlite}
use token_shrinker.Telemetry.Store.{TokenRow, Tables}

pub record TokenSavings : Type 0 where
  pub tokenizer : Bytes
  pub exact : Bool
  pub raw_tokens : ℕ
  pub optimized_tokens : ℕ
  pub savings_tokens : ℤ
  pub event_count : ℕ

-- A row of the query: `tokenizer`, `exact`, the two sums and the count.
pub record Group : Type 0 where
  pub tokenizer : Bytes
  pub exact : Bool
  pub raw : ℕ
  pub optimized : ℕ
  pub count : ℕ

-- `FALSE` is 0 and `TRUE` is 1.
abbrev pub cmp_bool : Bool → Bool → Ordering
cmp_bool false false = eq
cmp_bool false true = lt
cmp_bool true false = gt
cmp_bool true true = eq

-- The order of the query: `tokenizer, exact`.
abbrev pub cmp_key : Bytes → Bool → Bytes → Bool → Ordering
cmp_key tokenizer exact other_tokenizer other_exact =
    then_with (cmp_bytes tokenizer other_tokenizer) (cmp_bool exact other_exact)

-- One more event in the groups of `GROUP BY tokenizer, exact`.
unfoldable pub add_event : TokenRow → List Group → List Group
add_event e [] =
    record {
      tokenizer = e.tokenizer;
      exact = e.exact;
      raw = e.raw_tokens;
      optimized = e.optimized_tokens;
      count = 1;
    }
    ∷ []
add_event e (g ∷ gs) =
    let rest = add_event e gs in
    elim (cmp_key e.tokenizer e.exact g.tokenizer g.exact) [
      | lt ↦
          record {
            tokenizer = e.tokenizer;
            exact = e.exact;
            raw = e.raw_tokens;
            optimized = e.optimized_tokens;
            count = 1;
          }
          ∷ g
          ∷ gs
      | eq ↦
          record g {
            raw = g.raw + e.raw_tokens;
            optimized = g.optimized + e.optimized_tokens;
            count = g.count + 1;
          }
          ∷ gs
      | gt ↦ g ∷ rest
    ]

unfoldable pub groups : List TokenRow → List Group
unfolding add_event
groups [] = []
groups (e ∷ es) = add_event e (groups es)

-- `i128::from(raw) - i128::from(optimized)`, which cannot overflow.
abbrev pub difference : ℕ → ℕ → ℤ
difference raw optimized =
    if leb optimized raw then pos (raw - optimized) else negsuc (optimized - raw - 1)

module _ {E P : Type 0} where
  -- `SUM` fails where it passes the greatest `i64`. The columns hold no negative number, so neither do
  -- the sums, and the conversions to `u64` keep them.
  unfoldable pub read_group : E → Group → Result TokenSavings (TelemetryError E P)
  read_group overflow g =
      if ltb g.raw (2 ^ 63) && ltb g.optimized (2 ^ 63)
      then ok (record {
        tokenizer = g.tokenizer;
        exact = g.exact;
        raw_tokens = g.raw;
        optimized_tokens = g.optimized;
        savings_tokens = difference g.raw g.optimized;
        event_count = g.count;
      })
      else err (sqlite overflow)

  unfoldable pub read_groups : E → List Group → Result (List TokenSavings) (TelemetryError E P)
  unfolding read_group
  read_groups overflow [] = ok []
  read_groups overflow (g ∷ gs) =
      read_group overflow g >>= (λ first. read_groups overflow gs >>= (λ rest. ok (first ∷ rest)))

  unfoldable pub token_savings :
      Option P → Option E → E → Tables → Result (List TokenSavings) (TelemetryError E P)
  unfolding groups read_groups
  token_savings (some e) fault overflow t = err (pool e)
  token_savings none (some e) overflow t = err (sqlite e)
  token_savings none none overflow t = read_groups overflow (groups t.token_events)
