-- ===== src/Context/Counter.antt =====
-- crates/ts-context/src/lib.rs: the trait `TokenCounter` and the built-in `ConservativeEstimator`.
use token_shrinker.Prelude.{length}
use token_shrinker.Prelude.Bytes.{Bytes, ascii}
use token_shrinker.Types.CounterId.{CounterId}
use token_shrinker.Types.Count.{CountPrecision, estimated, TokenCount}

-- An implementation of the trait.
pub record TokenCounter : Type 0 where
  pub id : CounterId
  pub precision : CountPrecision
  pub count : Bytes → TokenCount

-- `CONSERVATIVE_ESTIMATOR_ID`
abbrev pub conservative_estimator_id : Bytes
conservative_estimator_id = ascii "byte_upper_bound_v1"

-- `ConservativeEstimator`: one unit for each byte of the UTF-8.
abbrev pub conservative_estimator : TokenCounter
conservative_estimator =
    let counter : CounterId = record { value = conservative_estimator_id } in
    record {
      id = counter;
      precision = estimated;
      count = λ text. record { tokens = length text; precision = estimated; counter_id = counter };
    }
