-- ===== src/Tests/Context.antt =====
-- `build_context` on four candidates, of which two share their content and one does not fit.
use mathlib.Core.Option
use token_shrinker.Prelude.{
  ℕ, ◌+◌, ◌≡◌, refl, ◌≤◌, Bool, true, false, none, some, List, [], ◌∷◌, All, IsAt, map, arith,
  length, sum_of, enumerate_from, Option,
}
use token_shrinker.Prelude.Bytes.{Bytes, ascii, IsByte}
use token_shrinker.Prelude.Order.{Le, cmp_bytes}
use token_shrinker.Prelude.Sort.{sort_by}
use token_shrinker.Prelude.Map.{get, upsert}
use token_shrinker.Prelude.BigEndian.{to_be_bytes}
use token_shrinker.Types.Count.{TokenBudget, IsNonZeroU32}
use token_shrinker.Context.ContentHash.{digest_to_content_hash}
use token_shrinker.Context.Relevance.{RelevanceSignals, score, breakdown}
use token_shrinker.Context.Counter.{conservative_estimator}
use token_shrinker.Context.Candidate.{ContextCandidate, repository_file, is_public}
use token_shrinker.Context.Bundle.{
  Omission, duplicate, budget_exceeded, ContextItem, ContextBundle, bundle_frame,
}
use token_shrinker.Context.Bundle.Framing.{IsSized, SameCovered, bundle_frame_injective}
use token_shrinker.Context.Build.{Entry, build_context, rank}
use token_shrinker.Context.Build.Pack.{item_of, item_tokens}
use token_shrinker.Context.Build.Order.{item_rank}
use token_shrinker.Context.Build.Bundled.{build_context_budget, build_context_best}
use token_shrinker.Context.Build.Accounts.{handle, build_context_total, build_context_accounts}
use token_shrinker.Context.Build.Selection.{Settled, build_context_maximal}

-- A digest of 32 bytes that depends on the first byte of its input.
abbrev digest : Bytes → Bytes
digest text =
    0 ∷ 1 ∷ 2 ∷ 3 ∷ 4 ∷ 5 ∷ 6 ∷ 7 ∷ 8 ∷ 9 ∷ 10 ∷ 11 ∷ 12 ∷ 13 ∷ 14 ∷ 15 ∷ 16 ∷ 17 ∷ 18 ∷ 19 ∷ 20
    ∷ 21 ∷ 22 ∷ 23 ∷ 24 ∷ 25 ∷ 26 ∷ 27 ∷ 28 ∷ 29 ∷ 30 ∷ 31 ∷ []

digest-IsByte : (text : Bytes) → All IsByte (digest text) × (length (digest text) ≡ 32)
digest-IsByte text = (omega arith, refl)

abbrev signals : Bool → ℕ → RelevanceSignals
signals path freshness = record {
  exact_match = false;
  term_match_count = 1;
  path_match = path;
  diagnostic = false;
  freshness = freshness;
}

abbrev candidate : Bytes → Bytes → Bytes → RelevanceSignals → ContextCandidate
candidate id content hash relevance = record {
  source_id = record { value = id };
  source_kind = repository_file;
  location = record { uri = id; start_line = none; end_line = none };
  content = content;
  content_hash = record { value = hash };
  sensitivity = is_public;
  modified_unix_ms = none;
  relevance = relevance;
}

abbrev sources : List ContextCandidate
sources =
    candidate (ascii "b") (ascii "same") (ascii "h1") (signals false 3)
    ∷ candidate (ascii "c") (ascii "long text") (ascii "h2") (signals false 9)
    ∷ candidate (ascii "a") (ascii "same") (ascii "h1") (signals false 3)
    ∷ candidate (ascii "d") (ascii "path") (ascii "h0") (signals true 0)
    ∷ []

abbrev budget : TokenBudget
budget = record { get = 10 }

budget-IsNonZeroU32 : IsNonZeroU32 budget
budget-IsNonZeroU32 = record { positive = omega arith; fits = omega arith }

run : Option ContextBundle
unfolding build_context score breakdown sort_by get upsert cmp_bytes to_be_bytes Option.bind
    digest_to_content_hash
run = build_context digest sources budget conservative_estimator

abbrev ids : ContextBundle → List Bytes
ids b = map (λ (i : ContextItem). i.source_id.value) b.items

-- The named path comes first; of the two equal contents the smaller handle is kept.
run_selects : Option.map ids run ≡ some (ascii "d" ∷ ascii "a" ∷ [])
unfolding run
run_selects = refl

run_omits :
    Option.map (λ (b : ContextBundle). b.omissions) run
    ≡ some (
        record {
          source_id = record { value = ascii "b" };
          reason = duplicate (record { value = ascii "a" });
        }
        ∷ record { source_id = record { value = ascii "c" }; reason = budget_exceeded }
        ∷ [])
unfolding run
run_omits = refl

build_context_total_example :
    (b : ContextBundle) × (build_context digest sources budget conservative_estimator ≡ some b)
build_context_total_example =
    build_context_total digest sources budget conservative_estimator digest-IsByte

abbrev bundle : ContextBundle
bundle = build_context_total_example.0

build_context_budget_example :
    (bundle.used.tokens ≡ sum_of item_tokens bundle.items)
    × (bundle.used.tokens ≤ 10)
    × All (λ item. item.token_count ≡ conservative_estimator.count item.content) bundle.items
build_context_budget_example =
    build_context_budget digest sources budget conservative_estimator bundle
      build_context_total_example.1 budget-IsNonZeroU32

build_context_best_example :
    All
      (λ item.
        All
          (λ (e : Entry).
            e.1.content_hash ≡ item.content_hash
            → Le item_rank item (item_of conservative_estimator e))
          (enumerate_from 0 sources))
      bundle.items
build_context_best_example =
    build_context_best digest sources budget conservative_estimator bundle
      build_context_total_example.1 budget-IsNonZeroU32

build_context_accounts_example :
    sum_of (λ (c : ContextCandidate). handle (ascii "b") c.source_id.value) sources
    ≡ sum_of (λ (i : ContextItem). handle (ascii "b") i.source_id.value) bundle.items
      + sum_of (λ (o : Omission). handle (ascii "b") o.source_id.value) bundle.omissions
build_context_accounts_example =
    build_context_accounts digest sources budget conservative_estimator bundle
      build_context_total_example.1 budget-IsNonZeroU32 (ascii "b")

build_context_maximal_example :
    All
      (λ e.
        (w : Entry) × IsAt 0 sources w
        × (w.1.content_hash ≡ e.1.content_hash)
        × Le rank w e
        × Settled digest sources budget conservative_estimator bundle build_context_total_example.1
            budget-IsNonZeroU32 w)
      (enumerate_from 0 sources)
build_context_maximal_example =
    build_context_maximal digest sources budget conservative_estimator bundle
      build_context_total_example.1 budget-IsNonZeroU32

abbrev item : Bytes → ContextItem
item uri = record {
  source_id = record { value = ascii "a" };
  source_kind = repository_file;
  location = record { uri = uri; start_line = none; end_line = none };
  content = ascii "same";
  content_hash = record { value = ascii "h1" };
  sensitivity = is_public;
  score = 103;
  score_breakdown = [];
  token_count = conservative_estimator.count (ascii "same");
}

item-IsSized : (uri : Bytes) → IsSized (item uri)
item-IsSized uri = omega arith

-- The hash does not cover the location.
bundle_frame_injective_example : SameCovered (item (ascii "x") ∷ []) (item (ascii "y") ∷ [])
unfolding bundle_frame
bundle_frame_injective_example =
    bundle_frame_injective (item (ascii "x") ∷ []) (item (ascii "y") ∷ [])
      (item-IsSized (ascii "x"), tt) (item-IsSized (ascii "y"), tt) refl
