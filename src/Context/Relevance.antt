-- ===== src/Context/Relevance.antt =====
-- crates/ts-context/src/lib.rs: `RelevanceSignals`, `ScoreComponent` and the integer score.
pub mod Laws
use token_shrinker.Prelude.{
  ℕ, ◌*◌, ◌%◌, ◌^◌, ◌≤◌, Bool, true, false, List, [], ◌∷◌, ◌++◌, if◌then◌else◌, ltb, add32,
}

pub record RelevanceSignals : Type 0 where
  pub exact_match : Bool
  pub term_match_count : ℕ
  pub path_match : Bool
  pub diagnostic : Bool
  pub freshness : ℕ

-- What the type `u8` guarantees of the two counters.
pub record IsU8 (s : RelevanceSignals) : Type 0 where
  pub terms : s.term_match_count ≤ 255
  pub fresh : s.freshness ≤ 255

-- `RelevanceSignals::score`, in `u32`
unfoldable pub score : RelevanceSignals → ℕ
score s =
    let exact : ℕ = if s.exact_match then 800 else 0 in
    let path : ℕ = if s.path_match then 4_000 else 0 in
    let diagnostic : ℕ = if s.diagnostic then 1_000 else 0 in
    add32 (add32 (add32 (add32 exact ((s.term_match_count * 100) % 2 ^ 32)) path) diagnostic)
      s.freshness

pub data ScoreComponentKind : Type 0 where
  exact_match query_coverage path_match diagnostic_priority freshness : ScoreComponentKind

pub record ScoreComponent : Type 0 where
  pub kind : ScoreComponentKind
  pub value : ℕ

-- `if present { components.push(..) }`
abbrev pub push_if : Bool → ScoreComponentKind → ℕ → List ScoreComponent → List ScoreComponent
push_if present kind value components =
    if present then components ++ (record { kind = kind; value = value } ∷ []) else components

-- `RelevanceSignals::breakdown`
unfoldable pub breakdown : RelevanceSignals → List ScoreComponent
breakdown s = push_if (ltb 0 s.freshness) ScoreComponentKind.freshness s.freshness (
    push_if s.diagnostic ScoreComponentKind.diagnostic_priority 1_000 (
      push_if s.path_match ScoreComponentKind.path_match 4_000 (
        push_if (ltb 0 s.term_match_count) ScoreComponentKind.query_coverage
          ((s.term_match_count * 100) % 2 ^ 32)
          (push_if s.exact_match ScoreComponentKind.exact_match 800 []))))
