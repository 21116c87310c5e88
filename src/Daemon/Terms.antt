-- ===== src/Daemon/Terms.antt =====
-- crates/ts-daemon/src/lib.rs: `query_terms` and `query_path_hints`. The query is the list of its characters;
-- the order of texts is that of their characters.
use token_shrinker.Prelude.{
  ℕ, Bool, ◌&&◌, ◌||◌, not, Option, none, some, List, [], ◌∷◌, map, length, any, filter, ◌==◌, leb,
  if◌then◌else◌,
}
use token_shrinker.Prelude.Bytes.{Bytes, ascii, eq_bytes, is_empty, contains, to_ascii_lowercase}
use token_shrinker.Prelude.Order.{cmp_bytes}
use token_shrinker.Prelude.Sort.{sort_by}
use token_shrinker.Repo.Redaction.{ends_with}

-- A text as its characters.
abbrev pub Chars : Type 0
Chars = List ℕ

-- The tables of Unicode, and the encoding.
pub record CharTables : Type 0 where
  pub is_alphanumeric : ℕ → Bool
  pub is_whitespace : ℕ → Bool
  pub to_lowercase : Chars → Chars
  pub encode : Chars → Bytes

abbrev pub put_char : ℕ → List Chars → List Chars
put_char c [] = (c ∷ []) ∷ []
put_char c (part ∷ parts) = (c ∷ part) ∷ parts

-- `split(is_separator)`
unfoldable pub split_by : (ℕ → Bool) → Chars → List Chars
split_by is_separator [] = [] ∷ []
split_by is_separator (c ∷ cs) =
    let rest = split_by is_separator cs in if is_separator c then [] ∷ rest else put_char c rest

abbrev pub stop_words : List Chars
stop_words =
    ascii "and"
    ∷ ascii "are"
    ∷ ascii "for"
    ∷ ascii "from"
    ∷ ascii "how"
    ∷ ascii "into"
    ∷ ascii "the"
    ∷ ascii "this"
    ∷ ascii "use"
    ∷ ascii "what"
    ∷ ascii "when"
    ∷ ascii "where"
    ∷ ascii "which"
    ∷ ascii "with"
    ∷ []

abbrev pub is_stop_word : Chars → Bool
is_stop_word term = any (λ word. eq_bytes word term) stop_words

-- `Vec::dedup`: an item that equals the one before it goes.
unfoldable pub dedup_after : Chars → List Chars → List Chars
dedup_after last [] = []
dedup_after last (x ∷ xs) =
    let rest = dedup_after x xs in if eq_bytes last x then rest else x ∷ rest

unfoldable pub dedup : List Chars → List Chars
unfolding dedup_after
dedup [] = []
dedup (x ∷ xs) = x ∷ dedup_after x xs

module _ (tables : CharTables) where
  unfoldable pub query_terms : Chars → List Chars
  unfolding split_by dedup
  query_terms query =
      let parts = split_by (λ c. not (tables.is_alphanumeric c) && not (c == b'_')) query in
      let long = filter (λ term. leb 3 (length term)) parts in
      dedup (
        sort_by cmp_bytes (filter (λ term. not (is_stop_word term)) (map tables.to_lowercase long)))

abbrev pub file_suffixes : List Chars
file_suffixes =
    ascii ".cjs"
    ∷ ascii ".js"
    ∷ ascii ".json"
    ∷ ascii ".lock"
    ∷ ascii ".md"
    ∷ ascii ".mjs"
    ∷ ascii ".rs"
    ∷ ascii ".toml"
    ∷ ascii ".ts"
    ∷ ascii ".tsx"
    ∷ ascii ".txt"
    ∷ ascii ".xml"
    ∷ ascii ".yaml"
    ∷ ascii ".yml"
    ∷ []

-- Quotes, brackets, the comma, the semicolon and the colon.
abbrev pub is_wrapping : ℕ → Bool
is_wrapping c =
    any (λ w. w == c)
      (34 ∷ 39 ∷ 96 ∷ b'(' ∷ b')' ∷ b'[' ∷ b']' ∷ b'{' ∷ b'}' ∷ b',' ∷ b';' ∷ b':' ∷ [])

abbrev pub is_trailing : ℕ → Bool
is_trailing c = any (λ w. w == c) (ascii ".,;:")

-- `trim_start_matches` and `trim_end_matches`
unfoldable pub trim_left : (ℕ → Bool) → Chars → Chars
trim_left test [] = []
trim_left test (c ∷ cs) = let rest = trim_left test cs in if test c then rest else c ∷ cs

abbrev pub keep_char : (ℕ → Bool) → ℕ → Chars → Chars
keep_char test c [] = if test c then [] else c ∷ []
keep_char test c (d ∷ cs) = c ∷ d ∷ cs

unfoldable pub trim_right : (ℕ → Bool) → Chars → Chars
trim_right test [] = []
trim_right test (c ∷ cs) = keep_char test c (trim_right test cs)

-- The closure of `filter_map`.
unfoldable pub path_hint : Chars → Option Chars
unfolding trim_left trim_right
path_hint raw =
    let trimmed = trim_right is_trailing (trim_right is_wrapping (trim_left is_wrapping raw)) in
    let normalized = map (λ c. if c == b'\\' then b'/' else c) trimmed in
    let lower = map to_ascii_lowercase normalized in
    if is_empty trimmed || contains trimmed (ascii "://")
    then none
    else if any (λ c. c == b'/') normalized || any (ends_with lower) file_suffixes
    then some lower
    else none

unfoldable pub path_hints_of : List Chars → List Chars
unfolding path_hint
path_hints_of [] = []
path_hints_of (raw ∷ raws) = elim (path_hint raw) [
  | none ↦ path_hints_of raws
  | some hint ↦ hint ∷ path_hints_of raws
]

module _ (tables : CharTables) where
  -- `split_whitespace` is the nonempty parts.
  unfoldable pub query_path_hints : Chars → List Chars
  unfolding split_by path_hints_of dedup
  query_path_hints query =
      let raws = filter (λ raw. not (is_empty raw)) (split_by tables.is_whitespace query) in
      dedup (sort_by cmp_bytes (path_hints_of raws))
