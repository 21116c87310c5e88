-- ===== src/Tests/Memories.antt =====
-- The memory store at concrete inputs.
use token_shrinker.Prelude.{
  ℕ, min, ◌≡◌, refl, false, Option, none, some, List, [], ◌∷◌, All, length, ok, err,
}
use token_shrinker.Prelude.Bytes.{Bytes, ascii}
use token_shrinker.Prelude.Integers.{pos}
use token_shrinker.Prelude.Unicode.{Unicode}
use token_shrinker.Memory.{
  MemoryScope, user, repository, NewMemory, MemoryRecord, empty_repository_scope,
  invalid_expiration,
}
use token_shrinker.Memory.Rows.{MemoryRow, Table, has_text}
use token_shrinker.Memory.Store.{FullText, remember, search}
use token_shrinker.Memory.Store.Keyed.{lookup}
use token_shrinker.Memory.Store.Refinement.{
  Operation, remembered, perform_all, specify_all, perform_all-specify_all,
}
use token_shrinker.Memory.Store.Queries.{IsHit, hits, search-eq-ok}

abbrev unicode : Unicode
unicode = record { lossy = λ t. t; to_lowercase = λ t. t; trim = λ t. t; trim_start = λ t. t }

-- A full-text index that finds nothing.
abbrev full_text : FullText
full_text = record { matches = λ _ _. false; bm25 = λ _ _ _ _. Prim.Native.Nat.Ordering.eq }

abbrev note : Bytes → MemoryScope → ℕ → Option ℕ → NewMemory
note id scope created none = record {
  id = id;
  scope = scope;
  content = ascii "Use Rust";
  created_at_unix_ms = pos created;
  expires_at_unix_ms = none;
}
note id scope created (some expires) = record {
  id = id;
  scope = scope;
  content = ascii "Use Rust";
  created_at_unix_ms = pos created;
  expires_at_unix_ms = some (pos expires);
}

-- Two memories of the user, of which one expires, one of a repository, and a replacement.
abbrev operations : List (Operation ℕ)
operations =
    remembered none (note (ascii "a") user 1 none)
    ∷ remembered none (note (ascii "b") (repository (ascii "r")) 2 none)
    ∷ remembered (some 5) (note (ascii "c") user 3 none)
    ∷ remembered none (note (ascii "d") user 4 (some 9))
    ∷ remembered none (note (ascii "a") user 7 none)
    ∷ []

abbrev row : Bytes → Bytes → Bytes → ℕ → Option ℕ → MemoryRow
row id kind key created none = record {
  id = id;
  scope_kind = kind;
  scope_key = key;
  content = ascii "Use Rust";
  created_at_ms = pos created;
  expires_at_ms = none;
}
row id kind key created (some expires) = record {
  id = id;
  scope_kind = kind;
  scope_key = key;
  content = ascii "Use Rust";
  created_at_ms = pos created;
  expires_at_ms = some (pos expires);
}

abbrev table : Table
table =
    row (ascii "a") (ascii "user") [] 7 none
    ∷ row (ascii "b") (ascii "repository") (ascii "r") 2 none
    ∷ row (ascii "d") (ascii "user") [] 4 (some 9)
    ∷ []

performs : perform_all (Unit {0}) operations [] ≡ table
unfolding remember
performs = refl

perform_all-specify_all_example :
    lookup (ascii "a") (perform_all (Unit {0}) operations [])
    ≡ specify_all (Unit {0}) operations (λ _. none) (ascii "a")
perform_all-specify_all_example = perform_all-specify_all (Unit {0}) operations (ascii "a")

-- An expiration that is not later than the creation, and an empty key, are refused.
refuses_expired :
    remember {E = ℕ} {P = ℕ} none (note (ascii "e") user 4 (some 4)) table
    ≡ (err invalid_expiration, table)
unfolding remember
refuses_expired = refl

refuses_empty_key :
    remember {E = ℕ} {P = ℕ} none (note (ascii "e") (repository []) 4 none) table
    ≡ (err empty_repository_scope, table)
unfolding remember
refuses_empty_key = refl

abbrev record_at : Bytes → ℕ → Option ℕ → MemoryRecord
record_at id created none = record {
  id = id;
  scope = user;
  content = ascii "Use Rust";
  created_at_unix_ms = pos created;
  expires_at_unix_ms = none;
}
record_at id created (some expires) = record {
  id = id;
  scope = user;
  content = ascii "Use Rust";
  created_at_unix_ms = pos created;
  expires_at_unix_ms = some (pos expires);
}

abbrev found_records : List MemoryRecord
found_records = record_at (ascii "a") 7 none ∷ record_at (ascii "d") 4 (some 9) ∷ []

-- The newest first.
searches :
    search {E = ℕ} {P = ℕ} unicode full_text none false user (ascii "rust") (pos 8) 5 table
    ≡ ok found_records
unfolding search
searches = refl

search-eq-ok_example :
    All (IsHit user (pos 8) (has_text (ascii "rust"))) found_records
    × (length found_records ≡ min 5 (hits user (pos 8) (has_text (ascii "rust")) table))
search-eq-ok_example =
    search-eq-ok unicode full_text false user (ascii "rust") (pos 8) 5 table {E = ℕ} {P = ℕ} none
      found_records searches
