-- ===== src/Memory/Rows.antt =====
-- crates/ts-memory/src/lib.rs: the rows of the table `memories`, and the statements on them.
use token_shrinker.Prelude.{
  ℕ, Ordering, Bool, ◌&&◌, ◌||◌, not, Option, List, [], ◌∷◌, ◌++◌, map, length, take, filter, ◌==◌,
  ltb, if◌then◌else◌,
}
use token_shrinker.Prelude.Bytes.{Bytes, ascii, is_empty, eq_bytes, contains, to_ascii_lowercase}
use token_shrinker.Prelude.Integers.{ℤ, compare_int}
use token_shrinker.Prelude.Order.{then_with, cmp_bytes}
use token_shrinker.Prelude.Sort.{sort_by}
use token_shrinker.Memory.{user, repository, NewMemory, MemoryRecord, expires_by}

-- A row of the table `memories`.
pub record MemoryRow : Type 0 where
  pub id : Bytes
  pub scope_kind : Bytes
  pub scope_key : Bytes
  pub content : Bytes
  pub created_at_ms : ℤ
  pub expires_at_ms : Option ℤ

abbrev pub Table : Type 0
Table = List MemoryRow

-- `INSERT … ON CONFLICT(id) DO UPDATE SET …`
unfoldable pub upsert : MemoryRow → Table → Table
upsert row [] = row ∷ []
upsert row (r ∷ table) =
    let rest = upsert row table in if eq_bytes r.id row.id then row ∷ table else r ∷ rest

-- `scope_kind = ?1 AND scope_key = ?2`
abbrev pub in_scope : Bytes × Bytes → MemoryRow → Bool
in_scope (scope_kind, scope_key) r =
    eq_bytes r.scope_kind scope_kind && eq_bytes r.scope_key scope_key

-- `expires_at_ms IS NOT NULL AND expires_at_ms <= ?1`; the queries ask for the contrary.
abbrev pub is_expired : ℤ → MemoryRow → Bool
is_expired now r = expires_by now r.expires_at_ms

-- `?3 = '' OR instr(lower(content), lower(?3)) > 0`: SQLite's `lower` folds ASCII.
abbrev pub has_text : Bytes → Bytes → Bool
has_text query content =
    is_empty query || contains (map to_ascii_lowercase content) (map to_ascii_lowercase query)

-- `created_at_ms DESC, id ASC`
abbrev pub by_time : MemoryRow → MemoryRow → Ordering
by_time a b = then_with (compare_int b.created_at_ms a.created_at_ms) (cmp_bytes a.id b.id)

-- `query.replace('"', "\"\"")`
unfoldable pub double_quotes : Bytes → Bytes
double_quotes [] = []
double_quotes (b ∷ bs) = let rest = double_quotes bs in if b == 34 then 34 ∷ 34 ∷ rest else b ∷ rest

abbrev pub fts_query : Bytes → Bytes
unfolding double_quotes
fts_query query = 34 ∷ double_quotes query ++ (34 ∷ [])

-- One row as `collect_records` reads it.
abbrev pub record_of : MemoryRow → MemoryRecord
record_of r = record {
  id = r.id;
  scope = if eq_bytes r.scope_kind (ascii "user") then user else repository r.scope_key;
  content = r.content;
  created_at_unix_ms = r.created_at_ms;
  expires_at_unix_ms = r.expires_at_ms;
}

abbrev pub collect_records : Table → List MemoryRecord
collect_records = map record_of

-- The rows that a query returns, before its order: the `WHERE` of the two statements.
unfoldable pub is_hit : Bytes × Bytes → (Bytes → Bool) → ℤ → MemoryRow → Bool
is_hit scope matches now r = in_scope scope r && (matches r.content && not (is_expired now r))

unfoldable pub select :
    Bytes × Bytes → (Bytes → Bool) → ℤ → (MemoryRow → MemoryRow → Ordering) → ℕ → Table → Table
unfolding is_hit sort_by
select scope matches now order limit table =
    take limit (sort_by order (filter (is_hit scope matches now) table))

abbrev pub row_of : NewMemory → Bytes × Bytes → MemoryRow
row_of m (scope_kind, scope_key) = record {
  id = m.id;
  scope_kind = scope_kind;
  scope_key = scope_key;
  content = m.content;
  created_at_ms = m.created_at_unix_ms;
  expires_at_ms = m.expires_at_unix_ms;
}

-- `DELETE FROM memories WHERE …`: the number of rows deleted, and the others.
unfoldable pub delete : (MemoryRow → Bool) → Table → ℕ × Table
delete condition table = (length (filter condition table), filter (λ r. not (condition r)) table)

abbrev pub any_deleted : ℕ × Table → Bool × Table
any_deleted (deleted, table) = (ltb 0 deleted, table)
