-- ===== src/Memory/Store.antt =====
-- crates/ts-memory/src/lib.rs: the operations of `MemoryStore` on the table `memories`, statement by
-- statement. A fault is the first call to SQLite that fails: a transaction that meets one leaves the
-- table as it was.
pub mod Pool
pub mod Keyed
pub mod Refinement
pub mod Queries
use Prim.Native.Nat.Ordering.{lt, eq, gt}
use token_shrinker.Prelude.{
  ℕ, zero, suc, ◌+◌, ◌-◌, Ordering, Bool, true, false, ◌&&◌, ◌||◌, not, Option, none, some, List,
  [], ◌∷◌, ◌++◌, map, length, take, filter, ◌==◌, ltb, if◌then◌else◌, Result, ok, err, ◌>>=◌, ◌>>◌,
}
use token_shrinker.Prelude.Bytes.{Bytes, ascii, is_empty, eq_bytes, contains, to_ascii_lowercase}
use token_shrinker.Prelude.Integers.{ℤ, compare_int}
use token_shrinker.Prelude.Order.{then_with, cmp_bytes}
use token_shrinker.Prelude.Sort.{sort_by}
use token_shrinker.Prelude.Unicode.{Unicode}
use token_shrinker.Memory.Rows.{
  MemoryRow, Table, upsert, is_expired, has_text, by_time, fts_query, collect_records, select,
  row_of, delete, any_deleted,
}
use token_shrinker.Memory.{
  MemoryScope, user, repository, MemoryError, sqlite, integrity, NewMemory, MemoryRecord,
  expires_by, database_parts, validate_memory,
}

-- FTS5, over the rows that its triggers keep it in step with: what `MATCH` accepts, and the order
-- of `bm25`.
pub record FullText : Type 0 where
  pub matches : Bytes → Bytes → Bool
  pub bm25 : Table → Bytes → MemoryRow → MemoryRow → Ordering

-- The test that chooses the full-text query.
abbrev pub uses_fts5 : Unicode → Bool → Bytes → Bool
uses_fts5 unicode fts5_available query = fts5_available && not (is_empty (unicode.trim query))

module _ (unicode : Unicode) (full_text : FullText) where
  -- What the chosen query asks of a row's text, and the order it gives.
  abbrev pub matcher : Bool → Bytes → Bytes → Bool
  matcher true query content = full_text.matches (fts_query query) content
  matcher false query content = has_text query content

  abbrev pub order_of : Bool → Bytes → Table → MemoryRow → MemoryRow → Ordering
  order_of true query table a b =
      then_with (full_text.bm25 table (fts_query query) a b) (by_time a b)
  order_of false query table a b = by_time a b

  -- The rows that the chosen query returns.
  unfoldable pub found : Bool → Bytes × Bytes → Bytes → ℤ → ℕ → Table → List MemoryRecord
  unfolding select
  found fts5_available scope query now limit table =
      let full = uses_fts5 unicode fts5_available query in
      collect_records
        (select scope (matcher full query) now (order_of full query table) limit table)

module _ {E P : Type 0} where
  -- A query, with the fault that it meets if it meets one.
  abbrev pub run_query : {T : Type 0} → Option E → T → Result T (MemoryError E P)
  run_query none rows = ok rows
  run_query (some e) rows = err (sqlite e)

  -- A transaction: the table with the answer, or the fault with the table as it was.
  abbrev pub transact :
      {T : Type 0} → Option E → Table → T × Table → Result T (MemoryError E P) × Table
  transact none table (answer, next) = (ok answer, next)
  transact (some e) table done = (err (sqlite e), table)

  -- `remember` from the checks on, with what they give.
  abbrev pub store_row :
      Option E
      → NewMemory
      → Table
      → Result (Bytes × Bytes) (MemoryError E P)
      → Result (Unit {0}) (MemoryError E P) × Table
  store_row fault m table (err e) = (err e, table)
  store_row fault m table (ok parts) = transact fault table (tt, upsert (row_of m parts) table)

  unfoldable pub remember :
      Option E → NewMemory → Table → Result (Unit {0}) (MemoryError E P) × Table
  unfolding validate_memory database_parts upsert
  remember fault m table = store_row fault m table (validate_memory m >> database_parts m.scope)

  unfoldable pub search :
      Unicode
      → FullText
      → Option E
      → Bool
      → MemoryScope
      → Bytes
      → ℤ
      → ℕ
      → Table
      → Result (List MemoryRecord) (MemoryError E P)
  unfolding database_parts found
  search unicode full_text fault fts5_available scope query now limit table =
      if limit == 0
      then ok []
      else database_parts scope >>= (λ parts.
        run_query fault (found unicode full_text fts5_available parts query now limit table))

  unfoldable pub forget : Option E → Bytes → Table → Result Bool (MemoryError E P) × Table
  unfolding delete
  forget fault id table = transact fault table (any_deleted (delete (λ r. eq_bytes r.id id) table))

  unfoldable pub prune_expired : Option E → ℤ → Table → Result ℕ (MemoryError E P) × Table
  unfolding delete
  prune_expired fault now table = transact fault table (delete (is_expired now) table)

  -- On what `PRAGMA quick_check` answers.
  unfoldable pub integrity_check : Option E → Bytes → Result (Unit {0}) (MemoryError E P)
  integrity_check fault answer =
      run_query fault answer
      >>= (λ result. if eq_bytes result (ascii "ok") then ok tt else err (integrity result))
