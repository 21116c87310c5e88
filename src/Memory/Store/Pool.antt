-- ===== src/Memory/Store/Pool.antt =====
-- crates/ts-memory/src/lib.rs: `MemoryPool`, whose operations check a connection out and then do what
-- `MemoryStore` does, and `migrate`.
use token_shrinker.Prelude.{ℕ, Bool, Option, none, some, List, [], Result, ok, err}
use token_shrinker.Prelude.Bytes.{Bytes}
use token_shrinker.Prelude.Integers.{ℤ, pos, compare_int}
use token_shrinker.Prelude.Unicode.{Unicode}
use token_shrinker.Memory.{
  MemoryScope, MemoryError, sqlite, pool, newer_schema, NewMemory, MemoryRecord,
}
use token_shrinker.Memory.Rows.{Table}
use token_shrinker.Memory.Store.{FullText, remember, search, forget, prune_expired, integrity_check}
use Prim.Native.Nat.Ordering.{eq, gt}

-- The file of a database: `PRAGMA user_version`, and the table once a migration has made it.
pub record Database : Type 0 where
  pub user_version : ℤ
  pub memories : Option Table

abbrev pub schema_version : ℤ
schema_version = pos 1

-- `CREATE TABLE memories`, which fails where the table is.
abbrev pub create_table : {E : Type 0} → E → Option Table → Result Table E
create_table exists none = ok []
create_table exists (some _) = err exists

module _ {E P : Type 0} where
  -- `MemoryPool::connection` before an operation that changes the table, and before one that reads.
  abbrev pub with_connection :
      {T : Type 0}
      → Option P
      → Table
      → Result T (MemoryError E P) × Table
      → Result T (MemoryError E P) × Table
  with_connection none table done = done
  with_connection (some e) table done = (err (pool e), table)

  abbrev pub checked_out :
      {T : Type 0} → Option P → Result T (MemoryError E P) → Result T (MemoryError E P)
  checked_out none answer = answer
  checked_out (some e) answer = err (pool e)

  unfoldable pub pool_remember :
      Option P → Option E → NewMemory → Table → Result (Unit {0}) (MemoryError E P) × Table
  unfolding remember
  pool_remember checkout fault m table = with_connection checkout table (remember fault m table)

  unfoldable pub pool_search :
      Unicode
      → FullText
      → Option P
      → Option E
      → Bool
      → MemoryScope
      → Bytes
      → ℤ
      → ℕ
      → Table
      → Result (List MemoryRecord) (MemoryError E P)
  unfolding search
  pool_search unicode full_text checkout fault fts5_available scope query now limit table =
      checked_out checkout
        (search unicode full_text fault fts5_available scope query now limit table)

  unfoldable pub pool_forget :
      Option P → Option E → Bytes → Table → Result Bool (MemoryError E P) × Table
  unfolding forget
  pool_forget checkout fault id table = with_connection checkout table (forget fault id table)

  unfoldable pub pool_prune_expired :
      Option P → Option E → ℤ → Table → Result ℕ (MemoryError E P) × Table
  unfolding prune_expired
  pool_prune_expired checkout fault now table =
      with_connection checkout table (prune_expired fault now table)

  unfoldable pub pool_integrity_check :
      Option P → Option E → Bytes → Result (Unit {0}) (MemoryError E P)
  unfolding integrity_check
  pool_integrity_check checkout fault answer = checked_out checkout (integrity_check fault answer)

  abbrev pub migrated : Database → Result Table E → Result (Unit {0}) (MemoryError E P) × Database
  migrated db (err e) = (err (sqlite e), db)
  migrated db (ok table) = (ok tt, record { user_version = schema_version; memories = some table })

  abbrev pub from_version_zero :
      Option E → E → Database → Result (Unit {0}) (MemoryError E P) × Database
  from_version_zero (some e) exists db = (err (sqlite e), db)
  from_version_zero none exists db = migrated db (create_table exists db.memories)

  abbrev pub from_version : Option E → E → Database → Result (Unit {0}) (MemoryError E P) × Database
  from_version fault exists db = elim (compare_int db.user_version schema_version) [
    | gt ↦ (err (newer_schema db.user_version), db)
    | _ ↦ elim (compare_int db.user_version (pos 0)) [
      | eq ↦ from_version_zero fault exists db
      | _ ↦ (ok tt, db)
    ]
  ]

  -- `migrate`: the answer, and the file after it. The query of the version may fail, or the
  -- transaction.
  unfoldable pub migrate :
      Option E → Option E → E → Database → Result (Unit {0}) (MemoryError E P) × Database
  migrate none fault exists db = from_version fault exists db
  migrate (some e) fault exists db = (err (sqlite e), db)
