-- ===== src/Memory/Store/Refinement.antt =====
-- `MemoryStore` implements a map from identifiers to rows.
use mathlib.Core.Path.{fun_ext}
use token_shrinker.Prelude.{
  ◌≡◌, refl, ap, ◌∙◌, true, not, Option, none, some, List, [], ◌∷◌, if◌then◌else◌, arith, Result,
  ok, err, ◌>>◌,
}
use token_shrinker.Prelude.Bytes.{Bytes, eq_bytes, eq_bytes_iff}
use token_shrinker.Prelude.Integers.{ℤ}
use token_shrinker.Memory.{MemoryError, NewMemory, database_parts, validate_memory}
use token_shrinker.Memory.Rows.{MemoryRow, Table, is_expired, row_of}
use token_shrinker.Memory.Store.{store_row, remember, forget, prune_expired}
use token_shrinker.Memory.Store.Keyed.{
  lookup, IsKeyed, filter_option, lookup-upsert, upsert-IsKeyed, filter-IsKeyed, lookup-filter,
  lookup-id,
}

-- One call of a store, with the fault that its transaction meets if it meets one.
pub data Operation (E : Type 0) : Type 0 where
  remembered : Option E → NewMemory → Operation E
  forgotten : Option E → Bytes → Operation E
  pruned : Option E → ℤ → Operation E

-- What a map of the rows does.
abbrev pub Rows : Type 0
Rows = Bytes → Option MemoryRow

abbrev rows_of : Table → Rows
rows_of table id = lookup id table

forgotten_lem :
    (gone id : Bytes) (o : Option MemoryRow)
    → ((r : MemoryRow) → o ≡ some r → eq_bytes r.id id ≡ true)
    → filter_option (λ r. not (eq_bytes r.id gone)) o ≡ (if eq_bytes gone id then none else o)
forgotten_lem gone id none h = ground arith
forgotten_lem gone id (some r) h =
    ground (arith, h r refl, eq_bytes_iff r.id id, eq_bytes_iff r.id gone, eq_bytes_iff gone id)

module _ {E : Type 0} (P : Type 0) where
  -- The table after one operation.
  abbrev pub perform : Operation E → Table → Table
  perform (remembered fault m) table = (remember {P = P} fault m table).1
  perform (forgotten fault id) table = (forget {P = P} fault id table).1
  perform (pruned fault now) table = (prune_expired {P = P} fault now table).1

  abbrev pub perform_all : List (Operation E) → Table → Table
  perform_all [] table = table
  perform_all (o ∷ os) table = perform_all os (perform o table)

  abbrev put : NewMemory → Result (Bytes × Bytes) (MemoryError E P) → Rows → Rows
  put m (err _) rows id = rows id
  put m (ok parts) rows id = if eq_bytes m.id id then some (row_of m parts) else rows id

  -- The map after one operation: a fault changes nothing; an accepted memory takes the place of what
  -- its identifier had; the identifier to forget has nothing; what has expired is gone.
  abbrev pub specify : Operation E → Rows → Rows
  specify (remembered none m) rows id = put m (validate_memory m >> database_parts m.scope) rows id
  specify (remembered (some _) m) rows id = rows id
  specify (forgotten none gone) rows id = if eq_bytes gone id then none else rows id
  specify (forgotten (some _) gone) rows id = rows id
  specify (pruned none now) rows id = filter_option (λ r. not (is_expired now r)) (rows id)
  specify (pruned (some _) now) rows id = rows id

  abbrev pub specify_all : List (Operation E) → Rows → Rows
  specify_all [] rows = rows
  specify_all (o ∷ os) rows = specify_all os (specify o rows)

  remembered-IsKeyed :
      (fault : Option E) (m : NewMemory) (table : Table)
      (checked : Result (Bytes × Bytes) (MemoryError E P))
      → IsKeyed table
      → IsKeyed (store_row fault m table checked).1
  remembered-IsKeyed fault m table (err e) k = k
  remembered-IsKeyed none m table (ok parts) k = upsert-IsKeyed (row_of m parts) table k
  remembered-IsKeyed (some e) m table (ok parts) k = k

  perform-IsKeyed : (o : Operation E) (table : Table) → IsKeyed table → IsKeyed (perform o table)
  unfolding remember forget prune_expired
  perform-IsKeyed (remembered fault m) table k =
      remembered-IsKeyed fault m table (validate_memory m >> database_parts m.scope) k
  perform-IsKeyed (forgotten none id) table k = filter-IsKeyed (λ r. not (eq_bytes r.id id)) table k
  perform-IsKeyed (forgotten (some e) id) table k = k
  perform-IsKeyed (pruned none now) table k = filter-IsKeyed (λ r. not (is_expired now r)) table k
  perform-IsKeyed (pruned (some e) now) table k = k

  remembered_lem :
      (m : NewMemory) (table : Table) (checked : Result (Bytes × Bytes) (MemoryError E P))
      (id : Bytes)
      → lookup id (store_row none m table checked).1 ≡ put m checked (rows_of table) id
  remembered_lem m table (err e) id = refl
  remembered_lem m table (ok parts) id = lookup-upsert id (row_of m parts) table

  remembered_fault :
      (e : E) (m : NewMemory) (table : Table) (checked : Result (Bytes × Bytes) (MemoryError E P))
      → (store_row (some e) m table checked).1 ≡ table
  remembered_fault e m table (err _) = refl
  remembered_fault e m table (ok parts) = refl

  perform_lem :
      (o : Operation E) (table : Table) (id : Bytes)
      → IsKeyed table
      → lookup id (perform o table) ≡ specify o (rows_of table) id
  unfolding remember forget prune_expired
  perform_lem (remembered none m) table id k =
      remembered_lem m table (validate_memory m >> database_parts m.scope) id
  perform_lem (remembered (some e) m) table id k =
      ap (lookup id) (remembered_fault e m table (validate_memory m >> database_parts m.scope))
  perform_lem (forgotten none gone) table id k =
      lookup-filter id (λ r. not (eq_bytes r.id gone)) table k
      ∙ forgotten_lem gone id (lookup id table) (lookup-id id table)
  perform_lem (forgotten (some e) gone) table id k = refl
  perform_lem (pruned none now) table id k = lookup-filter id (λ r. not (is_expired now r)) table k
  perform_lem (pruned (some e) now) table id k = refl

  perform_all_lem :
      (os : List (Operation E)) (table : Table) (id : Bytes)
      → IsKeyed table
      → lookup id (perform_all os table) ≡ specify_all os (rows_of table) id
  perform_all_lem [] table id k = refl
  perform_all_lem (o ∷ os) table id k =
      perform_all_lem os (perform o table) id (perform-IsKeyed o table k)
      ∙ ap (λ rows. specify_all os rows id) (fun_ext (λ i. perform_lem o table i k))

  -- After any sequence of `remember`, `forget` and `prune_expired`, faults included, on a new store,
  -- the table has under each identifier what the map has that these operations specify.
  pub perform_all-specify_all :
      (os : List (Operation E)) (id : Bytes)
      → lookup id (perform_all os []) ≡ specify_all os (λ _. none) id
  unfolding lookup
  perform_all-specify_all os id = perform_all_lem os [] id tt
