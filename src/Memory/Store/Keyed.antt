-- ===== src/Memory/Store/Keyed.antt =====
-- The table as a map from identifiers: what the statements do to the row under an identifier.
use mathlib.Core.Option.{some-injective}
use token_shrinker.Prelude.{
  ◌≡◌, refl, ◌∙◌, Bool, true, false, Option, none, some, [], ◌∷◌, filter, if◌then◌else◌, arith,
  Bool-cases, inl, inr,
}
use token_shrinker.Prelude.Bytes.{Bytes, eq_bytes, eq_bytes_iff}
use token_shrinker.Memory.Rows.{MemoryRow, Table, upsert}

-- The first row with the identifier.
unfoldable pub lookup : Bytes → Table → Option MemoryRow
lookup id [] = none
lookup id (r ∷ table) = let rest = lookup id table in if eq_bytes r.id id then some r else rest

-- No two rows have the same identifier: `id TEXT PRIMARY KEY`.
abbrev pub IsKeyed : Table → Type 0
IsKeyed [] = Unit
IsKeyed (r ∷ table) = (lookup r.id table ≡ none) × IsKeyed table

-- `Option::filter`
abbrev pub filter_option : (MemoryRow → Bool) → Option MemoryRow → Option MemoryRow
filter_option p none = none
filter_option p (some r) = if p r then some r else none

pub eq_bytes_sym : (x y : Bytes) → eq_bytes x y ≡ eq_bytes y x
eq_bytes_sym x y = ground (arith, eq_bytes_iff x y, eq_bytes_iff y x)

pub lookup-upsert :
    (id : Bytes) (row : MemoryRow) (table : Table)
    → lookup id (upsert row table) ≡ (if eq_bytes row.id id then some row else lookup id table)
unfolding lookup upsert
lookup-upsert id row [] = refl
lookup-upsert id row (r ∷ table) = elim (Bool-cases (eq_bytes r.id row.id)) [
  | inl e ↦ let same : r.id ≡ row.id = (eq_bytes_iff r.id row.id).0 e in rw (e, same) (ground arith)
  | inr e ↦ rw e (
      ground (
        arith,
        e,
        lookup-upsert id row table,
        eq_bytes_iff r.id id,
        eq_bytes_iff row.id id,
        eq_bytes_iff r.id row.id,
      ))
]

pub upsert-IsKeyed : (row : MemoryRow) (table : Table) → IsKeyed table → IsKeyed (upsert row table)
unfolding lookup upsert
upsert-IsKeyed row [] k = (refl, tt)
upsert-IsKeyed row (r ∷ table) (n, k) = elim (Bool-cases (eq_bytes r.id row.id)) [
  | inl e ↦ let same : r.id ≡ row.id = (eq_bytes_iff r.id row.id).0 e in rw e (rw same at n, k)
  | inr e ↦
      let other : eq_bytes row.id r.id ≡ false = eq_bytes_sym row.id r.id ∙ e in
      rw e (lookup-upsert r.id row table ∙ (rw other n), upsert-IsKeyed row table k)
]

lookup-filter-none :
    (id : Bytes) (p : MemoryRow → Bool) (table : Table)
    → lookup id table ≡ none
    → lookup id (filter p table) ≡ none
unfolding lookup
lookup-filter-none id p [] n = refl
lookup-filter-none id p (r ∷ table) n = ground (arith, lookup-filter-none id p table)

pub filter-IsKeyed :
    (p : MemoryRow → Bool) (table : Table) → IsKeyed table → IsKeyed (filter p table)
filter-IsKeyed p [] k = tt
filter-IsKeyed p (r ∷ table) (n, k) = elim (Bool-cases (p r)) [
  | inl e ↦ rw e (lookup-filter-none r.id p table n, filter-IsKeyed p table k)
  | inr e ↦ rw e (filter-IsKeyed p table k)
]

-- Where identifiers are unique, deleting rows is deleting what stands under their identifiers.
pub lookup-filter :
    (id : Bytes) (p : MemoryRow → Bool) (table : Table)
    → IsKeyed table
    → lookup id (filter p table) ≡ filter_option p (lookup id table)
unfolding lookup
lookup-filter id p [] k = refl
lookup-filter id p (r ∷ table) (n, k) = elim (Bool-cases (eq_bytes r.id id)) [
  | inl e ↦
      let same : r.id ≡ id = (eq_bytes_iff r.id id).0 e in
      let gone = lookup-filter-none id p table (rw same at n) in rw e (ground (arith, e, gone))
  | inr e ↦ rw e (ground (arith, e, lookup-filter id p table k))
]

pub lookup-id :
    (id : Bytes) (table : Table) (r : MemoryRow)
    → lookup id table ≡ some r
    → eq_bytes r.id id ≡ true
unfolding lookup
lookup-id id [] r h = cc
lookup-id id (x ∷ table) r h = elim (Bool-cases (eq_bytes x.id id)) [
  | inl e ↦ let same : x ≡ r = some-injective x r (rw e at h) in rw (← same) e
  | inr e ↦ lookup-id id table r (rw e at h)
]
