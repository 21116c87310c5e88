-- ===== src/Memory/Store/Queries.antt =====
-- What `search` returns, and what pruning does to it.
use mathlib.Core.Path.{fun_ext}
use token_shrinker.Prelude.{
  ==_iff, ℕ, min, ◌≡◌, refl, ap, ◌∙◌, Bool, true, false, not, Option, none, some, List, [], length,
  take, filter, All, ◌==◌, if◌then◌else◌, arith, Bool-cases, inl, inr, ok, ◌>>=◌, >>=-eq-ok,
  ok_injective, length-map, length-take,
}
use token_shrinker.Prelude.Bytes.{Bytes, ascii, eq_bytes_iff, is_empty}
use token_shrinker.Prelude.Integers.{ℤ, leb_int, leb_int_trans}
use token_shrinker.Prelude.Filters.{All-map, All-filter, All-take, length-sort_by, filter-filter}
use token_shrinker.Prelude.Sort.{sort_by, All-sort_by}
use token_shrinker.Prelude.Unicode.{Unicode}
use token_shrinker.Memory.{MemoryScope, user, repository, MemoryRecord, expires_by, database_parts}
use token_shrinker.Memory.Rows.{
  MemoryRow, Table, is_expired, has_text, by_time, record_of, collect_records, is_hit, select,
  delete,
}
use token_shrinker.Memory.Store.{
  FullText, uses_fts5, matcher, order_of, found, run_query, search, prune_expired,
}

-- The record is in the scope, has not expired, and its content matches.
pub record IsHit (scope : MemoryScope) (now : ℤ) (matches : Bytes → Bool) (r : MemoryRecord)
    : Type 0 where
  pub scoped : r.scope ≡ scope
  pub unexpired : expires_by now r.expires_at_unix_ms ≡ false
  pub matching : matches r.content ≡ true

-- The columns of a scope.
abbrev pub columns_of : MemoryScope → Bytes × Bytes
columns_of user = (ascii "user", [])
columns_of (repository key) = (ascii "repository", key)

database_parts-eq-ok :
    {E P : Type 0} (scope : MemoryScope) (parts : Bytes × Bytes)
    → database_parts {E = E} {P = P} scope ≡ ok parts
    → columns_of scope ≡ parts
unfolding database_parts
database_parts-eq-ok user parts h = ok_injective _ _ h
database_parts-eq-ok (repository key) parts h = elim (Bool-cases (is_empty key)) [
  | inl e ↦ let refused = (rw e at h) in cc
  | inr e ↦ ok_injective _ _ (rw e at h)
]

is_hit-IsHit :
    (scope : MemoryScope) (matches : Bytes → Bool) (now : ℤ) (r : MemoryRow)
    → is_hit (columns_of scope) matches now r ≡ true
    → IsHit scope now matches (record_of r)
unfolding is_hit
is_hit-IsHit user matches now r h = record {
  scoped = ground (arith, h);
  unexpired = ground (arith, h);
  matching = ground (arith, h);
}
is_hit-IsHit (repository key) matches now r h =
    let kind : r.scope_kind ≡ ascii "repository" =
      (eq_bytes_iff r.scope_kind (ascii "repository")).0 (ground (arith, h)) in
    let same : r.scope_key ≡ key = (eq_bytes_iff r.scope_key key).0 (ground (arith, h)) in
    record {
      scoped = rw (kind, same) refl;
      unexpired = ground (arith, h);
      matching = ground (arith, h);
    }

-- How many rows are in the scope, have not expired and match.
abbrev pub hits : MemoryScope → ℤ → (Bytes → Bool) → Table → ℕ
hits scope now matches table = length (filter (is_hit (columns_of scope) matches now) table)

module _ (unicode : Unicode) (full_text : FullText) (fts5_available : Bool) (scope : MemoryScope)
    (query : Bytes) (now : ℤ) (limit : ℕ) (table : Table) where
  abbrev pub wanted : Bytes → Bool
  wanted = matcher unicode full_text (uses_fts5 unicode fts5_available query) query

  IsAnswer : List MemoryRecord → Type 0
  IsAnswer records =
      All (IsHit scope now wanted) records
      × (length records ≡ min limit (hits scope now wanted table))

  found-IsAnswer :
      IsAnswer (found unicode full_text fts5_available (columns_of scope) query now limit table)
  unfolding found select IsAnswer
  found-IsAnswer =
      let order = order_of unicode full_text (uses_fts5 unicode fts5_available query) query table in
      let rows = filter (is_hit (columns_of scope) wanted now) table in
      (
        All-map (λ r. is_hit (columns_of scope) wanted now r ≡ true) (IsHit scope now wanted)
            record_of (is_hit-IsHit scope wanted now) (take limit (sort_by order rows))
            (All-take (λ r. is_hit (columns_of scope) wanted now r ≡ true) limit
              (sort_by order rows)
              (All-sort_by order (λ r. is_hit (columns_of scope) wanted now r ≡ true) rows
                (All-filter (is_hit (columns_of scope) wanted now) table))),
        length-map record_of (take limit (sort_by order rows))
            ∙ length-take limit (sort_by order rows)
            ∙ ap (min limit) (length-sort_by order rows),
      )

  -- The records that `search` answers with are in its scope, have not expired and match its query,
  -- and there are as many as the table has, or `limit`.
  pub search-eq-ok :
      {E P : Type 0} (fault : Option E) (records : List MemoryRecord)
      → search {E = E} {P = P} unicode full_text fault fts5_available scope query now limit table
        ≡ ok records
      → All (IsHit scope now wanted) records
        × (length records ≡ min limit (hits scope now wanted table))
  unfolding search IsAnswer
  search-eq-ok {E = E} {P = P} fault records h = elim (Bool-cases (limit == 0)) [
    | inl e ↦
        let none_asked : limit ≡ 0 = (==_iff limit 0).0 e in
        let empty : [] ≡ records = ok_injective _ _ (rw e at h) in
        rw (← empty, none_asked) (tt, omega arith)
    | inr e ↦
        let (parts, scoped, ran) =
          >>=-eq-ok (database_parts {E = E} {P = P} scope)
            (λ p. run_query fault (found unicode full_text fts5_available p query now limit table))
            (rw e at h) in
        answered fault parts (database_parts-eq-ok {E = E} {P = P} scope parts scoped) ran
  ]
    where
      answered :
          (f : Option E) (parts : Bytes × Bytes)
          → columns_of scope ≡ parts
          → run_query {P = P} f (found unicode full_text fts5_available parts query now limit table)
            ≡ ok records
          → IsAnswer records
      answered none parts c ran = rw (← ok_injective _ _ ran, ← c) found-IsAnswer
      answered (some x) parts c ran = cc

expires_by-later :
    (now later : ℤ) (expiration : Option ℤ)
    → leb_int now later ≡ true
    → expires_by later expiration ≡ false
    → expires_by now expiration ≡ false
expires_by-later now later none h e = refl
expires_by-later now later (some x) h e = ground (arith, leb_int_trans x now later)

is_hit-later :
    (scope : Bytes × Bytes) (matches : Bytes → Bool) (now later : ℤ) (r : MemoryRow)
    → leb_int now later ≡ true
    → is_hit scope matches later r ≡ true
    → not (is_expired now r) ≡ true
unfolding is_hit
is_hit-later scope matches now later r h e =
    ground (arith, e, expires_by-later now later r.expires_at_ms h)

module _ (unicode : Unicode) (full_text : FullText) (fts5_available : Bool) (query : Bytes)
    (now later : ℤ) (h : leb_int now later ≡ true)
    (plain : uses_fts5 unicode fts5_available query ≡ false) where
  found-prune_expired :
      (scope : Bytes × Bytes) (limit : ℕ) (table : Table)
      → found unicode full_text fts5_available scope query later limit
          (filter (λ r. not (is_expired now r)) table)
        ≡ found unicode full_text fts5_available scope query later limit table
  unfolding found select
  found-prune_expired scope limit table = rw plain (
      ap (λ rows. collect_records (take limit (sort_by by_time rows)))
        (filter-filter (is_hit scope (has_text query) later) (λ r. not (is_expired now r)) table
          (λ r. is_hit-later scope (has_text query) now later r h)))

  -- Pruning does not change what a later search by text finds.
  pub search-prune_expired :
      {E P : Type 0} (fault : Option E) (scope : MemoryScope) (limit : ℕ) (table : Table)
      → search {E = E} {P = P} unicode full_text fault fts5_available scope query later limit
          (prune_expired {E = E} {P = P} none now table).1
        ≡ search {E = E} {P = P} unicode full_text fault fts5_available scope query later limit
            table
  unfolding search prune_expired delete
  search-prune_expired {E = E} {P = P} fault scope limit table =
      ap
        (λ (rows : Bytes × Bytes → List MemoryRecord).
          if limit == 0
          then ok []
          else database_parts {E = E} {P = P} scope >>= (λ parts. run_query fault (rows parts)))
        (fun_ext (λ parts. found-prune_expired parts limit table))
