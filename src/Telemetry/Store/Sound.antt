-- ===== src/Telemetry/Store/Sound.antt =====
-- Every row belongs to a request, and holds no content.
pub mod Calls
use token_shrinker.Prelude.{
  ℕ, ◌^◌, ◌≡◌, refl, ◌<◌, Bool, true, false, ◌||◌, not, Option, none, some, List, [], ◌∷◌, ◌++◌,
  All-append, any, filter, All, All-imp, ltb, if◌then◌else◌, arith, Bool-cases, inl, inr,
}
use token_shrinker.Prelude.Bytes.{Bytes, eq_bytes, eq_bytes_iff}
use token_shrinker.Prelude.Integers.{ℤ, leb_int}
use token_shrinker.Prelude.Filters.{All-filter_all}
use token_shrinker.Telemetry.{is_refused_label, is_hash}
use token_shrinker.Telemetry.Store.{
  RequestRow, TokenRow, ProviderRow, ArtifactRow, Tables, has_request, upsert_request,
  delete_requests, delete_artifacts,
}

-- The label passed `validate_label`; the number fits a column.
abbrev pub IsLabel : Bytes → Type 0
IsLabel label = is_refused_label label ≡ false

abbrev pub IsI64 : ℕ → Type 0
IsI64 n = ltb n (2 ^ 63) ≡ true

abbrev pub IsWarning : Option Bytes → Type 0
IsWarning none = Unit
IsWarning (some code) = IsLabel code

abbrev pub RequestIsClean : RequestRow → Type 0
RequestIsClean r = IsLabel r.session_id × IsLabel r.agent × IsI64 r.duration_ms

abbrev pub TokenIsClean : TokenRow → Type 0
TokenIsClean e =
    IsLabel e.stage × IsLabel e.tokenizer × IsI64 e.raw_tokens × IsI64 e.optimized_tokens

abbrev pub ProviderIsClean : ProviderRow → Type 0
ProviderIsClean e =
    IsLabel e.provider × IsLabel e.operation × IsWarning e.warning_code × IsI64 e.duration_ms

abbrev pub ArtifactIsClean : ArtifactRow → Type 0
ArtifactIsClean a = IsLabel a.kind × (is_hash a.content_hash ≡ true) × IsI64 a.byte_count

-- A request is among those that a condition takes or among the others.
has_request-others :
    (condition : RequestRow → Bool) (id : Bytes) (rows : List RequestRow)
    → has_request id rows ≡ true
    → has_request id (filter condition rows) ≡ false
    → has_request id (filter (λ r. not (condition r)) rows) ≡ true
has_request-others condition id [] h n = cc
has_request-others condition id (r ∷ rows) h n =
    ground (arith, has_request-others condition id rows)

pub has_request-upsert_request :
    (row : RequestRow) (rows : List RequestRow) (id : Bytes)
    → has_request id (upsert_request row rows) ≡ (eq_bytes row.id id || has_request id rows)
unfolding upsert_request
has_request-upsert_request row [] id = refl
has_request-upsert_request row (r ∷ rows) id = elim (Bool-cases (eq_bytes r.id row.id)) [
  | inl e ↦ let same : r.id ≡ row.id = (eq_bytes_iff r.id row.id).0 e in rw (e, same) (ground arith)
  | inr e ↦ rw e (ground (arith, has_request-upsert_request row rows id))
]

All-upsert_request :
    (P : RequestRow → Type 0) (row : RequestRow) (rows : List RequestRow)
    → P row
    → All P rows
    → All P (upsert_request row rows)
unfolding upsert_request
All-upsert_request P row [] p a = (p, tt)
All-upsert_request P row (r ∷ rows) p (q, a) = ground (arith, All-upsert_request P row rows p a)

-- The rows of a table with requests: each is clean, and its request is there.
module _ {R : Type 0} (request_of : R → Bytes) (IsClean : R → Type 0) where
  abbrev pub IsOwned : List RequestRow → List R → Type 0
  IsOwned requests = All (λ e. IsClean e × (has_request (request_of e) requests ≡ true))

  pub IsOwned-imp :
      (rows later : List RequestRow)
      → ((id : Bytes) → has_request id rows ≡ true → has_request id later ≡ true)
      → (es : List R) → IsOwned rows es
      → IsOwned later es
  IsOwned-imp rows later f [] a = tt
  IsOwned-imp rows later f (e ∷ es) ((c, h), a) =
      ((c, f (request_of e) h), IsOwned-imp rows later f es a)

  pub IsOwned-filter :
      (p : R → Bool) (rows : List RequestRow) (es : List R)
      → IsOwned rows es
      → IsOwned rows (filter p es)
  IsOwned-filter p rows [] a = tt
  IsOwned-filter p rows (e ∷ es) (h, a) = elim (Bool-cases (p e)) [
    | inl x ↦ rw x (h, IsOwned-filter p rows es a)
    | inr x ↦ rw x (IsOwned-filter p rows es a)
  ]

  -- What a cascade leaves has its request among those that stay.
  pub IsOwned-cascade :
      (condition : RequestRow → Bool) (rows : List RequestRow) (es : List R)
      → IsOwned rows es
      → IsOwned
          (filter (λ r. not (condition r)) rows)
          (filter (λ e. not (has_request (request_of e) (filter condition rows))) es)
  IsOwned-cascade condition rows [] a = tt
  IsOwned-cascade condition rows (e ∷ es) ((c, h), a) =
      elim (Bool-cases (has_request (request_of e) (filter condition rows))) [
        | inl x ↦ rw x (IsOwned-cascade condition rows es a)
        | inr x ↦ rw x (
          (c, has_request-others condition (request_of e) rows h x),
          IsOwned-cascade condition rows es a,
        )
      ]

-- Every row is clean, and every event and artifact has its request.
pub record IsSound (t : Tables) : Type 0 where
  pub requests : All RequestIsClean t.requests
  pub tokens : IsOwned TokenRow.request_id TokenIsClean t.requests t.token_events
  pub providers : IsOwned ProviderRow.request_id ProviderIsClean t.requests t.provider_events
  pub artifacts : IsOwned ArtifactRow.request_id ArtifactIsClean t.requests t.artifacts

pub upsert_request-IsSound :
    (t : Tables) (row : RequestRow)
    → RequestIsClean row
    → IsSound t
    → IsSound (record t { requests = upsert_request row t.requests })
upsert_request-IsSound t row c s =
    let later : (id : Bytes)
        → has_request id t.requests ≡ true
        → has_request id (upsert_request row t.requests) ≡ true =
      λ id h. ground (arith, h, has_request-upsert_request row t.requests id) in
    record {
      requests = All-upsert_request RequestIsClean row t.requests c s.requests;
      tokens =
          IsOwned-imp TokenRow.request_id TokenIsClean t.requests (upsert_request row t.requests)
            later t.token_events s.tokens;
      providers =
          IsOwned-imp ProviderRow.request_id ProviderIsClean t.requests
            (upsert_request row t.requests) later t.provider_events s.providers;
      artifacts =
          IsOwned-imp ArtifactRow.request_id ArtifactIsClean t.requests
            (upsert_request row t.requests) later t.artifacts s.artifacts;
    }

pub delete_requests-IsSound :
    (condition : RequestRow → Bool) (t : Tables)
    → IsSound t
    → IsSound (delete_requests condition t).1
unfolding delete_requests
delete_requests-IsSound condition t s = record {
  requests = All-filter_all RequestIsClean (λ r. not (condition r)) t.requests s.requests;
  tokens =
      IsOwned-cascade TokenRow.request_id TokenIsClean condition t.requests t.token_events s.tokens;
  providers =
      IsOwned-cascade ProviderRow.request_id ProviderIsClean condition t.requests t.provider_events
        s.providers;
  artifacts =
      IsOwned-cascade ArtifactRow.request_id ArtifactIsClean condition t.requests t.artifacts
        s.artifacts;
}

pub add_tokens-IsSound :
    (t : Tables) (e : TokenRow)
    → TokenIsClean e × (has_request e.request_id t.requests ≡ true)
    → IsSound t
    → IsSound (record t { token_events = t.token_events ++ (e ∷ []) })
add_tokens-IsSound t e c s = record {
  requests = s.requests;
  providers = s.providers;
  artifacts = s.artifacts;
  tokens = All-append _ t.token_events (e ∷ []) s.tokens (c, tt);
}

pub add_provider-IsSound :
    (t : Tables) (e : ProviderRow)
    → ProviderIsClean e × (has_request e.request_id t.requests ≡ true)
    → IsSound t
    → IsSound (record t { provider_events = t.provider_events ++ (e ∷ []) })
add_provider-IsSound t e c s = record {
  requests = s.requests;
  tokens = s.tokens;
  artifacts = s.artifacts;
  providers = All-append _ t.provider_events (e ∷ []) s.providers (c, tt);
}

pub add_artifact-IsSound :
    (t : Tables) (e : ArtifactRow)
    → ArtifactIsClean e × (has_request e.request_id t.requests ≡ true)
    → IsSound t
    → IsSound (record t { artifacts = t.artifacts ++ (e ∷ []) })
add_artifact-IsSound t e c s = record {
  requests = s.requests;
  tokens = s.tokens;
  providers = s.providers;
  artifacts = All-append _ t.artifacts (e ∷ []) s.artifacts (c, tt);
}

pub delete_artifacts-IsSound :
    (now_ms : ℤ) (t : Tables) → IsSound t → IsSound (delete_artifacts now_ms t).1
unfolding delete_artifacts
delete_artifacts-IsSound now_ms t s = record {
  requests = s.requests;
  tokens = s.tokens;
  providers = s.providers;
  artifacts =
      IsOwned-filter ArtifactRow.request_id ArtifactIsClean
        (λ a. not (leb_int a.expires_at_ms now_ms)) t.requests t.artifacts s.artifacts;
}
