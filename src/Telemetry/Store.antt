-- ===== src/Telemetry/Store.antt =====
-- crates/ts-telemetry/src/lib.rs: `TelemetryStore` on its four tables. A fault is the failure to check
-- a connection out, or the first call to SQLite that fails, which leaves the tables as they were.
pub mod Sound
use token_shrinker.Prelude.{
  ℕ, Bool, true, false, ◌&&◌, not, Option, none, some, List, [], ◌∷◌, ◌++◌, length, any, filter,
  ltb, if◌then◌else◌, Result, ok, err, ◌>>=◌, ◌>>◌,
}
use Prim.Native.Nat.Ordering.{lt, eq, gt}
use token_shrinker.Prelude.Bytes.{Bytes, ascii, eq_bytes}
use token_shrinker.Prelude.Integers.{ℤ, pos, leb_int, compare_int}
use token_shrinker.Types.RequestId.{RequestId}
use token_shrinker.Types.Route
use token_shrinker.Telemetry.{
  RequestEvent, TokenEvent, ProviderEvent, ArtifactEvent, status_as_str, direction_as_str,
  TelemetryError, integrity, pool, sqlite, validate_label, validate_hash, to_i64,
}

pub record RequestRow : Type 0 where
  pub id : Bytes
  pub session_id : Bytes
  pub agent : Bytes
  pub mode : Bytes
  pub started_at_ms : ℤ
  pub duration_ms : ℕ
  pub status : Bytes

pub record TokenRow : Type 0 where
  pub request_id : Bytes
  pub stage : Bytes
  pub direction : Bytes
  pub raw_tokens : ℕ
  pub optimized_tokens : ℕ
  pub tokenizer : Bytes
  pub exact : Bool
  pub created_at_ms : ℤ

pub record ProviderRow : Type 0 where
  pub request_id : Bytes
  pub provider : Bytes
  pub operation : Bytes
  pub duration_ms : ℕ
  pub status : Bytes
  pub warning_code : Option Bytes

pub record ArtifactRow : Type 0 where
  pub request_id : Bytes
  pub kind : Bytes
  pub content_hash : Bytes
  pub byte_count : ℕ
  pub expires_at_ms : ℤ

-- The tables.
pub record Tables : Type 0 where
  pub requests : List RequestRow
  pub token_events : List TokenRow
  pub provider_events : List ProviderRow
  pub artifacts : List ArtifactRow

pub record PruneReport : Type 0 where
  pub requests : ℕ
  pub artifacts : ℕ

-- `INSERT INTO requests … ON CONFLICT(id) DO UPDATE SET …`
unfoldable pub upsert_request : RequestRow → List RequestRow → List RequestRow
upsert_request row [] = row ∷ []
upsert_request row (r ∷ rows) =
    let rest = upsert_request row rows in if eq_bytes r.id row.id then row ∷ rows else r ∷ rest

-- A request with the identifier is there.
abbrev pub has_request : Bytes → List RequestRow → Bool
has_request id = any (λ r. eq_bytes r.id id)

-- `DELETE FROM requests WHERE …`, and what `ON DELETE CASCADE` deletes with it.
unfoldable pub delete_requests : (RequestRow → Bool) → Tables → ℕ × Tables
delete_requests condition t =
    let gone = filter condition t.requests in
    let kept : Bytes → Bool = λ id. not (has_request id gone) in
    (
      length gone,
      record {
        requests = filter (λ r. not (condition r)) t.requests;
        token_events = filter (λ e. kept e.request_id) t.token_events;
        provider_events = filter (λ e. kept e.request_id) t.provider_events;
        artifacts = filter (λ e. kept e.request_id) t.artifacts;
      },
    )

-- `DELETE FROM artifacts WHERE expires_at_ms <= ?1`
unfoldable pub delete_artifacts : ℤ → Tables → ℕ × Tables
delete_artifacts now_ms t =
    let expired : ArtifactRow → Bool = λ a. leb_int a.expires_at_ms now_ms in
    (
      length (filter expired t.artifacts),
      record t { artifacts = filter (λ a. not (expired a)) t.artifacts },
    )

-- `started_at_ms < ?1` is the contrary of `?1 <= started_at_ms`.
abbrev pub started_before : ℤ → RequestRow → Bool
started_before cutoff r = not (leb_int cutoff r.started_at_ms)

unfoldable pub pruned : ℤ → ℕ × Tables → PruneReport × Tables
unfolding delete_requests
pruned request_cutoff_ms (artifacts, t) =
    let (requests, next) = delete_requests (started_before request_cutoff_ms) t in
    (record { requests = requests; artifacts = artifacts }, next)

abbrev pub any_removed : ℕ × Tables → Bool × Tables
any_removed (removed, t) = (ltb 0 removed, t)

module _ {E P : Type 0} where
  -- `?` on a check that comes before the tables are touched.
  abbrev pub checked :
      {S T : Type 0}
      → Tables
      → Result S (TelemetryError E P)
      → (S → Result T (TelemetryError E P) × Tables)
      → Result T (TelemetryError E P) × Tables
  checked t (err e) k = (err e, t)
  checked t (ok value) k = k value

  -- `self.pool.get()`
  abbrev pub connected :
      {T : Type 0}
      → Option P
      → Tables
      → Result T (TelemetryError E P) × Tables
      → Result T (TelemetryError E P) × Tables
  connected none t done = done
  connected (some e) t done = (err (pool e), t)

  abbrev pub executed :
      {T : Type 0} → Option E → Tables → T × Tables → Result T (TelemetryError E P) × Tables
  executed none t (answer, next) = (ok answer, next)
  executed (some e) t done = (err (sqlite e), t)

  -- An `INSERT` into a table that references `requests`: `foreign_key` is SQLite's refusal where the
  -- request is not there.
  abbrev pub inserted :
      Option E → E → Bytes → Tables → Tables → Result (Unit {0}) (TelemetryError E P) × Tables
  inserted (some e) foreign_key id t next = (err (sqlite e), t)
  inserted none foreign_key id t next =
      if has_request id t.requests then (ok tt, next) else (err (sqlite foreign_key), t)

  unfoldable pub record_request :
      Option P → Option E → RequestEvent → Tables → Result (Unit {0}) (TelemetryError E P) × Tables
  unfolding validate_label to_i64 upsert_request
  record_request checkout fault event t =
      checked t (validate_label (ascii "session_id") event.session_id) (λ _.
        checked t (validate_label (ascii "agent") event.agent) (λ _.
          checked t (to_i64 event.duration_ms) (λ duration. connected checkout t (
            executed fault t (
              tt,
              record t {
                requests =
                    upsert_request
                      (record {
                        id = event.request_id.value;
                        session_id = event.session_id;
                        agent = event.agent;
                        mode = Route.as_str event.mode;
                        started_at_ms = event.started_at_ms;
                        duration_ms = duration;
                        status = status_as_str event.status;
                      })
                      t.requests;
              },
            )))))

  unfoldable pub record_tokens :
      Option P
      → Option E
      → E
      → TokenEvent
      → Tables
      → Result (Unit {0}) (TelemetryError E P) × Tables
  unfolding validate_label to_i64
  record_tokens checkout fault foreign_key event t =
      checked t (validate_label (ascii "stage") event.stage) (λ _.
        checked t (validate_label (ascii "tokenizer") event.tokenizer) (λ _. connected checkout t (
          checked t (to_i64 event.raw_tokens) (λ raw_tokens.
            checked t (to_i64 event.optimized_tokens) (λ optimized_tokens.
              inserted fault foreign_key event.request_id.value t (record t {
                token_events =
                    t.token_events
                    ++ (record {
                      request_id = event.request_id.value;
                      stage = event.stage;
                      direction = direction_as_str event.direction;
                      raw_tokens = raw_tokens;
                      optimized_tokens = optimized_tokens;
                      tokenizer = event.tokenizer;
                      exact = event.exact;
                      created_at_ms = event.created_at_ms;
                    }
                        ∷ []);
              }))))))

  abbrev pub validate_warning : Option Bytes → Result (Unit {0}) (TelemetryError E P)
  unfolding validate_label
  validate_warning none = ok tt
  validate_warning (some code) = validate_label (ascii "warning_code") code

  unfoldable pub record_provider :
      Option P
      → Option E
      → E
      → ProviderEvent
      → Tables
      → Result (Unit {0}) (TelemetryError E P) × Tables
  unfolding validate_label to_i64 validate_warning
  record_provider checkout fault foreign_key event t =
      checked t (validate_label (ascii "provider") event.provider) (λ _.
        checked t (validate_label (ascii "operation") event.operation) (λ _.
          checked t (validate_warning event.warning_code) (λ _. connected checkout t (
            checked t (to_i64 event.duration_ms) (λ duration_ms.
              inserted fault foreign_key event.request_id.value t (record t {
                provider_events =
                    t.provider_events
                    ++ (record {
                      request_id = event.request_id.value;
                      provider = event.provider;
                      operation = event.operation;
                      duration_ms = duration_ms;
                      status = status_as_str event.status;
                      warning_code = event.warning_code;
                    }
                        ∷ []);
              }))))))

  unfoldable pub record_artifact :
      Option P
      → Option E
      → E
      → ArtifactEvent
      → Tables
      → Result (Unit {0}) (TelemetryError E P) × Tables
  unfolding validate_label validate_hash to_i64
  record_artifact checkout fault foreign_key event t =
      checked t (validate_label (ascii "artifact_kind") event.kind) (λ _.
        checked t (validate_hash event.content_hash) (λ _. connected checkout t (
          checked t (to_i64 event.byte_count) (λ byte_count.
            inserted fault foreign_key event.request_id.value t (record t {
              artifacts =
                  t.artifacts
                  ++ (record {
                    request_id = event.request_id.value;
                    kind = event.kind;
                    content_hash = event.content_hash;
                    byte_count = byte_count;
                    expires_at_ms = event.expires_at_ms;
                  }
                      ∷ []);
            })))))

  unfoldable pub prune :
      Option P → Option E → ℤ → ℤ → Tables → Result PruneReport (TelemetryError E P) × Tables
  unfolding delete_artifacts pruned
  prune checkout fault request_cutoff_ms now_ms t =
      connected checkout t (executed fault t (pruned request_cutoff_ms (delete_artifacts now_ms t)))

  unfoldable pub forget_request :
      Option P → Option E → RequestId → Tables → Result Bool (TelemetryError E P) × Tables
  unfolding delete_requests
  forget_request checkout fault request_id t =
      connected checkout t
        (executed fault t (any_removed (delete_requests (λ r. eq_bytes r.id request_id.value) t)))

  -- On what `PRAGMA quick_check` answers.
  unfoldable pub integrity_check :
      Option P → Option E → Bytes → Result (Unit {0}) (TelemetryError E P)
  integrity_check (some e) fault answer = err (pool e)
  integrity_check none (some e) answer = err (sqlite e)
  integrity_check none none answer =
      if eq_bytes answer (ascii "ok") then ok tt else err (integrity answer)
