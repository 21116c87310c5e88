-- ===== src/Telemetry/Store/Sound/Calls.antt =====
-- Every call keeps the tables sound, and a request that is forgotten leaves nothing behind.
use token_shrinker.Prelude.{
  ℕ, ◌≡◌, refl, sym, any, ◌∙◌, true, false, not, Option, none, some, List, [], ◌∷◌, filter, ◌^◌,
  ok_injective, ltb, arith, Bool-cases, inl, inr, Result, ok, err,
}
use token_shrinker.Prelude.Bytes.{Bytes, eq_bytes, eq_bytes_iff, ascii}
use token_shrinker.Prelude.Integers.{ℤ}
use token_shrinker.Types.RequestId.{RequestId}
use token_shrinker.Telemetry.{
  RequestEvent, TokenEvent, ProviderEvent, ArtifactEvent, TelemetryError, is_refused_label, is_hash,
  validate_label, validate_hash, to_i64,
}
use token_shrinker.Telemetry.Store.{
  RequestRow, TokenRow, ProviderRow, ArtifactRow, Tables, has_request, checked, connected, executed,
  inserted, record_request, record_tokens, record_provider, record_artifact, validate_warning,
  prune, forget_request, delete_artifacts, started_before, pruned, delete_requests,
}
use token_shrinker.Telemetry.Store.Sound.{
  IsLabel, IsI64, IsWarning, IsOwned, TokenIsClean, ProviderIsClean, ArtifactIsClean, IsSound,
  add_tokens-IsSound, add_provider-IsSound, add_artifact-IsSound, delete_artifacts-IsSound,
  upsert_request-IsSound, delete_requests-IsSound,
}

abbrev pub no_rows : Tables
no_rows = record { requests = []; token_events = []; provider_events = []; artifacts = [] }

-- One call of `TelemetryStore` that may change the tables, with its failures.
pub data Step (E P : Type 0) : Tables → Tables → Type 0 where
  requested :
      (checkout : Option P) (fault : Option E) (event : RequestEvent) (t : Tables)
      → Step E P t (record_request checkout fault event t).1
  tokens_recorded :
      (checkout : Option P) (fault : Option E) (foreign_key : E) (event : TokenEvent) (t : Tables)
      → Step E P t (record_tokens checkout fault foreign_key event t).1
  provider_recorded :
      (checkout : Option P) (fault : Option E) (foreign_key : E) (event : ProviderEvent)
      (t : Tables)
      → Step E P t (record_provider checkout fault foreign_key event t).1
  artifact_recorded :
      (checkout : Option P) (fault : Option E) (foreign_key : E) (event : ArtifactEvent)
      (t : Tables)
      → Step E P t (record_artifact checkout fault foreign_key event t).1
  pruned_at :
      (checkout : Option P) (fault : Option E) (request_cutoff_ms now_ms : ℤ) (t : Tables)
      → Step E P t (prune checkout fault request_cutoff_ms now_ms t).1
  forgotten :
      (checkout : Option P) (fault : Option E) (request_id : RequestId) (t : Tables)
      → Step E P t (forget_request checkout fault request_id t).1

-- The tables that calls lead to from those of a new store.
pub data Reach (E P : Type 0) : Tables → Type 0 where
  opened : Reach E P no_rows
  next : {t u : Tables} → Reach E P t → Step E P t u → Reach E P u

module _ {E : Type 0} where
  executed-IsSound :
      (P : Type 0) {T : Type 0} (fault : Option E) (t : Tables) (done : T × Tables)
      → IsSound t
      → IsSound done.1
      → IsSound (executed {P = P} fault t done).1
  executed-IsSound P none t done s d = d
  executed-IsSound P (some e) t done s d = s

  inserted-IsSound :
      (P : Type 0) (fault : Option E) (foreign_key : E) (id : Bytes) (t u : Tables)
      → IsSound t
      → (has_request id t.requests ≡ true → IsSound u)
      → IsSound (inserted {P = P} fault foreign_key id t u).1
  inserted-IsSound P (some e) foreign_key id t u s d = s
  inserted-IsSound P none foreign_key id t u s d = elim (Bool-cases (has_request id t.requests)) [
    | inl e ↦ rw e (d e)
    | inr e ↦ rw e s
  ]

module _ {E P : Type 0} where
  -- Where each way through a call leads to sound tables, so does the call.
  checked-IsSound :
      {S T : Type 0} (t : Tables) (r : Result S (TelemetryError E P))
      (k : S → Result T (TelemetryError E P) × Tables)
      → IsSound t
      → ((value : S) → r ≡ ok value → IsSound (k value).1)
      → IsSound (checked t r k).1
  checked-IsSound t (err e) k s h = s
  checked-IsSound t (ok value) k s h = h value refl

  connected-IsSound :
      {T : Type 0} (checkout : Option P) (t : Tables)
      (done : Result T (TelemetryError E P) × Tables)
      → IsSound t
      → IsSound done.1
      → IsSound (connected checkout t done).1
  connected-IsSound none t done s d = d
  connected-IsSound (some e) t done s d = s

  validate_label-eq-ok :
      (field value : Bytes) (u : Unit {0})
      → validate_label {E = E} {P = P} field value ≡ ok u
      → IsLabel value
  unfolding validate_label
  validate_label-eq-ok field value u h = elim (Bool-cases (is_refused_label value)) [
    | inl e ↦ let refused = (rw e at h) in cc
    | inr e ↦ e
  ]

  validate_hash-eq-ok :
      (value : Bytes) (u : Unit {0})
      → validate_hash {E = E} {P = P} value ≡ ok u
      → is_hash value ≡ true
  unfolding validate_hash
  validate_hash-eq-ok value u h = elim (Bool-cases (is_hash value)) [
    | inl e ↦ e
    | inr e ↦ let refused = (rw e at h) in cc
  ]

  to_i64-eq-ok : (value n : ℕ) → to_i64 {E = E} {P = P} value ≡ ok n → IsI64 n
  unfolding to_i64
  to_i64-eq-ok value n h = elim (Bool-cases (ltb value (2 ^ 63))) [
    | inl e ↦ rw (← ok_injective value n (rw e at h)) e
    | inr e ↦ let refused = (rw e at h) in cc
  ]

  validate_warning-eq-ok :
      (code : Option Bytes) (u : Unit {0})
      → validate_warning {E = E} {P = P} code ≡ ok u
      → IsWarning code
  unfolding validate_warning
  validate_warning-eq-ok none u h = tt
  validate_warning-eq-ok (some code) u h = validate_label-eq-ok (ascii "warning_code") code u h

  Step-IsSound : {t u : Tables} → Step E P t u → IsSound t → IsSound u
  unfolding record_request record_tokens record_provider record_artifact prune pruned
      delete_artifacts forget_request
  Step-IsSound (requested checkout fault event t) s = checked-IsSound t _ _ s (λ u session.
      checked-IsSound t _ _ s (λ v agent. checked-IsSound t _ _ s (λ duration fits.
        connected-IsSound checkout t _ s (
          executed-IsSound P fault t _ s (
            upsert_request-IsSound t _
              (
                validate_label-eq-ok (ascii "session_id") event.session_id u session,
                validate_label-eq-ok (ascii "agent") event.agent v agent,
                to_i64-eq-ok event.duration_ms duration fits,
              )
              s)))))
  Step-IsSound (tokens_recorded checkout fault foreign_key event t) s =
      checked-IsSound t _ _ s (λ u stage. checked-IsSound t _ _ s (λ v tokenizer.
        connected-IsSound checkout t _ s (
          checked-IsSound t _ _ s (λ raw raw_fits.
            checked-IsSound t _ _ s (λ optimized optimized_fits.
              inserted-IsSound P fault foreign_key event.request_id.value t _ s (λ there.
                add_tokens-IsSound t _
                  (
                    (
                      validate_label-eq-ok (ascii "stage") event.stage u stage,
                      validate_label-eq-ok (ascii "tokenizer") event.tokenizer v tokenizer,
                      to_i64-eq-ok event.raw_tokens raw raw_fits,
                      to_i64-eq-ok event.optimized_tokens optimized optimized_fits,
                    ),
                    there,
                  )
                  s))))))
  Step-IsSound (provider_recorded checkout fault foreign_key event t) s =
      checked-IsSound t _ _ s (λ u provider. checked-IsSound t _ _ s (λ v operation.
        checked-IsSound t _ _ s (λ w warning. connected-IsSound checkout t _ s (
          checked-IsSound t _ _ s (λ duration fits.
            inserted-IsSound P fault foreign_key event.request_id.value t _ s (λ there.
              add_provider-IsSound t _
                (
                  (
                    validate_label-eq-ok (ascii "provider") event.provider u provider,
                    validate_label-eq-ok (ascii "operation") event.operation v operation,
                    validate_warning-eq-ok event.warning_code w warning,
                    to_i64-eq-ok event.duration_ms duration fits,
                  ),
                  there,
                )
                s))))))
  Step-IsSound (artifact_recorded checkout fault foreign_key event t) s =
      checked-IsSound t _ _ s (λ u kind. checked-IsSound t _ _ s (λ v hash.
        connected-IsSound checkout t _ s (
          checked-IsSound t _ _ s (λ count fits.
            inserted-IsSound P fault foreign_key event.request_id.value t _ s (λ there.
              add_artifact-IsSound t _
                (
                  (
                    validate_label-eq-ok (ascii "artifact_kind") event.kind u kind,
                    validate_hash-eq-ok event.content_hash v hash,
                    to_i64-eq-ok event.byte_count count fits,
                  ),
                  there,
                )
                s)))))
  Step-IsSound (pruned_at checkout fault request_cutoff_ms now_ms t) s =
      connected-IsSound checkout t _ s (
        executed-IsSound P fault t _ s (
          delete_requests-IsSound (started_before request_cutoff_ms) (delete_artifacts now_ms t).1
            (delete_artifacts-IsSound now_ms t s)))
  Step-IsSound (forgotten checkout fault request_id t) s = connected-IsSound checkout t _ s (
      executed-IsSound P fault t _ s
        (delete_requests-IsSound (λ r. eq_bytes r.id request_id.value) t s))

  -- Whatever calls are made on a new store, and wherever they fail, every row holds labels and hashes
  -- that passed their checks and numbers that fit a column, and every token event, provider event
  -- and artifact has its request.
  pub Reach-IsSound : {t : Tables} → Reach E P t → IsSound t
  Reach-IsSound opened = record { requests = tt; tokens = tt; providers = tt; artifacts = tt }
  Reach-IsSound (next r step) = Step-IsSound step (Reach-IsSound r)

has_request-filter-not :
    (id : Bytes) (rows : List RequestRow)
    → has_request id (filter (λ r. not (eq_bytes r.id id)) rows) ≡ false
has_request-filter-not id [] = refl
has_request-filter-not id (r ∷ rows) = ground (arith, has_request-filter-not id rows)

-- Rows that have their requests do not name a request that is not there.
IsOwned-unnamed :
    {R : Type 0} (request_of : R → Bytes) (IsClean : R → Type 0) (id : Bytes)
    (rows : List RequestRow) (es : List R)
    → IsOwned request_of IsClean rows es
    → has_request id rows ≡ false
    → any (λ e. eq_bytes (request_of e) id) es ≡ false
IsOwned-unnamed request_of IsClean id rows [] a n = refl
IsOwned-unnamed request_of IsClean id rows (e ∷ es) ((c, h), a) n =
    elim (Bool-cases (eq_bytes (request_of e) id)) [
      | inl x ↦
          let same : request_of e ≡ id = (eq_bytes_iff (request_of e) id).0 x in
          let both : true ≡ false = sym (rw same at h) ∙ n in absurd (ground (arith, both))
      | inr x ↦ rw x (IsOwned-unnamed request_of IsClean id rows es a n)
    ]

-- When a request is forgotten without a failure, no row of the four tables names it any more.
pub forget_request_erases :
    {E P : Type 0} {t : Tables}
    → Reach E P t
    → (request_id : RequestId)
    → let u = (forget_request {E = E} {P = P} none none request_id t).1 in
      (has_request request_id.value u.requests ≡ false)
      × (any (λ e. eq_bytes e.request_id request_id.value) u.token_events ≡ false)
      × (any (λ e. eq_bytes e.request_id request_id.value) u.provider_events ≡ false)
      × (any (λ e. eq_bytes e.request_id request_id.value) u.artifacts ≡ false)
unfolding forget_request delete_requests
forget_request_erases {E = E} {P = P} {t = t} r request_id =
    let u : Tables = (forget_request {E = E} {P = P} none none request_id t).1 in
    let s : IsSound u = Reach-IsSound (next r (forgotten none none request_id t)) in
    let gone : has_request request_id.value u.requests ≡ false =
      has_request-filter-not request_id.value t.requests in
    (
      gone,
      IsOwned-unnamed TokenRow.request_id TokenIsClean request_id.value u.requests u.token_events
          s.tokens gone,
      IsOwned-unnamed ProviderRow.request_id ProviderIsClean request_id.value u.requests
          u.provider_events s.providers gone,
      IsOwned-unnamed ArtifactRow.request_id ArtifactIsClean request_id.value u.requests u.artifacts
          s.artifacts gone,
    )
