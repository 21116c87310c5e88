-- ===== src/Update/Verified.antt =====
-- A report rests on a verified manifest, and names the newest compatible release.
use token_shrinker.Prelude.{
  ◌≡◌, ap, ◌&&◌, ◌||◌, not, Option, none, some, List, ◌==◌, ==_iff, arith, ok, ok_or, >>=-eq-ok,
  >>-eq-ok, ok_injective, refuse_if-eq-ok, map_err, map_err-eq-ok,
}
use token_shrinker.Prelude.Bytes.{Bytes, ascii, eq_bytes, eq_bytes_iff, is_empty}
use token_shrinker.Prelude.Map.{get}
use token_shrinker.Prelude.Order.{Le}
use token_shrinker.Update.{
  Release, Component, CompatibilityManifest, Libraries, UpdateError, json, time, base64, signature,
  schema_version, unsigned, unknown_key, expired, component_not_found, source_mismatch,
  protocol_incompatible, manifest_schema_version, is_greater, parse_time, unsigned_of,
  verify_signature, verify_manifest,
}
use token_shrinker.Update.Check.{
  UpdateQuery, UpdateReport, find, version_of, compatible_releases, select_release, report_of,
  check_component, check_manifest, check_update,
}

module _ (L : Libraries) (manifest : CompatibilityManifest)
    (trusted_keys : List (Bytes × L.VerifyingKey)) where
  -- A trusted key verifies the signature of the manifest without its signature.
  pub record IsSigned : Type 0 where
    pub key : L.VerifyingKey
    pub trusted : get manifest.signature.key_id trusted_keys ≡ some key
    pub signature_bytes : Bytes
    pub decoded : L.decode manifest.signature.value ≡ ok signature_bytes
    pub parsed : L.Signature
    pub well_formed : L.signature_from_slice signature_bytes ≡ ok parsed
    pub payload : Bytes
    pub encoded : L.to_vec (unsigned_of L manifest) ≡ ok payload
    pub verified : L.verify_strict key payload parsed ≡ ok tt

  -- The manifest has the known schema, is in its time window, and is signed with a trusted key.
  pub record IsVerified (now : L.Time) : Type 0 where
    pub schema : manifest.schema_version ≡ manifest_schema_version
    pub algorithm : manifest.signature.algorithm ≡ ascii "ed25519"
    pub generated : L.Time
    pub generated_parsed : L.parse_rfc3339 manifest.generated_at ≡ ok generated
    pub expires : L.Time
    pub expires_parsed : L.parse_rfc3339 manifest.expires_at ≡ ok expires
    pub begun : Le L.cmp_time generated now
    pub not_over : Le L.cmp_time now expires
    pub signed : IsSigned

  ok_or-eq-ok :
      {T : Type 0} (o : Option T) (e : UpdateError L) (t : T) → ok_or o e ≡ ok t → o ≡ some t
  ok_or-eq-ok none e t h = cc
  ok_or-eq-ok (some x) e t h = ap some (ok_injective x t h)

  verify_signature-eq-ok : verify_signature L manifest trusted_keys ≡ ok tt → IsSigned
  unfolding verify_signature
  verify_signature-eq-ok h =
      let (key, k, h1) =
        >>=-eq-ok (ok_or (get manifest.signature.key_id trusted_keys) unknown_key) _ h in
      let (bytes, b, h2) = >>=-eq-ok (map_err base64 (L.decode manifest.signature.value)) _ h1 in
      let (parsed, p, h3) = >>=-eq-ok (map_err signature (L.signature_from_slice bytes)) _ h2 in
      let (payload, j, h4) = >>=-eq-ok (map_err json (L.to_vec (unsigned_of L manifest))) _ h3 in
      record {
        key = key;
        trusted = ok_or-eq-ok (get manifest.signature.key_id trusted_keys) unknown_key key k;
        signature_bytes = bytes;
        decoded = map_err-eq-ok base64 (L.decode manifest.signature.value) bytes b;
        parsed = parsed;
        well_formed = map_err-eq-ok signature (L.signature_from_slice bytes) parsed p;
        payload = payload;
        encoded = map_err-eq-ok json (L.to_vec (unsigned_of L manifest)) payload j;
        verified = map_err-eq-ok signature (L.verify_strict key payload parsed) tt h4;
      }

  verify_manifest-eq-ok :
      (now : L.Time) → verify_manifest L manifest trusted_keys now ≡ ok tt → IsVerified now
  unfolding verify_manifest
  verify_manifest-eq-ok now h =
      let (schema, h1) =
        refuse_if-eq-ok (not (manifest.schema_version == manifest_schema_version))
          (schema_version manifest.schema_version) _ h in
      let (algorithm, h2) =
        refuse_if-eq-ok
          (not (eq_bytes manifest.signature.algorithm (ascii "ed25519"))
            || is_empty manifest.signature.value)
          unsigned _ h1 in
      let (generated, g, h3) = >>=-eq-ok (parse_time L manifest.generated_at) _ h2 in
      let (expires, e, h4) = >>=-eq-ok (parse_time L manifest.expires_at) _ h3 in
      let (window, h5) =
        refuse_if-eq-ok
          (is_greater (L.cmp_time generated expires)
            || (is_greater (L.cmp_time generated now) || is_greater (L.cmp_time now expires)))
          expired (verify_signature L manifest trusted_keys) h4 in
      record {
        schema =
            (==_iff manifest.schema_version manifest_schema_version).0 (ground (arith, schema));
        algorithm =
            (eq_bytes_iff manifest.signature.algorithm (ascii "ed25519")).0
              (ground (arith, algorithm));
        generated = generated;
        generated_parsed = map_err-eq-ok time (L.parse_rfc3339 manifest.generated_at) generated g;
        expires = expires;
        expires_parsed = map_err-eq-ok time (L.parse_rfc3339 manifest.expires_at) expires e;
        begun = ground (arith, window);
        not_over = ground (arith, window);
        signed = verify_signature-eq-ok h5;
      }

module _ (L : Libraries) (trusted_keys : List (Bytes × L.VerifyingKey))
    (query : UpdateQuery L) where
  -- The report names the component of the query, which has the source of the query.
  pub record IsReport (manifest : CompatibilityManifest) (report : UpdateReport) : Type 0 where
    pub component : Component
    pub listed : find (λ c. eq_bytes c.id query.component) manifest.components ≡ some component
    pub source : component.authoritative_source ≡ query.authoritative_source
    pub installed : L.Version
    pub parsed : version_of L query.installed_version ≡ ok installed
    pub compatible : List (L.Version × Release)
    pub gathered : compatible_releases L query.protocol component.releases ≡ ok compatible
    pub answer : report_of L query component (select_release L installed compatible) ≡ report

  check_component-eq-ok :
      (manifest : CompatibilityManifest) (component : Component) (report : UpdateReport)
      → find (λ c. eq_bytes c.id query.component) manifest.components ≡ some component
      → check_component L query component ≡ ok report
      → IsReport manifest report
  unfolding check_component
  check_component-eq-ok manifest component report f h =
      let (source, h1) =
        refuse_if-eq-ok (not (eq_bytes component.authoritative_source query.authoritative_source))
          source_mismatch _ h in
      let (installed, i, h2) = >>=-eq-ok (version_of L query.installed_version) _ h1 in
      let (compatible, c, h3) =
        >>=-eq-ok (compatible_releases L query.protocol component.releases) _ h2 in
      let (some_compatible, h4) =
        refuse_if-eq-ok (is_empty compatible && not (is_empty component.releases))
          protocol_incompatible
          (ok (report_of L query component (select_release L installed compatible))) h3 in
      record {
        component = component;
        listed = f;
        source =
            (eq_bytes_iff component.authoritative_source query.authoritative_source).0
              (ground (arith, source));
        installed = installed;
        parsed = i;
        compatible = compatible;
        gathered = c;
        answer = ok_injective _ report h4;
      }

  check_update-eq-ok :
      (manifest_json : Bytes) (report : UpdateReport)
      → check_update L manifest_json trusted_keys query ≡ ok report
      → (manifest : CompatibilityManifest) × (L.from_slice manifest_json ≡ ok manifest)
        × IsVerified L manifest trusted_keys query.now
        × IsReport manifest report
  unfolding check_update check_manifest
  check_update-eq-ok manifest_json report h =
      let (manifest, m, h1) = >>=-eq-ok (map_err json (L.from_slice manifest_json)) _ h in
      let (verified, h2) =
        >>-eq-ok (verify_manifest L manifest trusted_keys query.now)
          (check_manifest L manifest query) h1 in
      let (component, c, h3) =
        >>=-eq-ok
          (ok_or (find (λ c. eq_bytes c.id query.component) manifest.components)
            component_not_found)
          (check_component L query) h2 in
      (
        manifest,
        map_err-eq-ok json (L.from_slice manifest_json) manifest m,
        verify_manifest-eq-ok L manifest trusted_keys query.now verified,
        check_component-eq-ok manifest component report
            (ok_or-eq-ok L manifest trusted_keys
              (find (λ c. eq_bytes c.id query.component) manifest.components) component_not_found
              component c)
            h3,
      )

  -- A report is given only from a manifest that parses, has the known schema, is within its time
  -- window, and whose signature a trusted key of its name verifies over its other fields.
  pub check_update-IsVerified :
      (manifest_json : Bytes) (report : UpdateReport)
      → check_update L manifest_json trusted_keys query ≡ ok report
      → (manifest : CompatibilityManifest) × (L.from_slice manifest_json ≡ ok manifest)
        × IsVerified L manifest trusted_keys query.now
  check_update-IsVerified manifest_json report h =
      let (manifest, m, v, _) = check_update-eq-ok manifest_json report h in (manifest, m, v)
