-- ===== src/Update/Check.antt =====
-- crates/ts-update/src/lib.rs: `check_update`, which reports the newest compatible release.
use token_shrinker.Prelude.{
  Ordering, Bool, true, ◌&&◌, not, Option, none, some, List, [], ◌∷◌, if◌then◌else◌, Result, ok,
  ok_or, ◌>>=◌, ◌>>◌, refuse_if, map_err,
}
use token_shrinker.Prelude.Bytes.{Bytes, eq_bytes, is_empty}
use token_shrinker.Prelude.Sort.{sort_by}
use token_shrinker.Types.Protocol.{ProtocolVersion}
use token_shrinker.Update.{
  Ownership, action, ProtocolRange, Artifact, Release, Component, CompatibilityManifest, Libraries,
  UpdateError, json, version, component_not_found, source_mismatch, protocol_incompatible,
  is_greater, verify_manifest,
}

pub record UpdateQuery (L : Libraries) : Type 0 where
  pub component : Bytes
  pub installed_version : Bytes
  pub authoritative_source : Bytes
  pub platform : Bytes
  pub protocol : ProtocolVersion
  pub now : L.Time

pub record UpdateReport : Type 0 where
  pub component : Bytes
  pub installed_version : Bytes
  pub available_version : Option Bytes
  pub ownership : Ownership
  pub action : Option Bytes
  pub artifact : Option Artifact
  pub read_only : Bool

-- `iter().find(p)`
abbrev pub find {ℓ} : {A : Type ℓ} → (A → Bool) → List A → Option A
find p [] = none
find p (x ∷ xs) = let rest = find p xs in if p x then some x else rest

module _ (L : Libraries) where
  abbrev pub version_of : Bytes → Result L.Version (UpdateError L)
  version_of value = map_err version (L.parse_version value)

  unfoldable pub protocol_matches : ProtocolRange → ProtocolVersion → Result Bool (UpdateError L)
  protocol_matches range protocol = do
    min ← version_of range.min
    max ← version_of range.max
    let current = L.new_version protocol.major protocol.minor 0
    ok (
        not (is_greater (L.cmp_version min current))
        && not (is_greater (L.cmp_version current max)))

  -- The loop over the releases.
  unfoldable pub compatible_releases :
      ProtocolVersion → List Release → Result (List (L.Version × Release)) (UpdateError L)
  unfolding protocol_matches
  compatible_releases protocol [] = ok []
  compatible_releases protocol (release ∷ releases) = version_of release.version >>= (λ parsed.
      protocol_matches release.protocol protocol >>= (λ matches.
        compatible_releases protocol releases
        >>= (λ rest. ok (if matches then (parsed, release) ∷ rest else rest))))

  -- The comparison of `compatible.sort_by`.
  abbrev pub newest_first : L.Version × Release → L.Version × Release → Ordering
  newest_first left right = L.cmp_version right.0 left.0

  -- The newest compatible release, if it is newer than the installed version.
  unfoldable pub select_release :
      L.Version → List (L.Version × Release) → Option (L.Version × Release)
  unfolding sort_by
  select_release installed compatible =
      find (λ c. is_greater (L.cmp_version c.0 installed)) (sort_by newest_first compatible)

  unfoldable pub report_of : UpdateQuery L → Component → Option (L.Version × Release) → UpdateReport
  unfolding action
  report_of query component none = record {
    component = component.id;
    installed_version = query.installed_version;
    available_version = none;
    ownership = component.ownership;
    action = none;
    artifact = none;
    read_only = true;
  }
  report_of query component (some (_, release)) = record {
    component = component.id;
    installed_version = query.installed_version;
    available_version = some release.version;
    ownership = component.ownership;
    action = some (action component.ownership component.id release.version);
    artifact = find (λ a. eq_bytes a.platform query.platform) release.artifacts;
    read_only = true;
  }

  -- From the component on.
  unfoldable pub check_component : UpdateQuery L → Component → Result UpdateReport (UpdateError L)
  unfolding compatible_releases select_release report_of
  check_component query component =
      refuse_if (not (eq_bytes component.authoritative_source query.authoritative_source))
        source_mismatch
      >> (version_of query.installed_version >>= (λ installed.
          compatible_releases query.protocol component.releases >>= (λ compatible.
            refuse_if (is_empty compatible && not (is_empty component.releases))
              protocol_incompatible
            >> ok (report_of query component (select_release installed compatible)))))

  unfoldable pub check_manifest :
      CompatibilityManifest → UpdateQuery L → Result UpdateReport (UpdateError L)
  unfolding check_component
  check_manifest manifest query =
      ok_or (find (λ c. eq_bytes c.id query.component) manifest.components) component_not_found
      >>= check_component query

  unfoldable pub check_update :
      Bytes → List (Bytes × L.VerifyingKey) → UpdateQuery L → Result UpdateReport (UpdateError L)
  unfolding verify_manifest check_manifest
  check_update manifest_json trusted_keys query =
      map_err json (L.from_slice manifest_json) >>= (λ manifest.
        verify_manifest L manifest trusted_keys query.now >> check_manifest manifest query)
