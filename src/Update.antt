-- ===== src/Update.antt =====
-- crates/ts-update/src/lib.rs: the compatibility manifest, its verification and `verify_artifact`.
pub mod Check
pub mod Verified
pub mod Artifacts
pub mod Newest
use Prim.Native.Nat.{bit_or, bit_xor}
use Prim.Native.Nat.Ordering.{lt, eq, gt}
use mathlib.Core.Option
use token_shrinker.Prelude.{
  ℕ, zero, suc, max, Ordering, Bool, true, false, ◌&&◌, ◌||◌, not, Option, none, some, List, [],
  ◌∷◌, ◌++◌, length, get_elem?, ◌==◌, if◌then◌else◌, Result, ok, err, ok_or, ◌>>=◌, ◌>>◌, refuse_if,
  map_err,
}
use token_shrinker.Prelude.Bytes.{Bytes, ascii, is_empty, eq_bytes}
use token_shrinker.Prelude.Map.{get}
use token_shrinker.Types.Protocol.{ProtocolVersion}
use token_shrinker.Context.ContentHash.{hex}

pub data Ownership : Type 0 where
  npm cargo manual external token_shrinker_managed : Ownership

pub data Channel : Type 0 where
  stable beta alpha : Channel

-- `Ownership::action`
unfoldable pub action : Ownership → Bytes → Bytes → Bytes
action npm component version = ascii "npm install " ++ (component ++ (ascii "@" ++ version))
action cargo component version =
    ascii "cargo install " ++ (component ++ (ascii " --version " ++ version))
action manual component version =
    ascii "download "
    ++ (component ++ (ascii " " ++ (version ++ ascii " from its authoritative source")))
action external component version =
    ascii "update " ++ (component ++ ascii " with its external owner")
action token_shrinker_managed component version =
    ascii "managed activation for "
    ++ (component ++ (ascii " " ++ (version ++ ascii " is not enabled in v1")))

pub record ProtocolRange : Type 0 where
  pub min : Bytes
  pub max : Bytes

pub record Artifact : Type 0 where
  pub platform : Bytes
  pub url : Bytes
  pub sha256 : Bytes

pub record Release : Type 0 where
  pub version : Bytes
  pub channel : Channel
  pub protocol : ProtocolRange
  pub artifacts : List Artifact

pub record Component : Type 0 where
  pub id : Bytes
  pub authoritative_source : Bytes
  pub ownership : Ownership
  pub releases : List Release

pub record ManifestSignature : Type 0 where
  pub algorithm : Bytes
  pub key_id : Bytes
  pub value : Bytes

pub record CompatibilityManifest : Type 0 where
  pub schema_version : ℕ
  pub generated_at : Bytes
  pub expires_at : Bytes
  pub components : List Component
  pub signature : ManifestSignature

pub record UnsignedManifest : Type 0 where
  pub schema_version : ℕ
  pub generated_at : Bytes
  pub expires_at : Bytes
  pub components : List Component

-- The crates `serde_json`, `base64`, `ed25519_dalek`, `semver`, `time` and `sha2`.
pub record Libraries : Type 1 where
  pub JsonError : Type 0
  pub DecodeError : Type 0
  pub SignatureError : Type 0
  pub TimeError : Type 0
  pub VersionError : Type 0
  pub Version : Type 0
  pub Time : Type 0
  pub VerifyingKey : Type 0
  pub Signature : Type 0
  pub from_slice : Bytes → Result CompatibilityManifest JsonError
  pub to_vec : UnsignedManifest → Result Bytes JsonError
  pub decode : Bytes → Result Bytes DecodeError
  pub signature_from_slice : Bytes → Result Signature SignatureError
  pub verify_strict : VerifyingKey → Bytes → Signature → Result (Unit {0}) SignatureError
  pub parse_version : Bytes → Result Version VersionError
  pub new_version : ℕ → ℕ → ℕ → Version
  pub cmp_version : Version → Version → Ordering
  pub parse_rfc3339 : Bytes → Result Time TimeError
  pub cmp_time : Time → Time → Ordering
  pub sha256_digest : Bytes → Bytes

pub data UpdateError (L : Libraries) : Type 0 where
  json : L.JsonError → UpdateError L
  schema_version : ℕ → UpdateError L
  unsigned unknown_key expired component_not_found source_mismatch protocol_incompatible :
      UpdateError L
  base64 : L.DecodeError → UpdateError L
  signature : L.SignatureError → UpdateError L
  time : L.TimeError → UpdateError L
  version : L.VersionError → UpdateError L

abbrev pub manifest_schema_version : ℕ
manifest_schema_version = 1

abbrev pub is_greater : Ordering → Bool
is_greater gt = true
is_greater _ = false

module _ (L : Libraries) where
  abbrev pub parse_time : Bytes → Result L.Time (UpdateError L)
  parse_time value = map_err time (L.parse_rfc3339 value)

  abbrev pub unsigned_of : CompatibilityManifest → UnsignedManifest
  unsigned_of manifest = record {
    schema_version = manifest.schema_version;
    generated_at = manifest.generated_at;
    expires_at = manifest.expires_at;
    components = manifest.components;
  }

  -- From the key on.
  unfoldable pub verify_signature :
      CompatibilityManifest → List (Bytes × L.VerifyingKey) → Result (Unit {0}) (UpdateError L)
  unfolding get
  verify_signature manifest trusted_keys = do
    key ← ok_or (get manifest.signature.key_id trusted_keys) unknown_key
    signature_bytes ← map_err base64 (L.decode manifest.signature.value)
    parsed ← map_err signature (L.signature_from_slice signature_bytes)
    payload ← map_err json (L.to_vec (unsigned_of manifest))
    map_err signature (L.verify_strict key payload parsed)

  unfoldable pub verify_manifest :
      CompatibilityManifest
      → List (Bytes × L.VerifyingKey)
      → L.Time
      → Result (Unit {0}) (UpdateError L)
  unfolding verify_signature
  verify_manifest manifest trusted_keys now =
      refuse_if (not (manifest.schema_version == manifest_schema_version))
        (schema_version manifest.schema_version)
      >> (refuse_if
            (not (eq_bytes manifest.signature.algorithm (ascii "ed25519"))
              || is_empty manifest.signature.value)
            unsigned
          >> (parse_time manifest.generated_at >>= (λ generated.
              parse_time manifest.expires_at >>= (λ expires.
                refuse_if
                  (is_greater (L.cmp_time generated expires)
                    || (is_greater (L.cmp_time generated now)
                        || is_greater (L.cmp_time now expires)))
                  expired
                >> verify_signature manifest trusted_keys))))

-- `left.get(index).copied().unwrap_or_default()`
abbrev pub byte_at : Bytes → ℕ → ℕ
byte_at bytes index = elim (get_elem? bytes index) [ none ↦ 0 | some b ↦ b ]

-- The loop of `constant_time_eq`, over `count` indices from `index` on.
unfoldable pub padded_difference : ℕ → Bytes → Bytes → ℕ → ℕ → ℕ
padded_difference difference left right index zero = difference
padded_difference difference left right index (suc count) =
    padded_difference (bit_or difference (bit_xor (byte_at left index) (byte_at right index))) left
      right (suc index) count

unfoldable pub constant_time_eq : Bytes → Bytes → Bool
unfolding padded_difference
constant_time_eq left right =
    padded_difference (bit_xor (length left) (length right)) left right 0
      (max (length left) (length right))
    == 0

-- `verify_artifact`; `lowercase_hex` is the loop of `hex`.
unfoldable pub verify_artifact : (Bytes → Bytes) → Bytes → Artifact → Bool
unfolding hex constant_time_eq
verify_artifact sha256 bytes artifact = constant_time_eq (hex (sha256 bytes)) artifact.sha256
