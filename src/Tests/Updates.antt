-- ===== src/Tests/Updates.antt =====
-- The update check at concrete inputs.
use token_shrinker.Prelude.{ℕ, ◌+◌, ◌≡◌, refl, true, some, List, [], ◌∷◌, compare, Result, ok, err}
use token_shrinker.Prelude.Bytes.{Bytes, ascii}
use token_shrinker.Prelude.Order.{cmp_bytes}
use token_shrinker.Update.{Libraries, CompatibilityManifest, Component, Release, cargo, stable}
use token_shrinker.Update.Check.{UpdateQuery, UpdateReport, check_update}
use token_shrinker.Update.Verified.{IsVerified, check_update-IsVerified}

abbrev release : Bytes → Release
release version = record {
  version = version;
  channel = stable;
  protocol = record { min = ascii "0"; max = ascii "9" };
  artifacts = record { platform = ascii "linux"; url = version; sha256 = ascii "0a" } ∷ [];
}

abbrev component : Component
component = record {
  id = ascii "ts";
  authoritative_source = ascii "src";
  ownership = cargo;
  releases = release (ascii "1") ∷ release (ascii "3") ∷ release (ascii "2") ∷ [];
}

abbrev manifest : CompatibilityManifest
manifest = record {
  schema_version = 1;
  generated_at = ascii "1";
  expires_at = ascii "5";
  components = component ∷ [];
  signature = record { algorithm = ascii "ed25519"; key_id = ascii "k"; value = ascii "s" };
}

abbrev digit : Bytes → Result ℕ (Unit {0})
digit [] = err tt
digit (b ∷ _) = ok b

-- Versions and times are single bytes, and every signature verifies.
abbrev libraries : Libraries
libraries = record {
  JsonError = Unit;
  DecodeError = Unit;
  SignatureError = Unit;
  TimeError = Unit;
  VersionError = Unit;
  Version = ℕ;
  Time = ℕ;
  VerifyingKey = Unit;
  Signature = Bytes;
  from_slice = λ _. ok manifest;
  to_vec = λ _. ok [];
  decode = ok;
  signature_from_slice = ok;
  verify_strict = λ _ _ _. ok tt;
  parse_version = digit;
  new_version = λ major minor patch. major + b'0';
  cmp_version = compare;
  parse_rfc3339 = digit;
  cmp_time = compare;
  sha256_digest = λ _. 10 ∷ [];
}

abbrev keys : List (Bytes × Unit {0})
keys = (ascii "k", tt) ∷ []

abbrev query : UpdateQuery libraries
query = record {
  component = ascii "ts";
  installed_version = ascii "1";
  authoritative_source = ascii "src";
  platform = ascii "linux";
  protocol = record { major = 1; minor = 0 };
  now = b'3';
}

abbrev report : UpdateReport
report = record {
  component = ascii "ts";
  installed_version = ascii "1";
  available_version = some (ascii "3");
  ownership = cargo;
  action = some (ascii "cargo install ts --version 3");
  artifact = some (record { platform = ascii "linux"; url = ascii "3"; sha256 = ascii "0a" });
  read_only = true;
}

reports : check_update libraries [] keys query ≡ ok report
unfolding check_update cmp_bytes
reports = refl

check_update-IsVerified_example :
    (m : CompatibilityManifest) × (libraries.from_slice [] ≡ ok m)
    × IsVerified libraries m keys query.now
check_update-IsVerified_example = check_update-IsVerified libraries keys query [] report reports
