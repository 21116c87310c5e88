-- ===== src/Tests/Artifacts.antt =====
-- The artifact store at concrete inputs.
use token_shrinker.Prelude.{◌≡◌, refl, ◌<◌, true, false, some, [], ◌∷◌, All, length, ok, arith}
use token_shrinker.Prelude.Bytes.{Bytes, ascii}
use token_shrinker.Prelude.Decimal.{decimal}
use token_shrinker.Repo.Redaction.{ends_with}
use token_shrinker.Prelude.Order.{cmp_bytes}
use token_shrinker.Prelude.Sort.{sort_by}
use token_shrinker.Compress.Artifacts.{
  RawArtifactStore, RawArtifactHandle, RawFile, Directory, Calls, RetainCalls, Effect,
  artifact_handle, artifact_file, handle_suffix, retain, fetch,
}
use token_shrinker.Compress.Artifacts.Retained.{
  IsRetained, retain-IsRetained, CanFetch, fetch-retain,
}
use token_shrinker.Compress.Artifacts.Success.{CallsSucceed, retain_succeeds}

abbrev store : RawArtifactStore
store = record { max_artifacts = 2; ttl = 100 }

abbrev digest : Bytes → Bytes
digest bytes = ascii "0123456789abcdef0123456789abcdef"

abbrev calls : Calls
calls = record {
  lists = true;
  stats = λ name. true;
  removes = λ name. true;
  reads = λ name. true;
  now = λ name. 50;
}

abbrev retaining : RetainCalls
retaining = record {
  pruning = calls;
  making_room = calls;
  counting = calls;
  millis = some 12;
  writes = true;
  written_at = 40;
  leaves = false;
  partial = [];
}

abbrev old_file : Bytes → RawFile
old_file name = record { name = name; modified = 10; bytes = ascii "old" }

-- A note stands beside the two artifacts, of which the older one makes room.
abbrev directory : Directory
directory =
    old_file (ascii "11-b.raw") ∷ old_file (ascii "10-a.raw") ∷ old_file (ascii "note.txt") ∷ []

abbrev content : Bytes
content = ascii "output"

run : Effect RawArtifactHandle
unfolding retain cmp_bytes sort_by
run = retain digest store retaining content directory

run_keeps : length run.1 ≡ 3
unfolding run decimal artifact_handle
run_keeps = refl

abbrev handle : RawArtifactHandle
handle = artifact_handle digest 12 content

run_retains : retain digest store retaining content directory ≡ (ok handle, run.1)
unfolding run decimal artifact_handle
run_retains = refl

retain-IsRetained_example :
    IsRetained digest store
      (omega arith)
      retaining
      content
      handle
      (λ file. file.modified < 11)
      run.1
retain-IsRetained_example =
    retain-IsRetained digest store (omega arith) (λ file. file.modified < 11) retaining content
      directory handle run.1 (omega arith) run_retains

no_other : All (λ file. ends_with file.name (handle_suffix handle.value) ≡ false) directory
unfolding artifact_handle
no_other = (refl, (refl, (refl, tt)))

can_fetch : CanFetch digest store (omega arith) calls (artifact_file digest 12 40 content)
can_fetch = record { lists = refl; stats = refl; reads = refl; young = omega arith }

fetch-retain_example : fetch store calls handle run.1 ≡ ok content
fetch-retain_example =
    fetch-retain digest store (omega arith) retaining calls 12 content directory handle run.1 refl
      refl (omega arith) no_other run_retains can_fetch

calls-CallsSucceed : CallsSucceed calls
calls-CallsSucceed = record { lists = refl; stats = λ name. refl; removes = λ name. refl }

retain_succeeds_example :
    (after : Directory) × (retain digest store retaining content directory ≡ (ok handle, after))
    × IsRetained digest store (omega arith) retaining content handle (λ file. Unit {0}) after
retain_succeeds_example =
    retain_succeeds digest store (omega arith) retaining 12 content directory calls-CallsSucceed
      calls-CallsSucceed calls-CallsSucceed refl refl
