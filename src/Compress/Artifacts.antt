-- ===== src/Compress/Artifacts.antt =====
-- crates/ts-compress/src/lib.rs: `RawArtifactStore`, which keeps raw outputs as files of one directory. The
-- directory is the list of its files, and which calls of the operating system fail is an argument.
pub mod Laws
pub mod Names
pub mod Removal
pub mod Retained
pub mod Success
use mathlib.Core.Option
use token_shrinker.Prelude.{
  ℕ, suc, ◌+◌, ◌-◌, Bool, true, false, ◌&&◌, ◌||◌, not, Option, none, some, List, [], ◌∷◌, ◌++◌,
  length, take, filter, all, ◌==◌, leb, if◌then◌else◌, Result, ok, err, ok_or, ◌>>=◌, ◌>>◌,
  refuse_if, Ordering,
}
use token_shrinker.Prelude.Bytes.{
  Bytes, ascii, eq_bytes, is_empty, is_ascii_hexdigit, is_ascii_uppercase,
}
use token_shrinker.Prelude.BigEndian.{to_be_bytes}
use token_shrinker.Prelude.Decimal.{decimal}
use token_shrinker.Prelude.Texts.{rsplit_once}
use token_shrinker.Prelude.Order.{cmp_bytes}
use token_shrinker.Prelude.Sort.{sort_by}
use token_shrinker.Context.ContentHash.{hex}
use token_shrinker.Repo.Redaction.{ends_with}

pub data ArtifactError : Type 0 where
  zero_limit invalid_handle not_found expired clock io : ArtifactError

pub record RawArtifactHandle : Type 0 where
  pub value : Bytes

-- `as_str`
abbrev pub as_str : RawArtifactHandle → Bytes
as_str handle = handle.value

-- The time to live and the times are in nanoseconds.
pub record RawArtifactStore : Type 0 where
  pub max_artifacts : ℕ
  pub ttl : ℕ

-- A file of the directory.
pub record RawFile : Type 0 where
  pub name : Bytes
  pub modified : ℕ
  pub bytes : Bytes

abbrev pub Directory : Type 0
Directory = List RawFile

-- Which calls succeed: `read_dir`, and `metadata`, `remove_file` and `read` by the name of the file; and the time
-- when a file is looked at.
pub record Calls : Type 0 where
  pub lists : Bool
  pub stats : Bytes → Bool
  pub removes : Bytes → Bool
  pub reads : Bytes → Bool
  pub now : Bytes → ℕ

-- `create_dir_all` and `canonicalize` succeed or fail together.
unfoldable pub open_store : Bool → ℕ → ℕ → Result RawArtifactStore ArtifactError
open_store opens max_artifacts ttl =
    refuse_if (max_artifacts == 0 || ttl == 0) zero_limit
    >> (refuse_if (not opens) io >> ok (record { max_artifacts = max_artifacts; ttl = ttl }))

abbrev pub is_raw_split : Option (Bytes × Bytes) → Bool
is_raw_split none = false
is_raw_split (some (stem, extension)) = not (is_empty stem) && eq_bytes extension (ascii "raw")

-- `path().extension().is_some_and(|ext| ext == "raw")`
unfoldable pub is_raw : Bytes → Bool
unfolding rsplit_once
is_raw name = is_raw_split (rsplit_once (ascii ".") name)

unfoldable pub entries : Calls → Directory → Result Directory ArtifactError
unfolding is_raw
entries calls directory =
    refuse_if (not calls.lists) io >> ok (filter (λ file. is_raw file.name) directory)

-- `duration_since(modified).unwrap_or_default() >= ttl`
unfoldable pub is_expired : RawArtifactStore → Calls → RawFile → Result Bool ArtifactError
is_expired self calls file =
    refuse_if (not (calls.stats file.name)) io
    >> ok (leb self.ttl (calls.now file.name - file.modified))

-- `remove_file` of a file that is there.
abbrev pub without : Bytes → Directory → Directory
without name directory = filter (λ file. not (eq_bytes file.name name)) directory

-- An operation on the directory: its result, and the directory afterwards.
abbrev pub Effect : Type 0 → Type 0
Effect A = Result A ArtifactError × Directory

unfoldable pub remove_file : Calls → Bytes → Directory → Effect (Unit {0})
remove_file calls name directory =
    if calls.removes name then (ok tt, without name directory) else (err io, directory)

abbrev pub then_effect : {A B : Type 0} → Effect A → (A → Directory → Effect B) → Effect B
then_effect (err e, directory) next = (err e, directory)
then_effect (ok a, directory) next = next a directory

-- The body of the loop of `prune`, on what `is_expired` says, and the loop.
abbrev pub drop_expired : Calls → Bytes → Result Bool ArtifactError → Directory → Effect ℕ
unfolding remove_file
drop_expired calls name (err e) directory = (err e, directory)
drop_expired calls name (ok false) directory = (ok 0, directory)
drop_expired calls name (ok true) directory =
    then_effect (remove_file calls name directory) (λ _ after. (ok 1, after))

unfoldable pub prune_loop : RawArtifactStore → Calls → ℕ → List RawFile → Directory → Effect ℕ
unfolding is_expired drop_expired
prune_loop self calls removed [] directory = (ok removed, directory)
prune_loop self calls removed (file ∷ files) directory =
    then_effect (drop_expired calls file.name (is_expired self calls file) directory)
      (λ one after. prune_loop self calls (removed + one) files after)

abbrev pub with_entries :
    {A : Type 0} → Calls → Directory → (List RawFile → Directory → Effect A) → Effect A
unfolding entries
with_entries calls directory next = then_effect (entries calls directory, directory) next

unfoldable pub prune : RawArtifactStore → Calls → Directory → Effect ℕ
unfolding prune_loop with_entries
prune self calls directory = with_entries calls directory (prune_loop self calls 0)

-- The loop over the oldest entries.
unfoldable pub remove_all : Calls → List RawFile → Directory → Effect (Unit {0})
unfolding remove_file
remove_all calls [] directory = (ok tt, directory)
remove_all calls (file ∷ files) directory =
    then_effect (remove_file calls file.name directory) (λ _ after. remove_all calls files after)

abbrev pub by_name : RawFile → RawFile → Ordering
by_name a b = cmp_bytes a.name b.name

-- What `enforce_count` and `make_room` share: the entries above `keep` go, the first names first.
unfoldable pub keep_last : ℕ → Calls → Directory → Effect (Unit {0})
unfolding remove_all with_entries
keep_last keep calls directory =
    with_entries calls directory
      (λ files after. remove_all calls (take (length files - keep) (sort_by by_name files)) after)

unfoldable pub enforce_count : RawArtifactStore → Calls → Directory → Effect (Unit {0})
unfolding keep_last
enforce_count self calls directory = keep_last self.max_artifacts calls directory

unfoldable pub make_room : RawArtifactStore → Calls → Directory → Effect (Unit {0})
unfolding keep_last
make_room self calls directory = keep_last (self.max_artifacts - 1) calls directory

-- `format!("-{}.raw", handle)`
abbrev pub handle_suffix : Bytes → Bytes
handle_suffix handle = ascii "-" ++ (handle ++ ascii ".raw")

-- `fs::write`: a file of the same name is replaced; else the file is new.
abbrev pub write_file : RawFile → Directory → Directory
write_file file directory = without file.name directory ++ (file ∷ [])

abbrev pub leave_partial : RawFile → Bool → Directory → Directory
leave_partial file leaves directory = if leaves then write_file file directory else directory

-- What differs between the steps of `retain`: the calls of each, the clock in milliseconds (`none` before the
-- epoch), and whether the file can be written, at which time.
pub record RetainCalls : Type 0 where
  pub pruning : Calls
  pub making_room : Calls
  pub counting : Calls
  pub millis : Option ℕ
  pub writes : Bool
  pub written_at : ℕ
  -- What a write that fails leaves, if it leaves a file.
  pub leaves : Bool
  pub partial : Bytes

module _ (sha256 : Bytes → Bytes) where
  -- `u128::to_be_bytes` of the time, then the content.
  unfoldable pub artifact_handle : ℕ → Bytes → RawArtifactHandle
  unfolding hex to_be_bytes
  artifact_handle now content = record { value = hex (sha256 (to_be_bytes 16 now ++ content)) }

  abbrev pub artifact_file : ℕ → ℕ → Bytes → RawFile
  artifact_file now written_at content = record {
    name = decimal now ++ handle_suffix (as_str (artifact_handle now content));
    modified = written_at;
    bytes = content;
  }

  -- From the clock on.
  unfoldable pub write_artifact :
      RawArtifactStore → RetainCalls → Bytes → Option ℕ → Directory → Effect RawArtifactHandle
  unfolding enforce_count
  write_artifact self calls content none directory = (err clock, directory)
  write_artifact self calls content (some now) directory =
      if calls.writes
      then then_effect
          (enforce_count self calls.counting
            (write_file (artifact_file now calls.written_at content) directory))
          (λ _ after. (ok (artifact_handle now content), after))
      else (
        err io,
        leave_partial
            (record (artifact_file now calls.written_at content) { bytes = calls.partial })
            calls.leaves directory,
      )

  unfoldable pub retain :
      RawArtifactStore → RetainCalls → Bytes → Directory → Effect RawArtifactHandle
  unfolding prune make_room write_artifact
  retain self calls content directory =
      then_effect (prune self calls.pruning directory) (λ removed after_prune.
        then_effect (make_room self calls.making_room after_prune)
          (λ _ after_room. write_artifact self calls content calls.millis after_room))

unfoldable pub validate_handle : Bytes → Result (Unit {0}) ArtifactError
validate_handle handle =
    if length handle == 64
      && all (λ byte. is_ascii_hexdigit byte && not (is_ascii_uppercase byte)) handle
    then ok tt
    else err invalid_handle

-- `find` on the names of the entries, in the order in which the directory lists them. The suffix is ASCII, so
-- `to_string_lossy` changes nothing at the end of a name that ends with it.
unfoldable pub find_suffix : Bytes → List RawFile → Option RawFile
find_suffix suffix [] = none
find_suffix suffix (file ∷ files) =
    let rest = find_suffix suffix files in if ends_with file.name suffix then some file else rest

-- A fetch changes nothing.
unfoldable pub fetch :
    RawArtifactStore → Calls → RawArtifactHandle → Directory → Result Bytes ArtifactError
unfolding validate_handle entries find_suffix is_expired
fetch self calls handle directory =
    validate_handle handle.value
    >> (entries calls directory >>= (λ files.
        ok_or (find_suffix (handle_suffix handle.value) files) not_found >>= (λ (file : RawFile).
          is_expired self calls file >>= (λ gone.
            refuse_if gone expired
            >> (refuse_if (not (calls.reads file.name)) io >> ok file.bytes)))))
