-- ===== src/Compress/Artifacts/Removal.antt =====
-- crates/ts-compress/src/lib.rs: the directory under `prune`, and the search for a suffix.
use token_shrinker.Prelude.{
  ℕ, ◌+◌, ◌≡◌, refl, ◌≤◌, Bool, true, false, not, some, List, [], ◌∷◌, ◌++◌, length, filter, All,
  Result, ok, err, arith, Bool-cases, inl, inr,
}
use token_shrinker.Prelude.Bytes.{Bytes, eq_bytes}
use token_shrinker.Prelude.Filters.{All-filter_all}
use token_shrinker.Repo.Redaction.{ends_with}
use token_shrinker.Compress.Artifacts.{
  RawArtifactStore, RawFile, Directory, Calls, entries, is_expired, Effect, then_effect, prune,
  find_suffix, remove_file, drop_expired, prune_loop, ArtifactError,
}
use token_shrinker.Compress.Artifacts.Laws.{raw_files}

-- What holds of every file of the directory holds after some are removed.
module _ (P : RawFile → Type 0) where
  remove_file-All :
      (calls : Calls) (name : Bytes) (directory : Directory)
      → All P directory
      → All P (remove_file calls name directory).1
  unfolding remove_file
  remove_file-All calls name directory a = elim (Bool-cases (calls.removes name)) [
    | inl e ↦ rw e (All-filter_all P (λ file. not (eq_bytes file.name name)) directory a)
    | inr e ↦ rw e a
  ]

  drop_expired-All :
      (calls : Calls) (name : Bytes) (gone : Result Bool ArtifactError) (directory : Directory)
      → All P directory
      → All P (drop_expired calls name gone directory).1
  unfolding drop_expired
  drop_expired-All calls name (err e) directory a = a
  drop_expired-All calls name (ok false) directory a = a
  drop_expired-All calls name (ok true) directory a =
      by_removal (remove_file calls name directory) (remove_file-All calls name directory a)
    where
      by_removal :
          (r : Effect (Unit {0}))
          → All P r.1
          → All P (then_effect {B = ℕ} r (λ _ after. (ok 1, after))).1
      by_removal (err e, next) b = b
      by_removal (ok u, next) b = b

  prune_loop-All :
      (self : RawArtifactStore) (calls : Calls) (removed : ℕ) (files : List RawFile)
      (directory : Directory)
      → All P directory
      → All P (prune_loop self calls removed files directory).1
  unfolding prune_loop
  prune_loop-All self calls removed [] directory a = a
  prune_loop-All self calls removed (file ∷ files) directory a =
      by_first (λ n d. prune_loop-All self calls n files d)
        (drop_expired calls file.name (is_expired self calls file) directory)
        (drop_expired-All calls file.name (is_expired self calls file) directory a)
    where
      by_first :
          ((n : ℕ) (d : Directory) → All P d → All P (prune_loop self calls n files d).1)
          → (r : Effect ℕ) → All P r.1
          → All P (then_effect r (λ one after. prune_loop self calls (removed + one) files after)).1
      by_first rest (err e, next) b = b
      by_first rest (ok one, next) b = rest (removed + one) next b

  pub prune-All :
      (self : RawArtifactStore) (calls : Calls) (directory : Directory)
      → All P directory
      → All P (prune self calls directory).1
  unfolding prune entries
  prune-All self calls directory a = elim (Bool-cases calls.lists) [
    | inl e ↦ rw e (prune_loop-All self calls 0 (raw_files directory) directory a)
    | inr e ↦ rw e a
  ]

pub find_suffix-last :
    (suffix : Bytes) (files : List RawFile) (file : RawFile)
    → All (λ g. ends_with g.name suffix ≡ false) files
    → ends_with file.name suffix ≡ true
    → find_suffix suffix (files ++ (file ∷ [])) ≡ some file
unfolding find_suffix
find_suffix-last suffix [] file a e = rw e refl
find_suffix-last suffix (g ∷ files) file (p, a) e = rw p (find_suffix-last suffix files file a e)

pub raw_files-append : (xs ys : Directory) → raw_files (xs ++ ys) ≡ raw_files xs ++ raw_files ys
raw_files-append [] ys = refl
raw_files-append (x ∷ xs) ys = ground (arith, raw_files-append xs ys)

pub length-raw_filter :
    (p : RawFile → Bool) (d : Directory) → length (raw_files (filter p d)) ≤ length (raw_files d)
length-raw_filter p [] = omega arith
length-raw_filter p (f ∷ d) = ground (arith, length-raw_filter p d)

pub length-raw_files_le : (d : Directory) → length (raw_files d) ≤ length d
length-raw_files_le [] = omega arith
length-raw_files_le (f ∷ d) = ground (arith, length-raw_files_le d)
