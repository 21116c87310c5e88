-- ===== src/Compress/Artifacts/Laws.antt =====
-- How many artifacts the store keeps.
use token_shrinker.Prelude.{
  ℕ, ◌-◌, ◌≡◌, refl, ap, ◌∙◌, ◌≤◌, Bool, true, ◌&&◌, not, List, [], ◌∷◌, length, take, drop, filter,
  sum_of, sum_of-append, length-drop, take-append-drop, if◌then◌else◌, ok, err, arith, Bool-cases,
  inl, inr,
}
use token_shrinker.Prelude.Bytes.{Bytes, eq_bytes, eq_bytes_iff}
use token_shrinker.Prelude.Sort.{sort_by, sum_of-sort_by}
use token_shrinker.Prelude.Filters.{length-sort_by}
use token_shrinker.Compress.Artifacts.{
  RawFile, Directory, Calls, is_raw, entries, without, Effect, remove_file, then_effect, remove_all,
  by_name, keep_last,
}

abbrev pub raw_files : Directory → List RawFile
raw_files directory = filter (λ file. is_raw file.name) directory

-- The name of the file is none of these.
abbrev pub survives : List RawFile → RawFile → Bool
survives [] file = true
survives (gone ∷ files) file = not (eq_bytes file.name gone.name) && survives files file

remove_file-eq-ok :
    (calls : Calls) (name : Bytes) (directory after : Directory)
    → remove_file calls name directory ≡ (ok tt, after)
    → after ≡ without name directory
unfolding remove_file
remove_file-eq-ok calls name directory after h = ground arith

-- Filtering twice is filtering by both tests.
filter-and :
    (p q : RawFile → Bool) (xs : List RawFile)
    → filter p (filter q xs) ≡ filter (λ x. q x && p x) xs
filter-and p q [] = refl
filter-and p q (x ∷ xs) = ground (arith, filter-and p q xs)

filter_comm :
    (p q : RawFile → Bool) (xs : List RawFile) → filter p (filter q xs) ≡ filter q (filter p xs)
filter_comm p q [] = refl
filter_comm p q (x ∷ xs) = ground (arith, filter_comm p q xs)

pub filter-true : (xs : List RawFile) → filter (λ x. true) xs ≡ xs
filter-true [] = refl
filter-true (x ∷ xs) = ap (◌∷◌ x) (filter-true xs)

remove_all-eq-ok :
    (calls : Calls) (files : List RawFile) (directory after : Directory)
    → remove_all calls files directory ≡ (ok tt, after)
    → after ≡ filter (survives files) directory
unfolding remove_all
remove_all-eq-ok calls [] directory after h = cc (filter-true directory)
remove_all-eq-ok calls (file ∷ files) directory after h =
    by_first (remove_all-eq-ok calls files) (remove_file calls file.name directory) refl h
  where
    by_first :
        ((d e : Directory) → remove_all calls files d ≡ (ok tt, e) → e ≡ filter (survives files) d)
        → (first : Effect (Unit {0})) → remove_file calls file.name directory ≡ first
        → then_effect first (λ _ next. remove_all calls files next) ≡ (ok tt, after)
        → after ≡ filter (survives (file ∷ files)) directory
    by_first rest (err e, next) f g = cc
    by_first rest (ok tt, next) f g =
        rest next after g
        ∙ ap (filter (survives files)) (remove_file-eq-ok calls file.name directory next f)
        ∙ filter-and (survives files) (λ x. not (eq_bytes x.name file.name)) directory

-- How many files pass a test.
abbrev pub tally : (RawFile → Bool) → List RawFile → ℕ
tally p = sum_of (λ x. if p x then 1 else 0)

length-filter : (p : RawFile → Bool) (xs : List RawFile) → length (filter p xs) ≡ tally p xs
length-filter p [] = refl
length-filter p (x ∷ xs) = ground (arith, length-filter p xs)

tally-le : (p : RawFile → Bool) (xs : List RawFile) → tally p xs ≤ length xs
tally-le p [] = omega arith
tally-le p (x ∷ xs) = ground (arith, tally-le p xs)

-- None of the removed files passes.
tally_gone :
    (done files : List RawFile)
    → ((x : RawFile) → survives done x ≡ true → survives files x ≡ true)
    → tally (survives done) files ≡ 0
tally_gone done [] h = refl
tally_gone done (file ∷ files) h =
    let same : eq_bytes file.name file.name ≡ true = (eq_bytes_iff file.name file.name).1 refl in
    let rest = tally_gone done files (λ x e. ground (arith, h x e)) in
    elim (Bool-cases (survives done file)) [
      | inl e ↦ let never = h file e in ground (arith, same, never)
      | inr e ↦ rw (e, rest) refl
    ]

-- Removing the files that the sort puts first leaves as many as are kept.
keep_last_count :
    (keep : ℕ) (files : List RawFile)
    → length (filter (survives (take (length files - keep) (sort_by by_name files))) files) ≤ keep
keep_last_count keep files =
    let sorted = sort_by by_name files in
    let n = length files - keep in
    let gone = survives (take n sorted) in
    let split = sum_of-append {0} (λ x. if gone x then 1 else 0) (take n sorted) (drop n sorted) in
    let whole = ap (tally gone) (take-append-drop n sorted) in
    omega (
      arith,
      length-filter gone files,
      sum_of-sort_by by_name (λ x. if gone x then 1 else 0) files,
      split,
      whole,
      tally_gone (take n sorted) (take n sorted) (λ x e. e),
      tally-le gone (drop n sorted),
      length-drop n sorted,
      length-sort_by by_name files,
    )

-- What `keep_last` does where no call fails.
pub keep_last-eq-ok :
    (keep : ℕ) (calls : Calls) (directory after : Directory)
    → keep_last keep calls directory ≡ (ok tt, after)
    → (after
        ≡ filter
            (survives
              (take (length (raw_files directory) - keep) (sort_by by_name (raw_files directory))))
            directory)
      × (length (raw_files after) ≤ keep)
unfolding keep_last entries
keep_last-eq-ok keep calls directory after h = elim (Bool-cases calls.lists) [
  | inl e ↦
      let files = raw_files directory in
      let gone = take (length files - keep) (sort_by by_name files) in
      let left = remove_all-eq-ok calls gone directory after (rw e at h) in
      let order = filter_comm (λ file. is_raw file.name) (survives gone) directory in
      (left, rw (left, order) (keep_last_count keep files))
  | inr e ↦ let never = rw e at h in cc
]
