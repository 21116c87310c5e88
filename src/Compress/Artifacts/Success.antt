-- ===== src/Compress/Artifacts/Success.antt =====
-- crates/ts-compress/src/lib.rs: `RawArtifactStore::retain` where the operating system does what it is asked.
use token_shrinker.Prelude.{
  ℕ, ◌+◌, ◌-◌, ◌≡◌, refl, ◌<◌, true, some, List, [], ◌∷◌, ok, leb, take, length, All, Bool-cases,
  inl, inr,
}
use token_shrinker.Prelude.Bytes.{Bytes}
use token_shrinker.Prelude.Sort.{sort_by}
use token_shrinker.Compress.Artifacts.{
  RawArtifactStore, RawFile, Directory, Calls, RetainCalls, is_expired, prune, make_room,
  enforce_count, keep_last, remove_all, remove_file, drop_expired, prune_loop, without,
  artifact_handle, artifact_file, write_artifact, write_file, retain, entries, by_name,
}
use token_shrinker.Compress.Artifacts.Laws.{raw_files}
use token_shrinker.Compress.Artifacts.Retained.{IsRetained, retain-IsRetained}

-- Every call succeeds.
pub record CallsSucceed (calls : Calls) : Type 0 where
  pub lists : calls.lists ≡ true
  pub stats : (name : Bytes) → calls.stats name ≡ true
  pub removes : (name : Bytes) → calls.removes name ≡ true

remove_all_succeeds :
    (calls : Calls) (files : List RawFile) (directory : Directory)
    → CallsSucceed calls
    → (after : Directory) × (remove_all calls files directory ≡ (ok tt, after))
unfolding remove_all remove_file
remove_all_succeeds calls [] directory s = (directory, refl)
remove_all_succeeds calls (file ∷ files) directory s =
    let (after, e) = remove_all_succeeds calls files (without file.name directory) s in
    (after, rw (s.removes file.name) e)

keep_last_succeeds :
    (keep : ℕ) (calls : Calls) (directory : Directory)
    → CallsSucceed calls
    → (after : Directory) × (keep_last keep calls directory ≡ (ok tt, after))
unfolding keep_last entries
keep_last_succeeds keep calls directory s =
    let (after, e) =
      remove_all_succeeds calls
        (take (length (raw_files directory) - keep) (sort_by by_name (raw_files directory)))
        directory s in
    (after, rw s.lists e)

prune_loop_succeeds :
    (self : RawArtifactStore) (calls : Calls) (removed : ℕ) (files : List RawFile)
    (directory : Directory)
    → CallsSucceed calls
    → (n : ℕ) × (after : Directory) × (prune_loop self calls removed files directory
        ≡ (ok n, after))
unfolding prune_loop is_expired drop_expired remove_file
prune_loop_succeeds self calls removed [] directory s = (removed, directory, refl)
prune_loop_succeeds self calls removed (file ∷ files) directory s =
    elim (Bool-cases (leb self.ttl (calls.now file.name - file.modified))) [
      | inl e ↦
          let (n, after, h) =
            prune_loop_succeeds self calls (removed + 1) files (without file.name directory) s in
          (n, after, rw (s.stats file.name, e, s.removes file.name) h)
      | inr e ↦
          let (n, after, h) = prune_loop_succeeds self calls (removed + 0) files directory s in
          (n, after, rw (s.stats file.name, e) h)
    ]

prune_succeeds :
    (self : RawArtifactStore) (calls : Calls) (directory : Directory)
    → CallsSucceed calls
    → (n : ℕ) × (after : Directory) × (prune self calls directory ≡ (ok n, after))
unfolding prune entries
prune_succeeds self calls directory s =
    let (n, after, h) = prune_loop_succeeds self calls 0 (raw_files directory) directory s in
    (n, after, rw s.lists h)

module _ (sha256 : Bytes → Bytes) (self : RawArtifactStore) (room : 0 < self.max_artifacts) where
  -- Where the calls succeed and the clock is past the epoch, `retain` succeeds, with the digest of the time and
  -- the content as the handle, whatever is in the directory; and then at most as many artifacts
  -- are left as the store may keep, with the new one as the last.
  pub retain_succeeds :
      (calls : RetainCalls) (now : ℕ) (content : Bytes) (directory : Directory)
      → CallsSucceed calls.pruning
      → CallsSucceed calls.making_room
      → CallsSucceed calls.counting
      → calls.millis ≡ some now
      → calls.writes ≡ true
      → (after : Directory) × (retain sha256 self calls content directory
          ≡ (ok (artifact_handle sha256 now content), after))
        × IsRetained sha256 self room calls content
            (artifact_handle sha256 now content)
            (λ file. Unit {0})
            after
  unfolding retain write_artifact make_room enforce_count
  retain_succeeds calls now content directory p m c t w =
      let (n, pruned, e) = prune_succeeds self calls.pruning directory p in
      let (roomy, f) = keep_last_succeeds (self.max_artifacts - 1) calls.making_room pruned m in
      let file = artifact_file sha256 now calls.written_at content in
      let (after, g) =
        keep_last_succeeds self.max_artifacts calls.counting (write_file file roomy) c in
      let done : retain sha256 self calls content directory
          ≡ (ok (artifact_handle sha256 now content), after) =
        rw (e, f, t, w, g) refl in
      (
        after,
        done,
        retain-IsRetained sha256 self room (λ file. Unit {0}) calls content directory
            (artifact_handle sha256 now content) after (all_unit directory) done,
      )
    where
      all_unit : (d : Directory) → All (λ file. Unit {0}) d
      all_unit [] = tt
      all_unit (x ∷ d) = (tt, all_unit d)
