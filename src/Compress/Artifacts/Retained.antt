-- ===== src/Compress/Artifacts/Retained.antt =====
-- crates/ts-compress/src/lib.rs: `RawArtifactStore::retain`, and `fetch` after it.
use mathlib.Core.Option.{some-injective}
use token_shrinker.Prelude.{
  ℕ, ◌-◌, ◌≡◌, refl, sym, ap, ◌∙◌, ◌≤◌, ◌<◌, true, false, not, Option, none, some, [], ◌∷◌, ◌++◌,
  length, leb, All, length-append, ok, err, arith, Bool-cases, inl, inr,
}
use token_shrinker.Prelude.Bytes.{Bytes, eq_bytes, IsByte}
use token_shrinker.Prelude.BigEndian.{to_be_bytes}
use token_shrinker.Prelude.Filters.{All-filter_all}
use token_shrinker.Repo.Redaction.{ends_with}
use token_shrinker.Compress.Artifacts.{
  RawArtifactStore, RawArtifactHandle, RawFile, Directory, Calls, RetainCalls, is_raw, entries,
  is_expired, without, write_file, Effect, then_effect, prune, make_room, enforce_count,
  handle_suffix, artifact_handle, artifact_file, write_artifact, retain, validate_handle, fetch,
}
use token_shrinker.Compress.Artifacts.Laws.{raw_files, keep_last-eq-ok, filter-true}
use token_shrinker.Compress.Artifacts.Names.{kept_file-is_raw, kept_file-ends, validate_handle-hex}
use token_shrinker.Compress.Artifacts.Removal.{
  prune-All, find_suffix-last, raw_files-append, length-raw_filter, length-raw_files_le,
}

module _ (sha256 : Bytes → Bytes) (self : RawArtifactStore) (room : 0 < self.max_artifacts) where
  -- The directory after a successful `retain`: the new file is the last one, beside files that were there
  -- before, and there are not more artifacts than the store may keep.
  pub record IsRetained (calls : RetainCalls) (content : Bytes) (handle : RawArtifactHandle)
      (P : RawFile → Type 0) (after : Directory) : Type 0 where
    pub now : ℕ
    pub clocked : calls.millis ≡ some now
    pub handle_is : handle ≡ artifact_handle sha256 now content
    pub others : Directory
    pub written : after ≡ others ++ (artifact_file sha256 now calls.written_at content ∷ [])
    pub kept : All P others
    pub bounded : length (raw_files after) ≤ self.max_artifacts

  enforce_count-room :
      (calls : Calls) (directory after : Directory)
      → length (raw_files directory) ≤ self.max_artifacts
      → enforce_count self calls directory ≡ (ok tt, after)
      → after ≡ directory
  unfolding enforce_count
  enforce_count-room calls directory after b h =
      let (left, bound) = keep_last-eq-ok self.max_artifacts calls directory after h in
      let none_over : length (raw_files directory) - self.max_artifacts ≡ 0 = omega arith in
      rw none_over at left ∙ filter-true directory

  write_artifact-IsRetained :
      (calls : RetainCalls) (content : Bytes) (handle : RawArtifactHandle) (P : RawFile → Type 0)
      (directory after : Directory)
      → All P directory
      → length (raw_files directory) ≤ self.max_artifacts - 1
      → (millis : Option ℕ) → calls.millis ≡ millis
      → write_artifact sha256 self calls content millis directory ≡ (ok handle, after)
      → IsRetained calls content handle P after
  unfolding write_artifact
  write_artifact-IsRetained calls content handle P directory after a b none m h = cc
  write_artifact-IsRetained calls content handle P directory after a b (some now) m h =
      elim (Bool-cases calls.writes) [
        | inl e ↦
            by_count
              (enforce_count self calls.counting
                (write_file (artifact_file sha256 now calls.written_at content) directory))
              refl (rw e at h)
        | inr e ↦ let never = rw e at h in cc
      ]
    where
      new_file : RawFile
      new_file = artifact_file sha256 now calls.written_at content

      others : Directory
      others = without new_file.name directory

      fits : length (raw_files (others ++ (new_file ∷ []))) ≤ self.max_artifacts
      fits =
          let one = kept_file-is_raw sha256 now calls.written_at content in
          let both = raw_files-append others (new_file ∷ []) in
          rw both (
            omega (
              arith,
              length-append {0} (raw_files others) (raw_files (new_file ∷ [])),
              length-raw_filter (λ file. not (eq_bytes file.name new_file.name)) directory,
              length-raw_files_le (new_file ∷ []),
            ))

      by_count :
          (r : Effect (Unit {0}))
          → enforce_count self calls.counting (others ++ (new_file ∷ [])) ≡ r
          → then_effect r (λ _ next. (ok (artifact_handle sha256 now content), next))
            ≡ (ok handle, after)
          → IsRetained calls content handle P after
      by_count (err e, next) r g = cc
      by_count (ok tt, next) r g =
          let same = enforce_count-room calls.counting (others ++ (new_file ∷ [])) next fits r in
          let end : next ≡ after = cc in
          record {
            now = now;
            clocked = m;
            handle_is = cc;
            others = others;
            written = sym end ∙ same;
            kept = All-filter_all P (λ file. not (eq_bytes file.name new_file.name)) directory a;
            bounded = rw (sym end ∙ same) fits;
          }

  make_room-All :
      (P : RawFile → Type 0) (calls : Calls) (directory after : Directory)
      → All P directory
      → make_room self calls directory ≡ (ok tt, after)
      → All P after × (length (raw_files after) ≤ self.max_artifacts - 1)
  unfolding make_room
  make_room-All P calls directory after a h =
      let (left, bound) = keep_last-eq-ok (self.max_artifacts - 1) calls directory after h in
      (rw left (All-filter_all P _ directory a), bound)

  -- A `retain` that succeeds leaves at most as many artifacts as the store may keep, whatever was in the
  -- directory before. The new file stands last, with the content under the name of the handle, which
  -- is the digest of the time and the content; what holds of every file before holds of the
  -- others.
  pub retain-IsRetained :
      (P : RawFile → Type 0) (calls : RetainCalls) (content : Bytes) (directory : Directory)
      (handle : RawArtifactHandle) (after : Directory)
      → All P directory
      → retain sha256 self calls content directory ≡ (ok handle, after)
      → IsRetained calls content handle P after
  unfolding retain
  retain-IsRetained P calls content directory handle after a h =
      by_prune (prune self calls.pruning directory) (prune-All P self calls.pruning directory a) h
    where
      by_room :
          (start : Directory)
          → All P start
          → (r : Effect (Unit {0})) → make_room self calls.making_room start ≡ r
          → then_effect r
              (λ _ after_room. write_artifact sha256 self calls content calls.millis after_room)
            ≡ (ok handle, after)
          → IsRetained calls content handle P after
      by_room start b (err e, next) m g = cc
      by_room start b (ok tt, next) m g =
          let (kept, bound) = make_room-All P calls.making_room start next b m in
          write_artifact-IsRetained calls content handle P next after kept bound calls.millis refl g

      by_prune :
          (r : Effect ℕ)
          → All P r.1
          → then_effect r (λ removed after_prune.
            then_effect
              (make_room self calls.making_room after_prune)
              (λ _ after_room. write_artifact sha256 self calls content calls.millis after_room))
            ≡ (ok handle, after)
          → IsRetained calls content handle P after
      by_prune (err e, next) b g = cc
      by_prune (ok removed, next) b g =
          by_room next b (make_room self calls.making_room next) refl g

  -- The calls of a fetch succeed for the file, which is younger than the time to live.
  pub record CanFetch (calls : Calls) (file : RawFile) : Type 0 where
    pub lists : calls.lists ≡ true
    pub stats : calls.stats file.name ≡ true
    pub reads : calls.reads file.name ≡ true
    pub young : calls.now file.name - file.modified < self.ttl

  fetch-last :
      (calls : Calls) (handle : RawArtifactHandle) (others : Directory) (file : RawFile)
      → validate_handle handle.value ≡ ok tt
      → All (λ g. ends_with g.name (handle_suffix handle.value) ≡ false) others
      → is_raw file.name ≡ true
      → ends_with file.name (handle_suffix handle.value) ≡ true
      → CanFetch calls file
      → fetch self calls handle (others ++ (file ∷ [])) ≡ ok file.bytes
  unfolding fetch entries is_expired
  fetch-last calls handle others file v a r e can =
      let young : leb self.ttl (calls.now file.name - file.modified) ≡ false =
        ground (arith, can.young) in
      let last : raw_files (file ∷ []) ≡ file ∷ [] = rw r refl in
      let raw = raw_files-append others (file ∷ []) ∙ ap (λ fs. raw_files others ++ fs) last in
      let others_raw = All-filter_all Other (λ g. is_raw g.name) others a in
      rw
        (
          v,
          can.lists,
          raw,
          find_suffix-last (handle_suffix handle.value) (raw_files others) file others_raw e,
          can.stats,
          young,
          can.reads,
        )
        refl
    where
      Other : RawFile → Type 0
      Other g = ends_with g.name (handle_suffix handle.value) ≡ false

  -- What was retained is fetched by its handle, byte for byte, while it is younger than the time to live and
  -- the calls succeed, also if other artifacts had to make room for it: the only conditions are that
  -- the digests have 32 bytes, and that no file had a name that ends like the new one.
  pub fetch-retain :
      (calls : RetainCalls) (fetching : Calls) (now : ℕ) (content : Bytes) (directory : Directory)
      (handle : RawArtifactHandle) (after : Directory)
      → calls.millis ≡ some now
      → length (sha256 (to_be_bytes 16 now ++ content)) ≡ 32
      → All IsByte (sha256 (to_be_bytes 16 now ++ content))
      → All (λ file. ends_with file.name (handle_suffix handle.value) ≡ false) directory
      → retain sha256 self calls content directory ≡ (ok handle, after)
      → CanFetch fetching (artifact_file sha256 now calls.written_at content)
      → fetch self fetching handle after ≡ ok content
  unfolding artifact_handle
  fetch-retain calls fetching now content directory handle after m l b a h can =
      let retained =
        retain-IsRetained (λ file. ends_with file.name (handle_suffix handle.value) ≡ false) calls
          content directory handle after a h in
      let same : retained.now ≡ now = some-injective retained.now now (sym retained.clocked ∙ m) in
      let file = artifact_file sha256 now calls.written_at content in
      let named : handle ≡ artifact_handle sha256 now content =
        retained.handle_is ∙ ap (λ n. artifact_handle sha256 n content) same in
      let written : after ≡ retained.others ++ (file ∷ []) =
        retained.written
        ∙ ap (λ n. retained.others ++ (artifact_file sha256 n calls.written_at content ∷ []))
            same in
      let ends : ends_with file.name (handle_suffix handle.value) ≡ true =
        ap (λ (k : RawArtifactHandle). ends_with file.name (handle_suffix k.value)) named
        ∙ kept_file-ends sha256 now calls.written_at content in
      let valid : validate_handle handle.value ≡ ok tt =
        ap (λ (k : RawArtifactHandle). validate_handle k.value) named
        ∙ validate_handle-hex (sha256 (to_be_bytes 16 now ++ content)) l b in
      rw written (
        fetch-last fetching handle retained.others file valid retained.kept
          (kept_file-is_raw sha256 now calls.written_at content) ends can)
