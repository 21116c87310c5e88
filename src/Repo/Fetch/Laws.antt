-- ===== src/Repo/Fetch/Laws.antt =====
-- The handle of a range of lines leads back to the range.
use mathlib.Core.Option
use mathlib.Core.Option.{some-injective}
use token_shrinker.Prelude.{
  if◌then◌else◌, take, ◌-◌, ℕ, ◌+◌, ◌≡◌, refl, ◌≤◌, ◌<◌, Bool, true, false, ◌||◌, Option, none,
  some, [], ◌∷◌, ◌++◌, drop, All, All-append, All-imp, Result, ok, err, ◌==◌, ltb, u32_max, arith,
  Bool-cases, inl, inr,
}
use token_shrinker.Prelude.Bytes.{Bytes, ascii, is_empty}
use token_shrinker.Prelude.Decimal.{decimal, IsDigit, All-decimal, parse_u32-decimal}
use token_shrinker.Prelude.Texts.{split_once, rsplit_once, rsplit_once-append, join}
use token_shrinker.Context.SourceId
use token_shrinker.Context.SourceId.{SourceId, SourceIdError}
use token_shrinker.Context.SourceId.Laws.{new-value}
use token_shrinker.Compress.Lines.{newline, str_lines}
use token_shrinker.Context.Candidate.{ContextCandidate}
use token_shrinker.Repo.Paths.{decode_relative_path, encode_path}
use token_shrinker.Repo.Load.{hash_content, FilePath, Cache, RepositoryProvider, Libraries}
use token_shrinker.Repo.Files.{
  LoadedCandidate, FileAnswers, file_handle, candidate_from_path, strip_prefix,
}
use token_shrinker.Repo.Chunks.{SymbolSpan, symbol_handle, symbol_candidate, symbol_with, ok_value}
use token_shrinker.Repo.Fetch.{
  read_span, read_range, parse_symbol_suffix, strip_scheme, read_handle, default_query, fetch,
  fetch_asked, fetch_canonical,
}

-- No byte is a number sign.
abbrev IsPlain : ℕ → Type 0
IsPlain b = (b == b'#') ≡ false

digit-IsPlain : (b : ℕ) → IsDigit b → IsPlain b
digit-IsPlain b d = ground arith

rsplit_once-plain : (text : Bytes) → All IsPlain text → rsplit_once (ascii "#L") text ≡ none
unfolding rsplit_once
rsplit_once-plain [] a = refl
rsplit_once-plain (b ∷ text) (p, a) = rw (rsplit_once-plain text a, p) refl

split_once-digits :
    (digits right : Bytes)
    → All IsDigit digits
    → split_once (ascii "-L") (digits ++ (ascii "-L" ++ right)) ≡ some (digits, right)
unfolding split_once
split_once-digits [] right a = refl
split_once-digits (b ∷ digits) right (d, a) =
    let other : (b == b'-') ≡ false = ground arith in
    ground (arith, other, split_once-digits digits right a)

All-decimal-IsPlain : (n : ℕ) → All IsPlain (decimal n)
All-decimal-IsPlain n = All-imp IsDigit IsPlain digit-IsPlain (decimal n) (All-decimal n)

rsplit_once-marked :
    (range : Bytes)
    → All IsPlain range
    → rsplit_once (ascii "#L") (ascii "#L" ++ range) ≡ some ([], range)
unfolding rsplit_once
rsplit_once-marked range a = rw (rsplit_once-plain range a) refl

-- The suffix that a range of lines adds to a handle is read as that range, and the rest of the handle
-- is left, whatever it is.
pub parse_symbol_suffix-symbol_handle :
    (path : Bytes) (span : SymbolSpan)
    → 0 < span.start_line
    → span.start_line ≤ span.end_line
    → span.end_line ≤ u32_max
    → parse_symbol_suffix (symbol_handle path span) ≡ ok (path, some span)
unfolding parse_symbol_suffix symbol_handle read_range read_span
parse_symbol_suffix-symbol_handle path span s o e =
    let range = decimal span.start_line ++ (ascii "-L" ++ decimal span.end_line) in
    let plain =
      All-append IsPlain (decimal span.start_line) (ascii "-L" ++ decimal span.end_line)
        (All-decimal-IsPlain span.start_line) (refl, (refl, All-decimal-IsPlain span.end_line)) in
    let guard : ((span.start_line == 0) || ltb span.end_line span.start_line) ≡ false =
      ground arith in
    rw
      (
        rsplit_once-append (ascii "#L") path (ascii "#L" ++ range) range
            (rsplit_once-marked range plain),
        split_once-digits (decimal span.start_line) (decimal span.end_line)
            (All-decimal span.start_line),
        parse_u32-decimal span.start_line (omega arith),
        parse_u32-decimal span.end_line e,
        guard,
      )
      refl

module _ (lib : Libraries) (self : RepositoryProvider) where
  strip_scheme-symbol_handle :
      (path : Bytes) (span : SymbolSpan)
      → strip_scheme (symbol_handle (file_handle lib self path) span)
        ≡ some (symbol_handle (encode_path path) span)
  unfolding strip_scheme symbol_handle
  strip_scheme-symbol_handle path span = refl

  -- The handle of a file of the repository, with a range or without, is read as its path below the root.
  read_handle-symbol_handle :
      (path : Bytes) (relative : FilePath) (span : SymbolSpan)
      → decode_relative_path lib.is_utf8 (encode_path path) ≡ ok relative
      → 0 < span.start_line
      → span.start_line ≤ span.end_line
      → span.end_line ≤ u32_max
      → read_handle lib self (symbol_handle (file_handle lib self path) span)
        ≡ ok (self.root ++ relative, some span)
  unfolding read_handle
  read_handle-symbol_handle path relative span d s o e =
      rw
        (
          strip_scheme-symbol_handle path span,
          parse_symbol_suffix-symbol_handle (encode_path path) span s o e,
          d,
        )
        refl

  -- What a file is when it is read again: its path is canonical, and its text is the source's.
  pub record IsSame (source : ContextCandidate) (path : FilePath) (cache : Cache)
      (canonicalize : FilePath → Option FilePath) (answers : FilePath → FileAnswers) : Type 0 where
    pub relative : FilePath
    pub decoded : decode_relative_path lib.is_utf8 (encode_path source.location.uri) ≡ ok relative
    pub found : canonicalize (self.root ++ relative) ≡ some path
    pub below : strip_prefix self.root path ≡ some relative
    pub again : LoadedCandidate
    pub after : Cache
    pub loads :
        candidate_from_path lib self cache path (answers path) default_query ≡ (ok again, after)
    pub content : again.candidate.content ≡ source.content
    pub handle : again.candidate.source_id ≡ source.source_id
    pub uri : again.candidate.location.uri ≡ source.location.uri

  -- Candidates that name the same lines and have the same text.
  pub record IsSameRange (c d : ContextCandidate) : Type 0 where
    pub source_id : c.source_id ≡ d.source_id
    pub location : c.location ≡ d.location
    pub content : c.content ≡ d.content
    pub content_hash : c.content_hash ≡ d.content_hash

  symbol_candidate-again :
      (source again chunk : ContextCandidate) (span : SymbolSpan)
      → again.content ≡ source.content
      → again.source_id ≡ source.source_id
      → again.location.uri ≡ source.location.uri
      → symbol_candidate (hash_content lib) source span ≡ some chunk
      → (found : ContextCandidate) × (symbol_candidate (hash_content lib) again span ≡ some found)
        × IsSameRange found chunk
  unfolding symbol_candidate
  symbol_candidate-again source again chunk span c i u h =
      rw (c, i)
        (by_parts (span.start_line == 0 || ltb span.end_line span.start_line)
          (join newline (
            take (span.end_line - span.start_line + 1)
              (drop (span.start_line - 1) (str_lines source.content))))
          (ok_value (SourceId.new (symbol_handle source.source_id.value span))) h)
    where
      by_parts :
          (refused : Bool) (text : Bytes) (made : Option SourceId)
          → (if refused
              then none
              else if is_empty text
              then none
              else Option.map (symbol_with (hash_content lib) source span text) made)
            ≡ some chunk
          → (found : ContextCandidate) × ((if refused
                then none
                else if is_empty text
                then none
                else Option.map (symbol_with (hash_content lib) again span text) made)
              ≡ some found)
            × IsSameRange found chunk
      by_parts true text made e = cc
      by_parts false [] made e = cc
      by_parts false (b ∷ text) none e = cc
      by_parts false (b ∷ text) (some source_id) e =
          let same =
            some-injective (symbol_with (hash_content lib) source span (b ∷ text) source_id) chunk
              e in
          (
            symbol_with (hash_content lib) again span (b ∷ text) source_id,
            refl,
            rw (← same) (record {
              source_id = refl;
              location = rw u refl;
              content = refl;
              content_hash = refl;
            }),
          )

  -- A range that yields a candidate is in order, and the candidate has its handle.
  symbol_candidate-eq-some :
      (source chunk : ContextCandidate) (span : SymbolSpan)
      → symbol_candidate (hash_content lib) source span ≡ some chunk
      → (0 < span.start_line)
        × (span.start_line ≤ span.end_line)
        × (chunk.source_id.value ≡ symbol_handle source.source_id.value span)
  unfolding symbol_candidate
  symbol_candidate-eq-some source chunk span h =
      elim (Bool-cases (span.start_line == 0 || ltb span.end_line span.start_line)) [
        | inl e ↦ let never = rw e at h in cc
        | inr e ↦
            let parts =
              by_parts
                (join newline (
                  take (span.end_line - span.start_line + 1)
                    (drop (span.start_line - 1) (str_lines source.content))))
                (SourceId.new (symbol_handle source.source_id.value span)) refl (rw e at h) in
            (ground (arith, e), ground (arith, e), parts)
      ]
    where
      by_parts :
          (text : Bytes) (made : Result SourceId SourceIdError)
          → SourceId.new (symbol_handle source.source_id.value span) ≡ made
          → (if is_empty text
              then none
              else Option.map (symbol_with (hash_content lib) source span text) (ok_value made))
            ≡ some chunk
          → chunk.source_id.value ≡ symbol_handle source.source_id.value span
      by_parts [] made m g = cc
      by_parts (b ∷ text) (err e) m g = cc
      by_parts (b ∷ text) (ok source_id) m g =
          let same =
            some-injective (symbol_with (hash_content lib) source span (b ∷ text) source_id) chunk
              g in
          rw (← same) (new-value (symbol_handle source.source_id.value span) source_id m)

  -- A range of lines of a repository file can be fetched by its handle: as long as the file has the text and
  -- the path that it had, `fetch` returns a candidate with the same handle, location, content and
  -- hash.
  pub fetch-symbol_candidate :
      (source chunk : ContextCandidate) (span : SymbolSpan) (path : FilePath) (cache : Cache)
      (canonicalize : FilePath → Option FilePath) (answers : FilePath → FileAnswers)
      → source.source_id.value ≡ file_handle lib self source.location.uri
      → span.end_line ≤ u32_max
      → symbol_candidate (hash_content lib) source span ≡ some chunk
      → IsSame source path cache canonicalize answers
      → (found : ContextCandidate) × ((fetch lib self cache canonicalize answers chunk.source_id).0
          ≡ ok found)
        × IsSameRange found chunk
  unfolding fetch fetch_asked fetch_canonical
  fetch-symbol_candidate source chunk span path cache canonicalize answers n b h i =
      let (s, o, handle) = symbol_candidate-eq-some source chunk span h in
      let (found, again, same) =
        symbol_candidate-again source i.again.candidate chunk span i.content i.handle i.uri h in
      (
        found,
        rw
            (
              handle,
              n,
              read_handle-symbol_handle source.location.uri i.relative span i.decoded s o b,
              i.found,
              i.below,
              i.loads,
              again,
            )
            refl,
        same,
      )
