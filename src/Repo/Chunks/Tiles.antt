-- ===== src/Repo/Chunks/Tiles.antt =====
-- The chunks of a source tile its lines.
use mathlib.Core.Option
use token_shrinker.Prelude.{
  ℕ, zero, suc, ◌+◌, ◌-◌, ◌≡◌, ◌≢◌, refl, sym, ap, ◌∙◌, ◌⊎◌, inl, inr, ◌≤◌, ◌<◌, true, false, none,
  some, List, [], ◌∷◌, ◌++◌, length, drop, All, All-append, All-imp, arith, ltb, leb, ◌==◌,
  length-append, length-drop, u32_max, u64_max, to_u32, ◌||◌, ok, if◌then◌else◌,
}
use token_shrinker.Prelude.Bytes.{Bytes, ascii, is_empty}
use token_shrinker.Prelude.Unicode.{Unicode}
use token_shrinker.Prelude.Decimal.{decimal, length-decimal, All-decimal, IsDigit}
use token_shrinker.Prelude.Pieces.{drop-drop}
use token_shrinker.Context.SourceId
use token_shrinker.Context.SourceId.{SourceId}
use token_shrinker.Context.SourceId.Laws.{IsSafe, IsHandle, new_lem}
use token_shrinker.Context.ContentHash.{ContentHash}
use token_shrinker.Context.Candidate.{ContextCandidate}
use token_shrinker.Compress.Lines.{str_lines}
use token_shrinker.Repo.Chunks.{
  RepositoryQuery, SymbolSpan, symbol_handle, symbol_with, symbol_candidate, count_lines, rescored,
  push_option, chunk_loop, chunk_candidate,
}
use token_shrinker.Repo.Chunks.Sizes.{joined, IsCount, count_lines-IsCount}

-- Room for two numbers of ten digits behind the handle.
pub record HasRoom (value : Bytes) : Type 0 where
  pub handle : IsHandle value
  pub room : length value + 24 ≤ 1_024

abbrev pub Fits32 : SymbolSpan → Type 0
Fits32 span = (span.start_line ≤ u32_max) × (span.end_line ≤ u32_max)

digit-IsSafe : (b : ℕ) → IsDigit b → IsSafe b
digit-IsSafe b d = (ground arith, ground arith)

All-decimal-IsSafe : (n : ℕ) → All IsSafe (decimal n)
All-decimal-IsSafe n = All-imp IsDigit IsSafe digit-IsSafe (decimal n) (All-decimal n)

abbrev handle_tail : SymbolSpan → Bytes
handle_tail span = ascii "#L" ++ (decimal span.start_line ++ (ascii "-L" ++ decimal span.end_line))

handle_tail-IsSafe : (span : SymbolSpan) → All IsSafe (handle_tail span)
handle_tail-IsSafe span =
    All-append IsSafe (ascii "#L")
      (decimal span.start_line ++ (ascii "-L" ++ decimal span.end_line))
      ((refl, refl), ((refl, refl), tt))
      (All-append IsSafe (decimal span.start_line) (ascii "-L" ++ decimal span.end_line)
        (All-decimal-IsSafe span.start_line)
        (All-append IsSafe (ascii "-L") (decimal span.end_line) ((refl, refl), ((refl, refl), tt))
          (All-decimal-IsSafe span.end_line)))

length-handle_tail : (span : SymbolSpan) → Fits32 span → length (handle_tail span) ≤ 24
length-handle_tail span (s, e) = omega (
  arith,
  length-append (decimal span.start_line) (ascii "-L" ++ decimal span.end_line),
  length-decimal span.start_line s,
  length-decimal span.end_line e,
)

-- The handle of a range of lines is a handle.
pub symbol_handle-new :
    (value : Bytes) (span : SymbolSpan)
    → HasRoom value
    → Fits32 span
    → SourceId.new (symbol_handle value span) ≡ ok (record { value = symbol_handle value span })
unfolding symbol_handle
symbol_handle-new value span h f =
    new_lem (value ++ handle_tail span) (present value)
      (omega (arith, length-append value (handle_tail span), length-handle_tail span f, h.room))
      (All-append IsSafe value (handle_tail span) h.handle.safe (handle_tail-IsSafe span))
  where
    present : (v : Bytes) → (v ++ handle_tail span) ≢ []
    present [] e = cc
    present (b ∷ v) e = cc

module _ (unicode : Unicode) (hash_content : Bytes → ContentHash) where
  -- A chunk of the lines from `start` to `start + count`, counted from 0: its handle and its location name
  -- them, its content is these lines, and more than one line fits in the bound.
  pub record IsPiece (source : ContextCandidate) (max_chunk_bytes start count : ℕ) (text : Bytes)
      (chunk : ContextCandidate) : Type 0 where
    pub handle :
        chunk.source_id.value
        ≡ symbol_handle source.source_id.value
            (record { start_line = start + 1; end_line = start + count })
    pub uri : chunk.location.uri ≡ source.location.uri
    pub first : chunk.location.start_line ≡ some (start + 1)
    pub last : chunk.location.end_line ≡ some (start + count)
    pub content : chunk.content ≡ text
    pub hash : chunk.content_hash ≡ hash_content text
    pub sensitivity : chunk.sensitivity ≡ source.sensitivity
    pub bounded : (count ≡ 1) ⊎ (length text ≤ max_chunk_bytes)

  -- The chunks take the lines one after the other; only lines without any text are left out.
  pub data Tiles (source : ContextCandidate) (max_chunk_bytes : ℕ)
      : ℕ → List Bytes → List ContextCandidate → Type 0 where
    finished : {start : ℕ} → Tiles source max_chunk_bytes start [] []
    blank :
        {start : ℕ} {lines : List Bytes} {chunks : List ContextCandidate} (count : ℕ)
        → 0 < count
        → count ≤ length lines
        → joined count lines ≡ []
        → Tiles source max_chunk_bytes (start + count) (drop count lines) chunks
        → Tiles source max_chunk_bytes start lines chunks
    piece :
        {start : ℕ} {lines : List Bytes} {chunks : List ContextCandidate} (count : ℕ)
        (chunk : ContextCandidate)
        → 0 < count
        → count ≤ length lines
        → IsPiece source max_chunk_bytes start count (joined count lines) chunk
        → Tiles source max_chunk_bytes (start + count) (drop count lines) chunks
        → Tiles source max_chunk_bytes start lines (chunk ∷ chunks)

  module _ (source : ContextCandidate) (query : RepositoryQuery) (max_chunk_bytes : ℕ)
      (room : HasRoom source.source_id.value) (fits : max_chunk_bytes < u64_max) where
    -- One turn of the loop on the lines that it selects.
    symbol_candidate-lines :
        (start count : ℕ)
        → 0 < count
        → start + count ≤ u32_max
        → symbol_candidate hash_content source
            (record { start_line = start + 1; end_line = start + count })
          ≡ (let text = joined count (drop start (str_lines source.content)) in
              let span : SymbolSpan = record { start_line = start + 1; end_line = start + count } in
              if is_empty text
              then none
              else some (
                  symbol_with hash_content source span text
                    (record { value = symbol_handle source.source_id.value span })))
    unfolding symbol_candidate
    symbol_candidate-lines start count p b =
        let span : SymbolSpan = record { start_line = start + 1; end_line = start + count } in
        let from : start + 1 - 1 ≡ start = omega arith in
        let many : start + count - (start + 1) + 1 ≡ count = omega arith in
        let guard : ((start + 1 == 0) || ltb (start + count) (start + 1)) ≡ false = ground arith in
        rw
          (
            guard,
            from,
            many,
            symbol_handle-new source.source_id.value span room (omega arith, omega arith),
          )
          refl

    abbrev Rest : ℕ → List Bytes → ℕ → List ContextCandidate → Type 0
    Rest start lines count = Tiles source max_chunk_bytes (start + count) (drop count lines)

    turn-Tiles :
        (start count : ℕ) (lines : List Bytes) (chunks : List ContextCandidate)
        → IsCount max_chunk_bytes fits lines count
        → lines ≡ drop start (str_lines source.content)
        → start + count ≤ u32_max
        → Rest start lines count chunks
        → Tiles source max_chunk_bytes start lines (
            push_option unicode hash_content
              (Option.map (rescored unicode hash_content query) (
                symbol_candidate hash_content source
                  (record { start_line = to_u32 (start + 1); end_line = to_u32 (start + count) })))
              chunks)
    turn-Tiles start count lines chunks (p, q, r) e b rest =
        let s32 : to_u32 (start + 1) ≡ start + 1 = ground arith in
        let e32 : to_u32 (start + count) ≡ start + count = ground arith in
        rw (s32, e32, symbol_candidate-lines start count p b, ← e)
          (by_text (joined count lines) refl)
      where
        by_text :
            (text : Bytes)
            → joined count lines ≡ text
            → Tiles source max_chunk_bytes start lines (
                push_option unicode hash_content
                  (Option.map (rescored unicode hash_content query) (
                    if is_empty text
                    then none
                    else some (
                        symbol_with hash_content source
                          (record { start_line = start + 1; end_line = start + count })
                          text
                          (record {
                            value =
                                symbol_handle source.source_id.value
                                  (record { start_line = start + 1; end_line = start + count });
                          }))))
                  chunks)
        by_text [] t = blank count p q t rest
        by_text (x ∷ text) t =
            piece count _ p q
              (record {
                handle = refl;
                uri = refl;
                first = refl;
                last = refl;
                content = sym t;
                hash = ap hash_content (sym t);
                sensitivity = refl;
                bounded = r;
              })
              rest

    chunk_loop-Tiles :
        (turns start : ℕ) (lines : List Bytes)
        → length lines ≤ turns
        → lines ≡ drop start (str_lines source.content)
        → start + length lines ≤ u32_max
        → Tiles source max_chunk_bytes start lines
            (chunk_loop unicode hash_content source query max_chunk_bytes turns start lines)
    unfolding chunk_loop
    chunk_loop-Tiles zero start [] h e b = finished
    chunk_loop-Tiles zero start (line ∷ lines) h e b = absurd (omega arith)
    chunk_loop-Tiles (suc turns) start [] h e b = finished
    chunk_loop-Tiles (suc turns) start (line ∷ lines) h e b =
        let count = count_lines max_chunk_bytes true 0 (line ∷ lines) in
        let counted = count_lines-IsCount max_chunk_bytes fits line lines in
        let left = length-drop count (line ∷ lines) in
        turn-Tiles start count (line ∷ lines)
          (chunk_loop unicode hash_content source query max_chunk_bytes turns (start + count)
            (drop count (line ∷ lines)))
          counted e (omega (arith, counted))
          (chunk_loop-Tiles turns (start + count) (drop count (line ∷ lines))
            (omega (arith, counted, left))
            (ap (drop count) e ∙ drop-drop start count (str_lines source.content))
            (omega (arith, counted, left)))

    -- A source that is longer than the bound, has fewer than 2^32 lines, and whose identifier is a handle of at
    -- most 1000 bytes, so that the ranges of its lines have handles too, is divided into chunks that
    -- tile its lines, in their order, where the bound is below 2^64 - 1: a chunk names a range of the lines in its handle and its
    -- location and has their text and the hash of that text, the next chunk goes on where the last one
    -- ended, ranges without any text alone are left out, and a chunk of more than one line is
    -- within the bound. The source itself stands in their place only if there is no chunk.
    pub chunk_candidate-Tiles :
        max_chunk_bytes < length source.content
        → length (str_lines source.content) ≤ u32_max
        → (chunk_candidate unicode hash_content source query max_chunk_bytes ≡ source ∷ []
            × Tiles source max_chunk_bytes 0 (str_lines source.content) [])
          ⊎ Tiles source max_chunk_bytes 0
              (str_lines source.content)
              (chunk_candidate unicode hash_content source query max_chunk_bytes)
    unfolding chunk_candidate
    chunk_candidate-Tiles long b = rw (long_test long) (
        by_chunks _ (
          chunk_loop-Tiles (length (str_lines source.content)) 0 (str_lines source.content)
            (omega arith) refl (omega arith)))
      where
        long_test :
            max_chunk_bytes < length source.content
            → leb (length source.content) max_chunk_bytes ≡ false
        long_test h = ground arith

        by_chunks :
            (chunks : List ContextCandidate)
            → Tiles source max_chunk_bytes 0 (str_lines source.content) chunks
            → ((if is_empty chunks then source ∷ [] else chunks) ≡ source ∷ []
                × Tiles source max_chunk_bytes 0 (str_lines source.content) [])
              ⊎ Tiles source max_chunk_bytes 0
                  (str_lines source.content)
                  (if is_empty chunks then source ∷ [] else chunks)
        by_chunks [] t = inl (refl, t)
        by_chunks (chunk ∷ chunks) t = inr t
