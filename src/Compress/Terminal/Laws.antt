-- ===== src/Compress/Terminal/Laws.antt =====
-- The streaming compressor does not depend on how the output is cut into chunks.
use token_shrinker.Prelude.{
  true, some, Bool-cases, inl, inr, ℕ, suc, ◌≡◌, refl, sym, ap, ◌∙◌, List, [], ◌∷◌, ◌++◌, concat,
  length, arith,
}
use mathlib.Core.Option
use mathlib.Core.Path.{ap₂}
use token_shrinker.Prelude.Bytes.{Bytes}
use token_shrinker.Prelude.Pieces.{append_assoc, append_nil}
use token_shrinker.Prelude.Unicode.{Unicode}
use token_shrinker.Compress.Lines.{lines_of}
use token_shrinker.Compress.Lines.Laws.{
  lines_of-append, record_all, record_all-append, take_lines_lem,
}
use token_shrinker.Compress.Terminal.{
  TerminalInput, TerminalSummary, Recorded, TerminalCompressor, record_raw_line, push_chunk,
  push_stdout, push_stderr, finish, empty, can_allocate, new, compress_terminal,
}

module _ (unicode : Unicode) (first_limit tail_limit : ℕ) where
  -- What the recorded lines and the partial line become after more bytes.
  unfoldable pub feed : Recorded × Bytes → Bytes → Recorded × Bytes
  feed (s, partial) chunk =
      let split = lines_of (partial ++ chunk) in
      (record_all (record_raw_line unicode first_limit tail_limit) s split.0, split.1)

  feed-append : (s : Recorded × Bytes) (xs ys : Bytes) → feed (feed s xs) ys ≡ feed s (xs ++ ys)
  unfolding feed
  feed-append (s, partial) xs ys =
      let r = record_raw_line unicode first_limit tail_limit in
      let split = lines_of (partial ++ xs) in
      rw
        (
          ← append_assoc partial xs ys,
          lines_of-append (partial ++ xs) ys,
          record_all-append r s split.0 (lines_of (split.1 ++ ys)).0,
        )
        refl

  -- The chunks one after the other.
  abbrev pub feed_all : Recorded × Bytes → List Bytes → Recorded × Bytes
  feed_all s [] = s
  feed_all s (chunk ∷ chunks) = feed_all (feed s chunk) chunks

  feed_all-concat :
      (s : Recorded × Bytes) (chunks : List Bytes)
      → feed s [] ≡ s
      → feed_all s chunks ≡ feed s (concat chunks)
  feed_all-concat s [] e = sym e
  feed_all-concat s (chunk ∷ chunks) e =
      feed_all-concat (feed s chunk) chunks
        (feed-append s chunk [] ∙ ap (feed s) (append_nil chunk))
      ∙ feed-append s chunk (concat chunks)

  feed-nil : (s : Recorded) → feed (s, []) [] ≡ (s, [])
  unfolding feed lines_of
  feed-nil s = refl

  pub feed_all-start :
      (s : Recorded) (chunks : List Bytes) → feed_all (s, []) chunks ≡ feed (s, []) (concat chunks)
  feed_all-start s chunks = feed_all-concat (s, []) chunks (feed-nil s)

module _ (unicode : Unicode) where
  pub push_chunk_lem :
      (c : TerminalCompressor) (partial chunk : Bytes)
      → push_chunk unicode c partial chunk
        ≡ feed unicode c.first_limit c.tail_limit (c.recorded, partial) chunk
  unfolding push_chunk feed
  push_chunk_lem c partial chunk =
      take_lines_lem (record_raw_line unicode c.first_limit c.tail_limit)
        (suc (length (partial ++ chunk))) c.recorded (partial ++ chunk) (omega arith)

  -- Several chunks pushed one after the other.
  abbrev pub push_all_stdout : TerminalCompressor → List Bytes → TerminalCompressor
  push_all_stdout c [] = c
  push_all_stdout c (chunk ∷ chunks) = push_all_stdout (push_stdout unicode c chunk) chunks

  abbrev pub push_all_stderr : TerminalCompressor → List Bytes → TerminalCompressor
  push_all_stderr c [] = c
  push_all_stderr c (chunk ∷ chunks) = push_all_stderr (push_stderr unicode c chunk) chunks

  abbrev with_stdout : TerminalCompressor → Recorded × Bytes → TerminalCompressor
  with_stdout c s = record c { recorded = s.0; stdout_partial = s.1 }

  abbrev with_stderr : TerminalCompressor → Recorded × Bytes → TerminalCompressor
  with_stderr c s = record c { recorded = s.0; stderr_partial = s.1 }

  push_all_stdout_lem :
      (c : TerminalCompressor) (s : Recorded × Bytes) (chunks : List Bytes)
      → push_all_stdout (with_stdout c s) chunks
        ≡ with_stdout c (feed_all unicode c.first_limit c.tail_limit s chunks)
  unfolding push_stdout
  push_all_stdout_lem c s [] = refl
  push_all_stdout_lem c s (chunk ∷ chunks) =
      ap (λ r. push_all_stdout (with_stdout c r) chunks)
        (push_chunk_lem (with_stdout c s) s.1 chunk)
      ∙ push_all_stdout_lem c (feed unicode c.first_limit c.tail_limit s chunk) chunks

  push_all_stderr_lem :
      (c : TerminalCompressor) (s : Recorded × Bytes) (chunks : List Bytes)
      → push_all_stderr (with_stderr c s) chunks
        ≡ with_stderr c (feed_all unicode c.first_limit c.tail_limit s chunks)
  unfolding push_stderr
  push_all_stderr_lem c s [] = refl
  push_all_stderr_lem c s (chunk ∷ chunks) =
      ap (λ r. push_all_stderr (with_stderr c r) chunks)
        (push_chunk_lem (with_stderr c s) s.1 chunk)
      ∙ push_all_stderr_lem c (feed unicode c.first_limit c.tail_limit s chunk) chunks

  -- The recorded lines and the partial lines after both streams.
  abbrev pub both : ℕ → ℕ → Bytes → Bytes → (Recorded × Bytes) × (Recorded × Bytes)
  both f t out error =
      let start : Recorded = record { lines = record { head = []; tail = [] }; evidence = [] } in
      let first = feed unicode f t (start, []) out in (first, feed unicode f t (first.0, []) error)

  pushed_both :
      (input : TerminalInput) (f t : ℕ) (outs errors : List Bytes)
      → push_all_stderr (push_all_stdout (empty input f t) outs) errors
        ≡ with_stderr
            (with_stdout (empty input f t) (both f t (concat outs) (concat errors)).0)
            (both f t (concat outs) (concat errors)).1
  pushed_both input f t outs errors =
      let start : Recorded = record { lines = record { head = []; tail = [] }; evidence = [] } in
      let c = empty input f t in
      let first = feed unicode f t (start, []) (concat outs) in
      ap (λ d. push_all_stderr d errors)
        (push_all_stdout_lem c (start, []) outs
          ∙ ap (with_stdout c) (feed_all-start unicode f t start outs))
      ∙ push_all_stderr_lem (with_stdout c first) (first.0, []) errors
      ∙ ap (with_stderr (with_stdout c first)) (feed_all-start unicode f t first.0 errors)

  -- The summary that `finish` makes of the lines of both streams.
  unfoldable pub summary_of : TerminalInput → ℕ → ℕ → Bytes → Bytes → TerminalSummary
  summary_of input f t out error =
      finish unicode
        (with_stderr (with_stdout (empty input f t) (both f t out error).0) (both f t out error).1)

  summary_of-empty :
      (input : TerminalInput) (f t : ℕ) (outs errors : List Bytes)
      → finish unicode (push_all_stderr (push_all_stdout (empty input f t) outs) errors)
        ≡ summary_of input f t (concat outs) (concat errors)
  unfolding summary_of
  summary_of-empty input f t outs errors = ap (finish unicode) (pushed_both input f t outs errors)

  pub compress_terminal_lem :
      (input : TerminalInput) (f t : ℕ)
      → can_allocate t ≡ true
      → compress_terminal unicode input f t ≡ some (summary_of input f t input.stdout input.stderr)
  unfolding compress_terminal new
  compress_terminal_lem input f t e = rw e (
      ap some (
        summary_of-empty input f t (input.stdout ∷ []) (input.stderr ∷ [])
        ∙ ap₂ (λ out error. summary_of input f t out error) (append_nil input.stdout)
            (append_nil input.stderr)))

  -- Output that arrives in chunks, in any division, gives the summary of `compress_terminal` on the
  -- whole output, when all of standard output comes before standard error; and if the one panics,
  -- for want of room for the last lines, so does the other.
  pub streamed-compress_terminal :
      (input : TerminalInput) (first_limit tail_limit : ℕ) (outs errors : List Bytes)
      → Option.map
          (λ c. finish unicode (push_all_stderr (push_all_stdout c outs) errors))
          (new input first_limit tail_limit)
        ≡ compress_terminal unicode
            (record input { stdout = concat outs; stderr = concat errors })
            first_limit
            tail_limit
  unfolding new compress_terminal summary_of finish
  streamed-compress_terminal input first_limit tail_limit outs errors =
      let whole : TerminalInput = record input { stdout = concat outs; stderr = concat errors } in
      elim (Bool-cases (can_allocate tail_limit)) [
        | inl e ↦
            rw e (ap some (summary_of-empty input first_limit tail_limit outs errors))
            ∙ sym (compress_terminal_lem whole first_limit tail_limit e)
        | inr e ↦ rw e refl
      ]
