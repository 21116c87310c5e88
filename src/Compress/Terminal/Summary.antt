-- ===== src/Compress/Terminal/Summary.antt =====
-- crates/ts-compress/src/lib.rs: `compress_terminal`, with the lines of the output.
use token_shrinker.Prelude.{
  true, some, ◌*◌, ℕ, ◌+◌, ◌-◌, ◌^◌, ◌≡◌, refl, sym, ◌<◌, max, List, [], ◌++◌, map, take, drop,
  length, length-append, length-map, arith,
}
use token_shrinker.Prelude.Bytes.{Bytes}
use token_shrinker.Prelude.Map.{get, IsMap}
use token_shrinker.Prelude.Unicode.{Unicode}
use token_shrinker.Prelude.Pieces.{take_all, drop_all}
use token_shrinker.Compress.Lines.{lines_of}
use token_shrinker.Compress.Terminal.{
  TerminalInput, TerminalEvidence, TerminalSummary, Recorded, record_partial, finish, can_allocate,
  compress_terminal,
}
use token_shrinker.Compress.Terminal.Laws.{feed, both, summary_of, compress_terminal_lem}
use token_shrinker.Compress.Terminal.Contents.{
  Summarizes, text_of, partial_of, output_lines, tally, count_of, record_all-Summarizes,
  record_partial-Summarizes,
}

abbrev pub evidence_entry : Bytes × ℕ → TerminalEvidence
evidence_entry e = record { line = e.0; count = e.1 }

module _ (unicode : Unicode) where
  -- The summary of the lines: the first of them, the last that are not among those, and each line
  -- of evidence once, in ascending order, with the number of times that it stands there.
  pub record IsSummary (f t : ℕ) (lines : List Bytes) (summary : TerminalSummary) : Type 0 where
    pub first : summary.first_lines ≡ take f lines
    pub last : summary.tail_lines ≡ drop (max f (length lines - t)) lines
    pub table : List (Bytes × ℕ)
    pub is_map : IsMap table
    pub evidence_is : summary.evidence ≡ map evidence_entry table
    pub counts : (x : Bytes) → count_of (get x table) ≡ tally unicode x lines
    pub positive : (x : Bytes) (n : ℕ) → get x table ≡ some n → 0 < n

  -- What the summary takes over from the input.
  abbrev pub IsCopy : TerminalInput → TerminalSummary → Type 0
  IsCopy input summary =
      (summary.command ≡ input.command)
      × (summary.exit_code ≡ input.exit_code)
      × (summary.duration ≡ input.duration)
      × (summary.truncated ≡ input.truncated)
      × (summary.raw_handle ≡ input.raw_handle)

  abbrev start : Recorded
  start = record { lines = record { head = []; tail = [] }; evidence = [] }

  start-Summarizes : (f t : ℕ) → Summarizes unicode f t [] start
  unfolding get
  start-Summarizes f t = record {
    ends = record {
      head_is = sym (take_all f [] (omega arith));
      tail_is = sym (drop_all (max f (0 - t)) [] (omega arith));
    };
    is_map = tt;
    counts = λ x. ground arith;
    positive = λ x n g. cc;
  }

  -- The state that `finish` reads.
  final : ℕ → ℕ → Bytes → Bytes → Recorded
  final f t out error =
      record_partial unicode f t
        (record_partial unicode f t (both unicode f t out error).1.0
          (both unicode f t out error).0.1)
        (both unicode f t out error).1.1

  final-Summarizes :
      (f t : ℕ) (out error : Bytes)
      → length (output_lines unicode out error) + 2 < 2 ^ 64
      → Summarizes unicode f t (output_lines unicode out error) (final f t out error)
  unfolding final feed output_lines
  final-Summarizes f t out error h =
      let a = map (text_of unicode) (lines_of out).0 in
      let b = map (text_of unicode) (lines_of error).0 in
      let p = partial_of unicode (lines_of out).1 in
      let q = partial_of unicode (lines_of error).1 in
      let la = length-map (text_of unicode) (lines_of out).0 in
      let lb = length-map (text_of unicode) (lines_of error).0 in
      let lab = length-append a b in
      let labp = length-append (a ++ b) p in
      let labpq = length-append ((a ++ b) ++ p) q in
      let bound : length (((a ++ b) ++ p) ++ q) + 2 < 2 ^ 64 = h in
      let i =
        record_all-Summarizes unicode f t a (lines_of error).0 _
          (omega (arith, bound, la, lb, lab, labp, labpq))
          (record_all-Summarizes unicode f t [] (lines_of out).0 start
            (omega (arith, bound, la, lb, lab, labp, labpq)) (start-Summarizes f t)) in
      record_partial-Summarizes unicode f t ((a ++ b) ++ p) _ (lines_of error).1
        (omega (arith, bound, labpq))
        (record_partial-Summarizes unicode f t (a ++ b) _ (lines_of out).1
          (omega (arith, bound, labp, labpq)) i)

  -- Unless there are about 2^64 lines or the last lines have no room in the address space, there is a summary, of
  -- the command, the exit code, the duration, the truncation and the raw handle of the input. It holds
  -- the first lines of the output and its last lines that are not among them, and its evidence are
  -- the lines of the output that are evidence, and no other line: each once, in ascending order, with the
  -- number of times that it stands in the output.
  pub compress_terminal-IsSummary :
      (input : TerminalInput) (f t : ℕ)
      → length (output_lines unicode input.stdout input.stderr) + 2 < 2 ^ 64
      → 24 * t < 2 ^ 63
      → (summary : TerminalSummary) × (compress_terminal unicode input f t ≡ some summary)
        × IsSummary f t (output_lines unicode input.stdout input.stderr) summary
        × IsCopy input summary
  unfolding summary_of finish final
  compress_terminal-IsSummary input f t h r =
      let i = final-Summarizes f t input.stdout input.stderr h in
      (
        summary_of unicode input f t input.stdout input.stderr,
        compress_terminal_lem unicode input f t (room r),
        record {
          first = i.ends.head_is;
          last = i.ends.tail_is;
          table = (final f t input.stdout input.stderr).evidence;
          is_map = i.is_map;
          evidence_is = refl;
          counts = i.counts;
          positive = i.positive;
        },
        (refl, refl, refl, refl, refl),
      )
    where
      room : 24 * t < 2 ^ 63 → can_allocate t ≡ true
      room h = ground arith
