-- ===== src/Tests/Compression.antt =====
-- The compressors at concrete inputs.
use mathlib.Core.Option
use token_shrinker.Prelude.{
  ◌+◌, ◌≡◌, refl, ◌≤◌, false, none, some, List, [], ◌∷◌, ◌++◌, map, All, occurrences, arith, concat,
}
use token_shrinker.Prelude.Bytes.{Bytes, ascii, to_ascii_lowercase}
use token_shrinker.Prelude.Integers.{pos}
use token_shrinker.Prelude.Order.{cmp_bytes}
use token_shrinker.Prelude.Unicode.{Unicode}
use token_shrinker.Types.Count.{TokenBudget, IsNonZeroU32}
use token_shrinker.Context.Candidate.{ContextCandidate, repository_file, is_public}
use token_shrinker.Compress.Lines.{str_lines, lines_of}
use token_shrinker.Compress.Ranges.Laws.{expand}
use token_shrinker.Compress.Terminal.{
  TerminalInput, TerminalSummary, TerminalEvidence, new, finish, compress_terminal,
}
use token_shrinker.Compress.Terminal.Laws.{
  push_all_stdout, push_all_stderr, streamed-compress_terminal,
}
use token_shrinker.Compress.Terminal.Contents.{output_lines}
use token_shrinker.Compress.Terminal.Summary.{IsSummary, IsCopy, compress_terminal-IsSummary}
use token_shrinker.Compress.Extract.{CompressedContext, compress_context}
use token_shrinker.Compress.Extract.Passages.{IsVerbatim, line_span, joined_length}
use token_shrinker.Compress.Extract.Laws.{
  omitted_span, compress_context_fits, compress_context-partition,
}

-- Texts of ASCII, on which the tables of Unicode are those of ASCII.
abbrev unicode : Unicode
unicode = record {
  lossy = λ text. text;
  to_lowercase = map to_ascii_lowercase;
  trim = λ text. text;
  trim_start = λ text. text;
}

abbrev outs : List Bytes
outs = ascii "a" ∷ (10 ∷ ascii "err") ∷ (ascii "or" ++ (10 ∷ ascii "b")) ∷ []

abbrev errors : List Bytes
errors = ascii "error" ∷ (10 ∷ []) ∷ []

abbrev input : TerminalInput
input = record {
  command = ascii "make" ∷ [];
  exit_code = some (pos 2);
  duration = 5;
  stdout = concat outs;
  stderr = concat errors;
  truncated = false;
  raw_handle = none;
}

-- The first line, and the last one; the line that is evidence stands twice in the output.
summarizes :
    Option.map {B = List Bytes × List Bytes × List TerminalEvidence}
      (λ (s : TerminalSummary). (s.first_lines, s.tail_lines, s.evidence))
      (compress_terminal unicode input 1 1)
    ≡ some (ascii "a" ∷ [], ascii "b" ∷ [], record { line = ascii "error"; count = 2 } ∷ [])
unfolding compress_terminal cmp_bytes
summarizes = refl

streamed-compress_terminal_example :
    Option.map
      (λ c. finish unicode (push_all_stderr unicode (push_all_stdout unicode c outs) errors))
      (new input 1 1)
    ≡ compress_terminal unicode input 1 1
streamed-compress_terminal_example = streamed-compress_terminal unicode input 1 1 outs errors

compress_terminal-IsSummary_example :
    (summary : TerminalSummary) × (compress_terminal unicode input 1 1 ≡ some summary)
    × IsSummary unicode 1 1 (output_lines unicode input.stdout input.stderr) summary
    × IsCopy unicode input summary
unfolding output_lines lines_of
compress_terminal-IsSummary_example =
    compress_terminal-IsSummary unicode input 1 1 (omega arith) (omega arith)

-- Five lines, of which the second one has the term.
abbrev source : ContextCandidate
source = record {
  source_id = record { value = ascii "s" };
  source_kind = repository_file;
  location = record { uri = ascii "s"; start_line = none; end_line = none };
  content =
      ascii "ab"
      ++ (10 ∷ ascii "Term" ++ (10 ∷ ascii "cd" ++ (10 ∷ ascii "ef" ++ (10 ∷ ascii "fn g"))));
  content_hash = record { value = ascii "h" };
  sensitivity = is_public;
  modified_unix_ms = none;
  relevance = record {
    exact_match = false;
    term_match_count = 0;
    path_match = false;
    diagnostic = false;
    freshness = 0;
  };
}

abbrev terms : List Bytes
terms = ascii "term" ∷ []

abbrev budget : TokenBudget
budget = record { get = 24 }

budget-IsNonZeroU32 : IsNonZeroU32 budget
budget-IsNonZeroU32 = record { positive = omega arith; fits = omega arith }

-- The line with the term, the definition and, as far as the budget goes, a neighbour.
abbrev extract : CompressedContext
extract = record {
  passages =
      record {
        source_id = source.source_id;
        start_line = 1;
        end_line = 2;
        content = ascii "ab" ++ (10 ∷ ascii "Term");
      }
      ∷ record {
        source_id = source.source_id;
        start_line = 5;
        end_line = 5;
        content = ascii "fn g";
      }
      ∷ [];
  omitted_ranges = record { start_line = 3; end_line = 4 } ∷ [];
  used_tokens = 22;
}

extracts : compress_context unicode source terms 1 budget ≡ some extract
unfolding compress_context
extracts = refl

compress_context_fits_example :
    (c : CompressedContext) × (compress_context unicode source terms 1 budget ≡ some c)
    × All (IsVerbatim (str_lines source.content)) c.passages
    × (joined_length c.passages ≤ c.used_tokens)
    × (c.used_tokens ≤ budget.get)
unfolding str_lines
compress_context_fits_example =
    compress_context_fits unicode source terms 1 budget budget-IsNonZeroU32 (omega arith)

compress_context-partition_example :
    (c : CompressedContext) × (compress_context unicode source terms 1 budget ≡ some c)
    × (occurrences 3 (expand (map line_span c.passages))
          + occurrences 3 (expand (map omitted_span c.omitted_ranges))
        ≡ 1)
unfolding str_lines
compress_context-partition_example =
    compress_context-partition unicode source terms 1 budget budget-IsNonZeroU32 (omega arith) 3
