-- ===== src/Compress/Terminal.antt =====
-- crates/ts-compress/src/lib.rs: `TerminalCompressor`, the streaming compressor of a command's
-- output, and `compress_terminal`.
pub mod Laws
pub mod Contents
pub mod Summary
use mathlib.Core.Option
use token_shrinker.Prelude.{
  ℕ, suc, ◌+◌, ◌*◌, ◌-◌, ◌^◌, leb, ◌≡◌, Bool, true, false, ◌&&◌, ◌||◌, not, Option, none, some,
  List, [], ◌∷◌, ◌++◌, map, length, any, ◌==◌, if◌then◌else◌, add64,
}
use token_shrinker.Prelude.Bytes.{Bytes, ascii, is_empty, contains}
use token_shrinker.Prelude.Ends.{Ends, push_end}
use token_shrinker.Prelude.Integers.{ℤ}
use token_shrinker.Prelude.Map.{upsert}
use token_shrinker.Prelude.Numerals.{parse_u32}
use token_shrinker.Prelude.Unicode.{Unicode}
use token_shrinker.Compress.Artifacts.{RawArtifactHandle}
use token_shrinker.Compress.Lines.{strip_carriage_return, take_lines}

-- A duration is a number of nanoseconds.
pub record TerminalInput : Type 0 where
  pub command : List Bytes
  pub exit_code : Option ℤ
  pub duration : ℕ
  pub stdout : Bytes
  pub stderr : Bytes
  pub truncated : Bool
  pub raw_handle : Option RawArtifactHandle

pub record TerminalEvidence : Type 0 where
  pub line : Bytes
  pub count : ℕ

pub record TerminalSummary : Type 0 where
  pub command : List Bytes
  pub exit_code : Option ℤ
  pub duration : ℕ
  pub truncated : Bool
  pub first_lines : List Bytes
  pub tail_lines : List Bytes
  pub evidence : List TerminalEvidence
  pub raw_handle : Option RawArtifactHandle

-- What `record_line` changes: `first_lines`, `tail_lines` and `evidence`.
pub record Recorded : Type 0 where
  pub lines : Ends Bytes
  pub evidence : List (Bytes × ℕ)

-- `partial` is what stands in `stdout_partial` and `stderr_partial`.
pub record TerminalCompressor : Type 0 where
  pub input : TerminalInput
  pub first_limit : ℕ
  pub tail_limit : ℕ
  pub recorded : Recorded
  pub stdout_partial : Bytes
  pub stderr_partial : Bytes

-- The part before the last colon and the part after it, of what follows the byte `b`.
abbrev pub rsplit_before : ℕ → Bytes → Option (Bytes × Bytes) → Option (Bytes × Bytes)
rsplit_before b bs none = if b == b':' then some ([], bs) else none
rsplit_before b bs (some (prefix, suffix)) = some (b ∷ prefix, suffix)

-- `rsplit_once(':')`
unfoldable pub rsplit_colon : Bytes → Option (Bytes × Bytes)
rsplit_colon [] = none
rsplit_colon (b ∷ bs) = rsplit_before b bs (rsplit_colon bs)

abbrev pub is_some {ℓ} : {A : Type ℓ} → Option A → Bool
is_some none = false
is_some (some _) = true

-- The slash and the backslash.
abbrev pub is_separator : ℕ → Bool
is_separator b = b == b'/' || b == 92

abbrev pub is_reference : Unicode → Option (Bytes × Bytes) → Bool
is_reference unicode none = false
is_reference unicode (some (prefix, suffix)) =
    is_some (parse_u32 (unicode.trim suffix)) && any is_separator prefix

unfoldable pub has_file_line_reference : Unicode → Bytes → Bool
unfolding rsplit_colon parse_u32
has_file_line_reference unicode line = is_reference unicode (rsplit_colon line)

abbrev pub evidence_markers : List Bytes
evidence_markers =
    ascii "error"
    ∷ ascii "warning"
    ∷ ascii "failed"
    ∷ ascii "failure"
    ∷ ascii "panicked"
    ∷ ascii "assert"
    ∷ []

-- The test of `record_line` for a line that is evidence.
unfoldable pub is_evidence : Unicode → Bytes → Bool
unfolding has_file_line_reference
is_evidence unicode line =
    any (contains (unicode.to_lowercase line)) evidence_markers
    || has_file_line_reference unicode line

-- The compressor before its first chunk.
abbrev pub empty : TerminalInput → ℕ → ℕ → TerminalCompressor
empty input first_limit tail_limit = record {
  input = input;
  first_limit = first_limit;
  tail_limit = tail_limit;
  recorded = record { lines = record { head = []; tail = [] }; evidence = [] };
  stdout_partial = [];
  stderr_partial = [];
}

-- `VecDeque::with_capacity` panics above `isize::MAX` bytes; a `String` has 24.
abbrev pub can_allocate : ℕ → Bool
can_allocate tail_limit = leb (24 * tail_limit) (2 ^ 63 - 1)

-- `TerminalCompressor::new`; a panic is `none`.
unfoldable pub new : TerminalInput → ℕ → ℕ → Option TerminalCompressor
new input first_limit tail_limit =
    if can_allocate tail_limit then some (empty input first_limit tail_limit) else none

module _ (unicode : Unicode) where
  -- `record_line` with the compressor's limits.
  unfoldable pub record_line : ℕ → ℕ → Recorded → Bytes → Recorded
  unfolding is_evidence push_end upsert
  record_line first_limit tail_limit s line = record {
    lines = push_end first_limit tail_limit s.lines line;
    evidence =
        if is_evidence unicode line
        then upsert line (λ count. add64 count 1) 1 s.evidence
        else s.evidence;
  }

  -- The body of the loop of `push_chunk`.
  unfoldable pub record_raw_line : ℕ → ℕ → Recorded → Bytes → Recorded
  unfolding record_line strip_carriage_return
  record_raw_line first_limit tail_limit s line =
      record_line first_limit tail_limit s (unicode.lossy (strip_carriage_return line))

  -- `push_chunk`: every turn of its loop takes a newline off the buffer, so the bytes of the
  -- buffer are enough turns.
  unfoldable pub push_chunk : TerminalCompressor → Bytes → Bytes → Recorded × Bytes
  unfolding record_raw_line take_lines
  push_chunk c partial chunk =
      take_lines (record_raw_line c.first_limit c.tail_limit) (suc (length (partial ++ chunk)))
        c.recorded (partial ++ chunk)

  unfoldable pub push_stdout : TerminalCompressor → Bytes → TerminalCompressor
  unfolding push_chunk
  push_stdout c chunk =
      let pushed = push_chunk c c.stdout_partial chunk in
      record c { recorded = pushed.0; stdout_partial = pushed.1 }

  unfoldable pub push_stderr : TerminalCompressor → Bytes → TerminalCompressor
  unfolding push_chunk
  push_stderr c chunk =
      let pushed = push_chunk c c.stderr_partial chunk in
      record c { recorded = pushed.0; stderr_partial = pushed.1 }

  -- A partial line is recorded at the end, if it is not empty.
  unfoldable pub record_partial : ℕ → ℕ → Recorded → Bytes → Recorded
  unfolding record_line
  record_partial first_limit tail_limit s partial =
      if is_empty partial then s else record_line first_limit tail_limit s (unicode.lossy partial)

  unfoldable pub finish : TerminalCompressor → TerminalSummary
  unfolding record_partial
  finish c =
      let after_stdout = record_partial c.first_limit c.tail_limit c.recorded c.stdout_partial in
      let recorded = record_partial c.first_limit c.tail_limit after_stdout c.stderr_partial in
      record {
        command = c.input.command;
        exit_code = c.input.exit_code;
        duration = c.input.duration;
        truncated = c.input.truncated;
        first_lines = recorded.lines.head;
        tail_lines = recorded.lines.tail;
        evidence = map (λ e. record { line = e.0; count = e.1 }) recorded.evidence;
        raw_handle = c.input.raw_handle;
      }

  unfoldable pub compress_terminal : TerminalInput → ℕ → ℕ → Option TerminalSummary
  unfolding new push_stdout push_stderr finish
  compress_terminal input first_limit tail_limit =
      Option.map (λ c. finish (push_stderr (push_stdout c input.stdout) input.stderr))
        (new input first_limit tail_limit)
