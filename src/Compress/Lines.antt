-- ===== src/Compress/Lines.antt =====
-- crates/ts-compress/src/lib.rs: the loop of `TerminalCompressor::push_chunk`, which takes the complete
-- lines off the front of a buffer.
pub mod Laws
use token_shrinker.Prelude.{
  ℕ, zero, suc, Bool, true, false, Option, none, some, List, [], ◌∷◌, ◌==◌, if◌then◌else◌, ◌++◌,
  map,
}
use token_shrinker.Prelude.Bytes.{Bytes, is_empty}

-- `b'\n'` and `b'\r'`
abbrev pub newline : ℕ
newline = 10

abbrev pub carriage_return : ℕ
carriage_return = 13

-- One byte before what the rest of the buffer splits into.
abbrev pub before : ℕ → Option (Bytes × Bytes) → Option (Bytes × Bytes)
before b none = none
before b (some (line, rest)) = some (b ∷ line, rest)

-- `position` of the first newline and `drain` up to it: the line without its newline, and what
-- is left.
unfoldable pub split_newline : Bytes → Option (Bytes × Bytes)
split_newline [] = none
split_newline (b ∷ bs) = if b == newline then some ([], bs) else before b (split_newline bs)

-- `line.last() == Some(&b'\r')`, and `line.pop()` then
unfoldable pub strip_carriage_return : Bytes → Bytes
strip_carriage_return [] = []
strip_carriage_return (b ∷ []) = if b == carriage_return then [] else b ∷ []
strip_carriage_return (b ∷ c ∷ bs) = b ∷ strip_carriage_return (c ∷ bs)

module _ {S : Type 0} (record_line : S → Bytes → S) where
  -- The `while let` loop, for at most `fuel` lines: the state, and the partial line that is left.
  unfoldable pub take_lines : ℕ → S → Bytes → S × Bytes
  unfolding split_newline
  take_lines zero s partial = (s, partial)
  take_lines (suc fuel) s partial = elim (split_newline partial) [
    | none ↦ (s, partial)
    | some (line, rest) ↦ take_lines fuel (record_line s line) rest
  ]

-- One byte before the lines and the partial line of the rest.
abbrev pub put_first : ℕ → List Bytes × Bytes → List Bytes × Bytes
put_first b ([], partial) = ([], b ∷ partial)
put_first b (line ∷ lines, partial) = ((b ∷ line) ∷ lines, partial)

abbrev pub start_line : List Bytes × Bytes → List Bytes × Bytes
start_line (lines, partial) = ([] ∷ lines, partial)

-- The complete lines of a text, and the partial line after the last newline.
unfoldable pub lines_of : Bytes → List Bytes × Bytes
lines_of [] = ([], [])
lines_of (b ∷ bs) = if b == newline then start_line (lines_of bs) else put_first b (lines_of bs)

abbrev last_line : Bytes → List Bytes
last_line partial = if is_empty partial then [] else partial ∷ []

-- `str::lines`: the end of a line is a newline, with a carriage return before it or none, and the
-- last line needs no end.
unfoldable pub str_lines : Bytes → List Bytes
unfolding lines_of strip_carriage_return
str_lines text = let split = lines_of text in map strip_carriage_return split.0 ++ last_line split.1
