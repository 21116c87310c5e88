-- ===== src/Exec/Capture.antt =====
-- crates/ts-exec/src/lib.rs: `CapturedStream` and `read_bounded`, which keeps the beginning and the
-- end of a stream. The reader is the list of what its calls return: a chunk, of which an
-- empty one ends the stream, or an error of the type `E`; after the list it is at the end.
pub mod Laws
pub mod Chunks
use token_shrinker.Prelude.{
  ℕ, suc, ◌+◌, ◌-◌, ◌/◌, ◌%◌, ◌^◌, Bool, true, false, ◌||◌, Option, none, some, List, [], ◌∷◌, ◌++◌,
  length, drop, ◌==◌, ltb, if◌then◌else◌, Result, ok, err, saturating_add, to_u64,
}
use token_shrinker.Prelude.Ends.{Ends, push_end}
use token_shrinker.Prelude.Bytes.{Bytes, ascii}

pub record CapturedStream : Type 0 where
  pub head : Bytes
  pub tail : Bytes
  pub total_bytes : ℕ
  pub truncated : Bool

-- The marker is `"\n...[output truncated]...\n"`; a line feed is the byte 10.
abbrev pub truncation_marker : Bytes
truncation_marker = 10 ∷ ascii "...[output truncated]..." ++ (10 ∷ [])

-- `CapturedStream::retained_bytes`
unfoldable pub retained_bytes : CapturedStream → Bytes
retained_bytes stream =
    if stream.truncated then (stream.head ++ truncation_marker) ++ stream.tail else stream.head

-- The local variables of the loop.
pub record Reading : Type 0 where
  pub head : Bytes
  pub tail : Bytes
  pub total_bytes : ℕ

abbrev pub ends_of : Reading → Ends ℕ
ends_of s = record { head = s.head; tail = s.tail }

module _ (head_cap tail_cap : ℕ) where
  -- One byte of the inner loop: `pop_front` makes room at the back.
  unfoldable pub push_byte : Reading → ℕ → Reading
  unfolding push_end
  push_byte s byte =
      let ends = push_end head_cap tail_cap (ends_of s) byte in
      record s { head = ends.head; tail = ends.tail }

  unfoldable pub push_bytes : Reading → Bytes → Reading
  unfolding push_byte
  push_bytes s [] = s
  push_bytes s (byte ∷ bytes) = push_bytes (push_byte s byte) bytes

  -- One chunk of the outer loop.
  unfoldable pub push_chunk : Reading → Bytes → Reading
  unfolding push_bytes
  push_chunk s chunk =
      push_bytes (record s { total_bytes = saturating_add s.total_bytes (to_u64 (length chunk)) })
        chunk

  unfoldable pub read_loop {ε} : {E : Type ε} → Reading → List (Result Bytes E) → Result Reading E
  unfolding push_chunk
  read_loop s [] = ok s
  read_loop s (err e ∷ reads) = err e
  read_loop s (ok [] ∷ reads) = ok s
  read_loop s (ok (byte ∷ bytes) ∷ reads) = read_loop (push_chunk s (byte ∷ bytes)) reads

-- The end of `read_bounded`: a stream that fits is one piece.
unfoldable pub close : ℕ → Reading → CapturedStream
close cap s =
    if ltb (to_u64 cap) s.total_bytes
    then record { head = s.head; tail = s.tail; total_bytes = s.total_bytes; truncated = true }
    else record {
      head = s.head ++ s.tail;
      tail = [];
      total_bytes = s.total_bytes;
      truncated = false;
    }

abbrev pub opened : Reading
opened = record { head = []; tail = []; total_bytes = 0 }

abbrev pub close_result {ε} : {E : Type ε} → ℕ → Result Reading E → Result CapturedStream E
close_result cap (err e) = err e
close_result cap (ok s) = ok (close cap s)

-- `usize::div_ceil` by 2
abbrev pub half_up : ℕ → ℕ
half_up cap = cap / 2 + cap % 2

-- `with_capacity` panics above `isize::MAX` bytes.
abbrev pub isize_max : ℕ
isize_max = 2 ^ 63 - 1

-- A panic is `none`.
unfoldable pub read_bounded {ε} :
    {E : Type ε} → List (Result Bytes E) → ℕ → Option (Result CapturedStream E)
unfolding read_loop close
read_bounded reads cap =
    if ltb isize_max (half_up cap) || ltb isize_max (cap / 2)
    then none
    else some (close_result cap (read_loop (half_up cap) (cap / 2) opened reads))
