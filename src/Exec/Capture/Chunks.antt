-- ===== src/Exec/Capture/Chunks.antt =====
-- What `read_bounded` keeps of a stream, however the stream is cut into chunks.
use mathlib.Core.Option.{some-injective}
use token_shrinker.Prelude.{
  ◌||◌, some, ℕ, ◌+◌, ◌-◌, ◌/◌, ◌≡◌, refl, sym, ◌≤◌, true, false, List, [], ◌∷◌, ◌++◌, length, take,
  drop, ltb, if◌then◌else◌, Result, ok, err, arith, length-append, Bool-cases, inl, inr, to_u64,
  saturating_add, ok_injective,
}
use token_shrinker.Prelude.Bytes.{Bytes}
use token_shrinker.Prelude.Pieces.{take_all, drop_all}
use token_shrinker.Exec.Capture.{
  CapturedStream, Reading, ends_of, push_chunk, read_loop, close, opened, half_up, close_result,
  isize_max, read_bounded,
}
use token_shrinker.Prelude.Ends.{tail_start, length-head, length-tail}
use token_shrinker.Exec.Capture.Laws.{Holds, push_bytes-Holds}

module _ (head_cap tail_cap : ℕ) where
  push_chunk-Holds :
      (seen : Bytes) (s : Reading) (chunk : Bytes)
      → Holds head_cap tail_cap seen s
      → Holds head_cap tail_cap (seen ++ chunk) (push_chunk head_cap tail_cap s chunk)
  unfolding push_chunk
  push_chunk-Holds seen s chunk i =
      push_bytes-Holds head_cap tail_cap seen
        (record s { total_bytes = saturating_add s.total_bytes (to_u64 (length chunk)) }) chunk
        (record { head_is = i.head_is; tail_is = i.tail_is })

  -- Whatever the reads are, the state is that of the bytes seen.
  read_loop-Holds {ε} :
      {E : Type ε} (reads : List (Result Bytes E)) (seen : Bytes) (s r : Reading)
      → Holds head_cap tail_cap seen s
      → read_loop head_cap tail_cap s reads ≡ ok r
      → (all_seen : Bytes) × Holds head_cap tail_cap all_seen r
  unfolding read_loop
  read_loop-Holds [] seen s r i h = (seen, rw (← ok_injective s r h) i)
  read_loop-Holds (err e ∷ reads) seen s r i h = cc
  read_loop-Holds (ok [] ∷ reads) seen s r i h = (seen, rw (← ok_injective s r h) i)
  read_loop-Holds (ok (b ∷ bytes) ∷ reads) seen s r i h =
      read_loop-Holds reads (seen ++ (b ∷ bytes)) (push_chunk head_cap tail_cap s (b ∷ bytes)) r
        (push_chunk-Holds seen s (b ∷ bytes) i) h

  take_nil : (n : ℕ) → ◌≡◌ {A = List ℕ} [] (take n [])
  take_nil n = sym (take_all n [] (omega arith))

  drop_nil : (n : ℕ) → ◌≡◌ {A = List ℕ} [] (drop n [])
  drop_nil n = sym (drop_all n [] (omega arith))

  opened-Holds : Holds head_cap tail_cap [] opened
  opened-Holds = record {
    head_is = take_nil head_cap;
    tail_is = drop_nil (tail_start head_cap tail_cap 0);
  }

-- What is kept of a stream of the given bytes: all of it when it fits in the capacity, and
-- otherwise its first bytes, half of the capacity rounded up, and its last, half rounded down.
abbrev pub kept : ℕ → Bytes → CapturedStream
kept cap bytes =
    if ltb cap (length bytes)
    then record {
      head = take (half_up cap) bytes;
      tail = drop (length bytes - cap / 2) bytes;
      total_bytes = length bytes;
      truncated = true;
    }
    else record { head = bytes; tail = []; total_bytes = length bytes; truncated = false }

close_result-eq-ok {ε} :
    {E : Type ε} (cap : ℕ) (result : Result Reading E) (stream : CapturedStream)
    → close_result cap result ≡ ok stream
    → (r : Reading) × (result ≡ ok r) × (close cap r ≡ stream)
close_result-eq-ok cap (err e) stream h = cc
close_result-eq-ok cap (ok r) stream h = (r, refl, ok_injective (close cap r) stream h)

-- Whatever the reader returns, in chunks of any size, what is kept of the stream is within the
-- capacity.
pub read_bounded_fits {ε} :
    {E : Type ε} (reads : List (Result Bytes E)) (cap : ℕ) (stream : CapturedStream)
    → read_bounded reads cap ≡ some (ok stream)
    → length stream.head + length stream.tail ≤ cap
unfolding read_bounded close
read_bounded_fits reads cap stream h =
    elim (Bool-cases (ltb isize_max (half_up cap) || ltb isize_max (cap / 2))) [
      | inl e ↦ let never = rw e at h in cc
      | inr e ↦ within (some-injective _ (ok stream) (rw e at h))
    ]
  where
    within :
        close_result cap (read_loop (half_up cap) (cap / 2) opened reads) ≡ ok stream
        → length stream.head + length stream.tail ≤ cap
    within k =
        let (r, p, q) =
          close_result-eq-ok cap (read_loop (half_up cap) (cap / 2) opened reads) stream k in
        let (seen, i) =
          read_loop-Holds (half_up cap) (cap / 2) reads [] opened r
            (opened-Holds (half_up cap) (cap / 2)) p in
        rw (← q) (
          ground (
            arith,
            length-head (half_up cap) (cap / 2) seen (ends_of r) i,
            length-tail (half_up cap) (cap / 2) seen (ends_of r) i,
            length-append r.head r.tail,
          ))
