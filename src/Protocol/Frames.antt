-- ===== src/Protocol/Frames.antt =====
-- Writing a frame and reading it back, and the bounds that both ends keep.
use token_shrinker.Prelude.{
  ℕ, ◌≡◌, refl, ◌↔◌, ◌≤◌, ◌<◌, ◌++◌, length, length-append, length-take, take-append-drop, Result,
  ok, >>=-eq-ok, map_err, map_err-eq-ok, arith, u32_max,
}
use token_shrinker.Prelude.Bytes.{Bytes}
use token_shrinker.Prelude.Pieces.{append_assoc, take-append, drop-append}
use token_shrinker.Prelude.BigEndian.{
  to_be_bytes, from_be_bytes, length-to_be_bytes, from_be_bytes-to_be_bytes, Fits-u32,
}
use token_shrinker.Protocol.{
  ProtocolError, read_exact, json, write_frame, read_payload, read_sized, read_frame,
}

-- Reading as many bytes as a text has takes it from the front of the reader.
read_exact-append :
    {J : Type 0} (n : ℕ) (xs ys : Bytes)
    → length xs ≡ n
    → read_exact {J = J} n (xs ++ ys) ≡ ok (xs, ys)
unfolding read_exact
read_exact-append n xs ys e =
    rw (← e, take-append xs ys, drop-append xs ys) (ground (arith, length-append xs ys))

read_exact-eq-ok :
    {J : Type 0} (n : ℕ) (reader : Bytes) {r : Bytes × Bytes}
    → read_exact {J = J} n reader ≡ ok r
    → (reader ≡ r.0 ++ r.1) × (length r.0 ≡ n)
unfolding read_exact
read_exact-eq-ok n reader h = ground (arith, take-append-drop n reader, length-take n reader)

-- The frame of a payload: its length in four bytes, and then its bytes.
unfoldable pub frame : Bytes → Bytes
frame payload = to_be_bytes 4 (length payload) ++ payload

module _ {J T : Type 0} (to_vec : T → Result Bytes J) (from_slice : Bytes → Result T J) where
  -- With a limit that is a 32-bit number, `write_frame` succeeds exactly when the serialized value
  -- is not empty and within the limit, and then it appends one frame to what was written.
  pub write_frame_iff :
      (written : Bytes) (value : T) (payload : Bytes) (max : ℕ) (out : Bytes)
      → max ≤ u32_max
      → to_vec value ≡ ok payload
      → (write_frame to_vec written value max ≡ ok out)
        ↔ (((0 < length payload) × (length payload ≤ max)) × (out ≡ written ++ frame payload))
  unfolding write_frame frame
  write_frame_iff written value payload max out m e =
      rw e (ground (arith, append_assoc written (to_be_bytes 4 (length payload)) payload))

  -- A value whose text the decoder reads back is read back from the frame that was written for it,
  -- by a reader whose limit is not below the writer's, which is a 32-bit number, with all that follows the frame left to read.
  pub read_frame-write_frame :
      (written : Bytes) (value : T) (payload : Bytes) (max limit : ℕ) (out rest : Bytes)
      → max ≤ u32_max
      → max ≤ limit
      → to_vec value ≡ ok payload
      → from_slice payload ≡ ok value
      → write_frame to_vec written value max ≡ ok out
      → (sent : Bytes) × (out ≡ written ++ sent)
        × (read_frame from_slice (sent ++ rest) limit ≡ ok (value, rest))
  unfolding read_frame read_sized read_payload frame
  read_frame-write_frame written value payload max limit out rest m l e d h =
      let w = (write_frame_iff written value payload max out m e).0 h in
      let size = length payload in
      (
        frame payload,
        w.1,
        rw
            (
              append_assoc (to_be_bytes 4 size) payload rest,
              read_exact-append {J = J} 4 (to_be_bytes 4 size) (payload ++ rest)
                  (length-to_be_bytes 4 size),
              from_be_bytes-to_be_bytes 4 size (Fits-u32 size (omega (arith, w.0))),
              read_exact-append {J = J} size payload rest refl,
              d,
            )
            (ground (arith, w.0)),
      )

  payload_of :
      (size : ℕ) (reader : Bytes) (value : T) (rest : Bytes) (p : Bytes × Bytes)
      → read_exact {J = J} size reader ≡ ok p
      → (t : T) × (map_err {F = ProtocolError J} json (from_slice p.0) ≡ ok t)
        × (◌≡◌ {A = Result (T × Bytes) (ProtocolError J)} (ok (t, p.1)) (ok (value, rest)))
      → (payload : Bytes) × (reader ≡ payload ++ rest)
        × (length payload ≡ size)
        × (from_slice payload ≡ ok value)
  payload_of size reader value rest (payload, after) r (t, d, e) = (
    payload,
    ground (arith, read_exact-eq-ok size reader r, map_err-eq-ok json (from_slice payload) t d),
    (read_exact-eq-ok size reader r).1,
    ground (arith, map_err-eq-ok json (from_slice payload) t d),
  )

  read_payload-eq-ok :
      (size : ℕ) (reader : Bytes) (value : T) (rest : Bytes)
      → read_payload from_slice size reader ≡ ok (value, rest)
      → (payload : Bytes) × (reader ≡ payload ++ rest)
        × (length payload ≡ size)
        × (from_slice payload ≡ ok value)
  unfolding read_payload
  read_payload-eq-ok size reader value rest h =
      let (p, r, k) = >>=-eq-ok (read_exact size reader) _ h in
      payload_of size reader value rest p r (>>=-eq-ok (map_err json (from_slice p.0)) _ k)

  read_sized-eq-ok :
      (limit : ℕ) (p : Bytes × Bytes) (value : T) (rest : Bytes)
      → read_sized from_slice limit p ≡ ok (value, rest)
      → (0 < from_be_bytes p.0)
        × (from_be_bytes p.0 ≤ limit)
        × (read_payload from_slice (from_be_bytes p.0) p.1 ≡ ok (value, rest))
  unfolding read_sized
  read_sized-eq-ok limit p value rest h = ground arith

  -- A value that was read came from a whole frame at the front of the reader: four bytes that
  -- give a length from 1 to the limit, and that many bytes, which decode to the value.
  pub read_frame_bounded :
      (reader : Bytes) (limit : ℕ) (value : T) (rest : Bytes)
      → read_frame from_slice reader limit ≡ ok (value, rest)
      → (header : Bytes) × (payload : Bytes) × (reader ≡ header ++ (payload ++ rest))
        × (length header ≡ 4)
        × (from_be_bytes header ≡ length payload)
        × (0 < length payload)
        × (length payload ≤ limit)
        × (from_slice payload ≡ ok value)
  unfolding read_frame
  read_frame_bounded reader limit value rest h =
      let (p, r, k) = >>=-eq-ok (read_exact 4 reader) _ h in
      let (positive, bounded, k') = read_sized-eq-ok limit p value rest k in
      let (payload, s, n, d) = read_payload-eq-ok (from_be_bytes p.0) p.1 value rest k' in
      let (whole, four) = read_exact-eq-ok 4 reader r in
      (p.0, payload, rw (← s) whole, four, rw n refl, omega (arith, n), omega (arith, n), d)
