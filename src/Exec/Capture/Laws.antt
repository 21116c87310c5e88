-- ===== src/Exec/Capture/Laws.antt =====
-- The state of the loop of `read_bounded` after the bytes that it has seen.
use token_shrinker.Prelude.{ℕ, [], ◌∷◌, ◌++◌}
use token_shrinker.Prelude.Bytes.{Bytes}
use token_shrinker.Prelude.Pieces.{append_nil, append_assoc}
use token_shrinker.Prelude.Ends.{HoldsEnds, push_end-HoldsEnds}
use token_shrinker.Exec.Capture.{Reading, ends_of, push_byte, push_bytes}

module _ (head_cap tail_cap : ℕ) where
  -- The state holds both ends of the bytes `seen`.
  abbrev pub Holds : Bytes → Reading → Type 0
  Holds seen s = HoldsEnds head_cap tail_cap seen (ends_of s)

  push_byte-Holds :
      (seen : Bytes) (s : Reading) (b : ℕ)
      → Holds seen s
      → Holds (seen ++ (b ∷ [])) (push_byte head_cap tail_cap s b)
  unfolding push_byte
  push_byte-Holds seen s b i = push_end-HoldsEnds head_cap tail_cap seen (ends_of s) b i

  pub push_bytes-Holds :
      (seen : Bytes) (s : Reading) (bytes : Bytes)
      → Holds seen s
      → Holds (seen ++ bytes) (push_bytes head_cap tail_cap s bytes)
  unfolding push_bytes
  push_bytes-Holds seen s [] i = rw (append_nil seen) i
  push_bytes-Holds seen s (b ∷ bytes) i = rw (← append_assoc seen (b ∷ []) bytes) (
      push_bytes-Holds (seen ++ (b ∷ [])) (push_byte head_cap tail_cap s b) bytes
        (push_byte-Holds seen s b i))
