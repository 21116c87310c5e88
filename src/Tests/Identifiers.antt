-- ===== src/Tests/Identifiers.antt =====
-- Identifiers and digests at concrete inputs.
use token_shrinker.Prelude.{◌≡◌, refl, [], ◌∷◌, err}
use token_shrinker.Prelude.Bytes.{ascii}
use token_shrinker.Types.RequestId.{RequestId, non_ascii, new}

abbrev first : RequestId
first = record { value = ascii "req-1" }

-- The UTF-8 of an accented letter.
rejects_accent : new (99 ∷ 0xc3 ∷ 0xa9 ∷ []) ≡ err non_ascii
unfolding new
rejects_accent = refl
