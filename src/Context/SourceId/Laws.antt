-- ===== src/Context/SourceId/Laws.antt =====
-- Which texts are source handles.
use token_shrinker.Prelude.{
  ℕ, ◌≡◌, ◌≢◌, refl, ◌≤◌, true, false, [], ◌∷◌, length, All, all, any, ok, arith, le→ltb_false,
}
use token_shrinker.Prelude.Bytes.{Bytes, is_ascii_byte, is_ascii_control}
use token_shrinker.Context.SourceId.{SourceId, new}

-- A printable byte of ASCII.
abbrev pub IsSafe : ℕ → Type 0
IsSafe b = (is_ascii_byte b ≡ true) × (is_ascii_control b ≡ false)

all_of_safe : (value : Bytes) → All IsSafe value → all is_ascii_byte value ≡ true
all_of_safe [] a = refl
all_of_safe (b ∷ value) ((p, q), a) = rw p (all_of_safe value a)

none_of_safe : (value : Bytes) → All IsSafe value → any is_ascii_control value ≡ false
none_of_safe [] a = refl
none_of_safe (b ∷ value) ((p, q), a) = rw q (none_of_safe value a)

pub new_lem :
    (value : Bytes)
    → value ≢ []
    → length value ≤ 1_024
    → All IsSafe value
    → new value ≡ ok (record { value = value })
unfolding new
new_lem [] n h a = absurd (n refl)
new_lem (b ∷ value) n h a =
    rw
      (
        le→ltb_false 1_024 (length (b ∷ value)) h,
        all_of_safe (b ∷ value) a,
        none_of_safe (b ∷ value) a,
      )
      refl

-- What the constructor checks.
pub record IsHandle (value : Bytes) : Type 0 where
  pub present : value ≢ []
  pub short : length value ≤ 1_024
  pub safe : All IsSafe value

IsSafe-of_tests :
    (value : Bytes)
    → all is_ascii_byte value ≡ true
    → any is_ascii_control value ≡ false
    → All IsSafe value
IsSafe-of_tests [] a c = tt
IsSafe-of_tests (b ∷ value) a c =
    ((ground arith, ground arith), IsSafe-of_tests value (ground arith) (ground arith))

pub new-IsHandle : (value : Bytes) (s : SourceId) → new value ≡ ok s → IsHandle value
unfolding new
new-IsHandle [] s h = cc
new-IsHandle (b ∷ value) s h = record {
  present = λ e. cc;
  short = ground arith;
  safe = IsSafe-of_tests (b ∷ value) (ground arith) (ground arith);
}

pub new-value : (value : Bytes) (s : SourceId) → new value ≡ ok s → s.value ≡ value
unfolding new
new-value [] s h = cc
new-value (b ∷ value) s h = ground arith
