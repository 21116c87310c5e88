-- ===== src/Prelude/Bytes.antt =====
-- Text as the bytes of its UTF-8: `String`, `str`, `Vec<u8>` and `[u8]` are lists of numbers.
-- The tests of `u8` and `str` that the program calls stand here.
use Prim.Native.Nat.{ℕ, ◌+◌, ◌<◌}
use Prim.Native.Char.{code}
use Prim.Native.String.{String}
use mathlib.Core.Path.{◌≡◌, refl}
use mathlib.Core.Logic.{◌↔◌}
use mathlib.Core.Bool.{Bool, true, false, ◌&&◌, ◌||◌}
use mathlib.Core.List.{List, [], ◌∷◌, map}
use native.Mathlib.Omega.{arith}
use token_shrinker.Prelude.Tests.{◌==◌, leb, ltb, if◌then◌else◌}

abbrev pub Bytes : Type 0
Bytes = List ℕ

-- An ASCII literal of the source.
abbrev pub ascii : String → Bytes
ascii String.[] = []
ascii (String.◌∷◌ c s) = code c ∷ ascii s

-- `==` on texts
abbrev pub eq_bytes : Bytes → Bytes → Bool
eq_bytes [] [] = true
eq_bytes [] (b ∷ y) = false
eq_bytes (a ∷ x) [] = false
eq_bytes (a ∷ x) (b ∷ y) = a == b && eq_bytes x y

pub eq_bytes_iff : (x y : Bytes) → (eq_bytes x y ≡ true) ↔ (x ≡ y)
eq_bytes_iff [] [] = (λ h. refl, λ h. refl)
eq_bytes_iff [] (b ∷ y) = (λ h. cc, λ h. cc)
eq_bytes_iff (a ∷ x) [] = (λ h. cc, λ h. cc)
eq_bytes_iff (a ∷ x) (b ∷ y) = ground (arith, eq_bytes_iff x y)

-- `is_empty`
abbrev pub is_empty {ℓ} : {A : Type ℓ} → List A → Bool
is_empty [] = true
is_empty (_ ∷ _) = false

-- `u8::is_ascii` and its refinements
abbrev pub is_ascii_byte : ℕ → Bool
is_ascii_byte b = ltb b 128

abbrev pub is_ascii_control : ℕ → Bool
is_ascii_control b = ltb b 32 || b == 127

abbrev pub is_ascii_digit : ℕ → Bool
is_ascii_digit b = leb b'0' b && leb b b'9'

abbrev pub is_ascii_lowercase : ℕ → Bool
is_ascii_lowercase b = leb b'a' b && leb b b'z'

abbrev pub is_ascii_uppercase : ℕ → Bool
is_ascii_uppercase b = leb b'A' b && leb b b'Z'

abbrev pub is_ascii_alphanumeric : ℕ → Bool
is_ascii_alphanumeric b = is_ascii_digit b || (is_ascii_lowercase b || is_ascii_uppercase b)

abbrev pub is_ascii_hexdigit : ℕ → Bool
is_ascii_hexdigit b = is_ascii_digit b || (leb b'a' b && leb b b'f' || leb b'A' b && leb b b'F')

-- `u8::to_ascii_lowercase`
abbrev pub to_ascii_lowercase : ℕ → ℕ
to_ascii_lowercase b = if is_ascii_uppercase b then b + 32 else b

-- `str::eq_ignore_ascii_case`
abbrev pub eq_ignore_ascii_case : Bytes → Bytes → Bool
eq_ignore_ascii_case x y = eq_bytes (map to_ascii_lowercase x) (map to_ascii_lowercase y)

-- `str::starts_with`
abbrev pub starts_with : Bytes → Bytes → Bool
starts_with x [] = true
starts_with [] (p ∷ ps) = false
starts_with (b ∷ x) (p ∷ ps) = b == p && starts_with x ps

-- `str::contains` of a text
abbrev pub contains : Bytes → Bytes → Bool
contains [] p = is_empty p
contains (b ∷ x) p = starts_with (b ∷ x) p || contains x p

-- Every entry is a byte.
abbrev pub IsByte : ℕ → Type 0
IsByte b = b < 256
