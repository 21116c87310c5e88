-- ===== src/Context/ContentHash/Laws.antt =====
-- The digest formatter emits what `ContentHash::new` accepts, and loses nothing.
use token_shrinker.Prelude.{
  ℕ, ◌≡◌, refl, ◌*◌, ◌/◌, ◌%◌, ◌<◌, true, all, All, length, ok, [], ◌∷◌, arith,
}
use token_shrinker.Prelude.Bytes.{Bytes, IsByte}
use token_shrinker.Context.ContentHash.{is_digest_byte, hex_digit, hex, digest_to_content_hash}

pub length-hex : (bs : Bytes) → length (hex bs) ≡ 2 * length bs
unfolding hex
length-hex [] = refl
length-hex (b ∷ bs) = omega (arith, length-hex bs)

hex_digit-is_digest_byte : (n : ℕ) → n < 16 → is_digest_byte (hex_digit n) ≡ true
hex_digit-is_digest_byte n h = ground arith

all-is_digest_byte-hex : (bs : Bytes) → All IsByte bs → all is_digest_byte (hex bs) ≡ true
unfolding hex
all-is_digest_byte-hex [] a = refl
all-is_digest_byte-hex (b ∷ bs) (p, a) =
    let hi : b / 16 < 16 = omega arith in
    let lo : b % 16 < 16 = omega arith in
    rw (hex_digit-is_digest_byte (b / 16) hi, hex_digit-is_digest_byte (b % 16) lo)
      (all-is_digest_byte-hex bs a)

-- For a digest of 32 bytes the formatter's `expect` never fires: `ContentHash::new` accepts the
-- 64 hexadecimal digits.
pub digest_to_content_hash_total :
    (digest : Bytes)
    → All IsByte digest
    → length digest ≡ 32
    → digest_to_content_hash digest ≡ ok (record { value = hex digest })
unfolding digest_to_content_hash
digest_to_content_hash_total digest a h =
    ground (arith, all-is_digest_byte-hex digest a, length-hex digest)

hex_digit_injective : (m n : ℕ) → m < 16 → n < 16 → hex_digit m ≡ hex_digit n → m ≡ n
hex_digit_injective m n p q e = ground arith

-- Two digests with the same text are the same digest.
pub hex_injective : (xs ys : Bytes) → All IsByte xs → All IsByte ys → hex xs ≡ hex ys → xs ≡ ys
unfolding hex
hex_injective [] [] a b e = refl
hex_injective [] (y ∷ ys) a b e = cc
hex_injective (x ∷ xs) [] a b e = cc
hex_injective (x ∷ xs) (y ∷ ys) (p, a) (q, b) e = ground (
  arith,
  hex_digit_injective (x / 16) (y / 16),
  hex_digit_injective (x % 16) (y % 16),
  hex_injective xs ys a b,
)
