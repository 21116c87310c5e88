-- ===== src/Update/Artifacts.antt =====
-- An artifact is accepted exactly when its digest is the one that the manifest holds.
use Prim.Native.Nat.{bit_or, bit_xor}
use Prim.Native.Nat.Ordering.{lt, eq, gt}
use token_shrinker.Prelude.{
  compare, ℕ, zero, suc, ◌+◌, max, ◌≡◌, refl, ◌↔◌, ◌≤◌, ◌<◌, true, [], ◌∷◌, length, ==_iff, arith,
}
use token_shrinker.Prelude.BitTests.{bit_or_zero, bit_xor_zero, bit_xor_self}
use token_shrinker.Prelude.Bytes.{Bytes}
use token_shrinker.Context.ContentHash.{hex}
use token_shrinker.Update.{Artifact, byte_at, padded_difference, constant_time_eq, verify_artifact}

padded_difference_zero :
    (d : ℕ) (x y : Bytes) (index count : ℕ)
    → padded_difference d x y index count ≡ 0
    → (d ≡ 0) × ((i : ℕ) → index ≤ i → i < index + count → byte_at x i ≡ byte_at y i)
unfolding padded_difference
padded_difference_zero d x y index zero h = (h, λ i l u. absurd (omega (arith, l, u)))
padded_difference_zero d x y index (suc count) h =
    let (both, later) =
      padded_difference_zero (bit_or d (bit_xor (byte_at x index) (byte_at y index))) x y
        (suc index) count h in
    let parts = bit_or_zero d (bit_xor (byte_at x index) (byte_at y index)) both in
    let here = bit_xor_zero (byte_at x index) (byte_at y index) parts.1 in
    (
      parts.0,
      λ i l u.
          elim (compare index i) as (λ o. compare index i ≡ o → byte_at x i ≡ byte_at y i) [
            | lt ↦ λ e. later i (ground (arith, e)) (omega (arith, u))
            | eq ↦ λ e. let same : index ≡ i = ground (arith, e) in rw same at here
            | gt ↦ λ e. absurd (ground (arith, e, l))
          ]
            refl,
    )

padded_difference_self : (x : Bytes) (index count : ℕ) → padded_difference 0 x x index count ≡ 0
unfolding padded_difference
padded_difference_self x index zero = refl
padded_difference_self x index (suc count) =
    rw (bit_xor_self (byte_at x index)) (padded_difference_self x (suc index) count)

-- Lists of one length with the same bytes are the same.
bytes_ext :
    (x y : Bytes)
    → length x ≡ length y
    → ((i : ℕ) → i < length x → byte_at x i ≡ byte_at y i)
    → x ≡ y
bytes_ext [] [] l h = refl
bytes_ext [] (b ∷ y) l h = absurd (omega arith)
bytes_ext (a ∷ x) [] l h = absurd (omega arith)
bytes_ext (a ∷ x) (b ∷ y) l h =
    rw (h 0 (omega arith), bytes_ext x y (omega arith) (λ i b. h (suc i) (omega (arith, b)))) refl

constant_time_eq_lem : (x y : Bytes) → (constant_time_eq x y ≡ true) ↔ (x ≡ y)
unfolding constant_time_eq
constant_time_eq_lem x y = (
  λ h.
      let (lengths, bytes) =
        padded_difference_zero (bit_xor (length x) (length y)) x y 0 (max (length x) (length y))
          ((==_iff _ 0).0 h) in
      bytes_ext x y (bit_xor_zero (length x) (length y) lengths)
        (λ i b. bytes i (omega arith) (omega (arith, b))),
  λ e. rw (← e) (
      (==_iff _ 0).1
        (rw (bit_xor_self (length x)) (padded_difference_self x 0 (max (length x) (length x))))),
)

-- The comparison of `verify_artifact`, which does not stop early and pads the shorter text, accepts
-- exactly the artifacts whose digest in hexadecimal is the one of the manifest.
verify_artifact_iff :
    (sha256 : Bytes → Bytes) (bytes : Bytes) (artifact : Artifact)
    → (verify_artifact sha256 bytes artifact ≡ true) ↔ (hex (sha256 bytes) ≡ artifact.sha256)
unfolding verify_artifact
verify_artifact_iff sha256 bytes artifact =
    constant_time_eq_lem (hex (sha256 bytes)) artifact.sha256
