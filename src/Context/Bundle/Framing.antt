-- ===== src/Context/Bundle/Framing.antt =====
-- What the bundle hash binds: the framing of the digest's input loses nothing.
use token_shrinker.Prelude.{
  ℕ, ◌≡◌, ◌<◌, ◌^◌, ◌∙◌, ap, sym, List, [], ◌∷◌, ◌++◌, All, length, length-append, arith, to_u64,
  to_u64_lem,
}
use mathlib.Core.List.{append_assoc}
use token_shrinker.Prelude.Bytes.{Bytes}
use token_shrinker.Prelude.BigEndian.{
  to_be_bytes, to_be_bytes_injective, append_split, length-to_be_bytes, Fits, Fits-u32, Fits-u64,
}
use token_shrinker.Context.Bundle.{ContextItem, framed, item_frame, bundle_frame}

-- The machine widths of an item's parts.
pub record IsSized (item : ContextItem) : Type 0 where
  pub id : length item.source_id.value < 2 ^ 64
  pub content : length item.content_hash.value < 2 ^ 64
  pub score : item.score < 2 ^ 32
  pub tokens : item.token_count.tokens < 2 ^ 64

framed_split :
    (x y r s : Bytes)
    → length x < 2 ^ 64
    → length y < 2 ^ 64
    → framed x ++ r ≡ framed y ++ s
    → (x ≡ y) × (r ≡ s)
unfolding framed
framed_split x y r s p q e =
    let m = to_u64 (length x) in
    let n = to_u64 (length y) in
    let (lens, rest) =
      append_split (to_be_bytes 8 m) (to_be_bytes 8 n) (x ++ r) (y ++ s)
        (length-to_be_bytes 8 m ∙ sym (length-to_be_bytes 8 n))
        (sym (append_assoc (to_be_bytes 8 m) x r) ∙ (e ∙ append_assoc (to_be_bytes 8 n) y s)) in
    let a = to_u64_lem (length x) p in
    let b = to_u64_lem (length y) q in
    let same : m ≡ n =
      to_be_bytes_injective 8 m n (Fits-u64 m (omega arith)) (Fits-u64 n (omega arith)) lens in
    append_split x y r s (omega arith) rest

fixed_split :
    (k m n : ℕ) (r s : Bytes)
    → Fits k m
    → Fits k n
    → to_be_bytes k m ++ r ≡ to_be_bytes k n ++ s
    → (m ≡ n) × (r ≡ s)
fixed_split k m n r s p q e =
    let (same, rest) =
      append_split (to_be_bytes k m) (to_be_bytes k n) r s
        (length-to_be_bytes k m ∙ sym (length-to_be_bytes k n)) e in
    (to_be_bytes_injective k m n p q same, rest)

regroup :
    (a : ContextItem) (r : Bytes)
    → framed a.source_id.value
        ++ (framed a.content_hash.value
            ++ (to_be_bytes 4 a.score ++ (to_be_bytes 8 a.token_count.tokens ++ r)))
      ≡ item_frame a ++ r
unfolding item_frame
regroup a r = simp append_assoc

-- What the hash covers of an item.
abbrev pub Covers : ContextItem → ContextItem → Type 0
Covers a b =
    (a.source_id.value ≡ b.source_id.value)
    × (a.content_hash.value ≡ b.content_hash.value)
    × (a.score ≡ b.score)
    × (a.token_count.tokens ≡ b.token_count.tokens)

item_frame_split :
    (a b : ContextItem) (r s : Bytes)
    → IsSized a
    → IsSized b
    → item_frame a ++ r ≡ item_frame b ++ s
    → Covers a b × (r ≡ s)
unfolding item_frame
item_frame_split a b r s p q e =
    let (ids, e1) =
      framed_split a.source_id.value b.source_id.value _ _ p.id q.id
        (regroup a r ∙ (e ∙ sym (regroup b s))) in
    let (hashes, e2) =
      framed_split a.content_hash.value b.content_hash.value _ _ p.content q.content e1 in
    let (scores, e3) =
      fixed_split 4 a.score b.score _ _ (Fits-u32 a.score p.score) (Fits-u32 b.score q.score) e2 in
    let (counts, e4) =
      fixed_split 8 a.token_count.tokens b.token_count.tokens r s
        (Fits-u64 a.token_count.tokens p.tokens) (Fits-u64 b.token_count.tokens q.tokens) e3 in
    ((ids, hashes, scores, counts), e4)

-- Item by item, the two lists agree in what the hash covers.
abbrev pub SameCovered : List ContextItem → List ContextItem → Type 0
SameCovered [] [] = Unit {0}
SameCovered [] (b ∷ bs) = ⊥
SameCovered (a ∷ as') [] = ⊥
SameCovered (a ∷ as') (b ∷ bs) = Covers a b × SameCovered as' bs

framed_pos : (v r : Bytes) → 0 < length (framed v ++ r)
unfolding framed
framed_pos v r =
    let n = to_u64 (length v) in
    omega (
      arith,
      length-append (to_be_bytes 8 n ++ v) r,
      length-append (to_be_bytes 8 n) v,
      length-to_be_bytes 8 n,
    )

item_frame_pos : (a : ContextItem) (r : Bytes) → 0 < length (item_frame a ++ r)
item_frame_pos a r = rw (← regroup a r) (framed_pos a.source_id.value _)

-- What is fed to the digest determines, in order, the handles, content hashes, scores and counts
-- of the items, for items whose parts have the widths of the machine integers.
pub bundle_frame_injective :
    (xs ys : List ContextItem)
    → All IsSized xs
    → All IsSized ys
    → bundle_frame xs ≡ bundle_frame ys
    → SameCovered xs ys
unfolding bundle_frame
bundle_frame_injective [] [] p q e = tt
bundle_frame_injective [] (b ∷ bs) p q e =
    absurd (omega (arith, item_frame_pos b (bundle_frame bs), ap length e))
bundle_frame_injective (a ∷ as') [] p q e =
    absurd (omega (arith, item_frame_pos a (bundle_frame as'), ap length e))
bundle_frame_injective (a ∷ as') (b ∷ bs) (p, ps) (q, qs) e =
    let (same, rest) = item_frame_split a b (bundle_frame as') (bundle_frame bs) p q e in
    (same, bundle_frame_injective as' bs ps qs rest)
