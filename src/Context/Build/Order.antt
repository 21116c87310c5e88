-- ===== src/Context/Build/Order.antt =====
-- The items of a bundle stand in rank order.
use token_shrinker.Prelude.{
  ℕ, compare, Ordering, List, [], ◌∷◌, All, All-append, u32_max, ◌≤◌, inl, inr,
}
use token_shrinker.Prelude.Order.{then_with, Le}
use token_shrinker.Prelude.Sort.{IsSorted, IsSorted-snoc}
use token_shrinker.Context.SourceId.{cmp}
use token_shrinker.Context.Counter.{TokenCounter}
use token_shrinker.Context.Bundle.{ContextItem}
use token_shrinker.Context.Build.{Entry, Packed, pack_one, pack, rank}
use token_shrinker.Context.Build.Pack.{item_of, pack_one-cases}

-- Higher scores first, and equal scores in the order of the source handles.
unfoldable pub item_rank : ContextItem → ContextItem → Ordering
item_rank left right =
    then_with (compare right.score left.score) (cmp left.source_id right.source_id)

module _ (counter : TokenCounter) (limit : ℕ) (small : limit ≤ u32_max) where
  -- Every packed item may stand before every candidate that is still to come.
  abbrev Precede : List ContextItem → List Entry → Type 0
  Precede items es = All (λ i. All (λ e. Le item_rank i (item_of counter e)) es) items

  Precede-tail :
      (e : Entry) (es : List Entry) (items : List ContextItem)
      → Precede items (e ∷ es)
      → Precede items es
  Precede-tail e es [] a = tt
  Precede-tail e es (i ∷ items) ((p, q), a) = (q, Precede-tail e es items a)

  Precede-head :
      (e : Entry) (es : List Entry) (items : List ContextItem)
      → Precede items (e ∷ es)
      → All (λ i. Le item_rank i (item_of counter e)) items
  Precede-head e es [] a = tt
  Precede-head e es (i ∷ items) ((p, q), a) = (p, Precede-head e es items a)

  Le-item_of :
      (e : Entry) (es : List Entry)
      → All (Le rank e) es
      → All (λ f. Le item_rank (item_of counter e) (item_of counter f)) es
  unfolding rank item_rank
  Le-item_of e [] a = tt
  Le-item_of e (f ∷ es) (p, a) = (p, Le-item_of e es a)

  pack_one-IsSorted :
      (e : Entry) (es : List Entry) (p : Packed)
      → All (Le rank e) es
      → IsSorted item_rank p.items
      → Precede p.items (e ∷ es)
      → let items = (pack_one counter limit p e).items in
        IsSorted item_rank items × Precede items es
  pack_one-IsSorted e es p low t a = elim (pack_one-cases counter limit small p e) [
    | inl (fits, made) ↦ rw made (
      IsSorted-snoc item_rank p.items (item_of counter e) t (Precede-head e es p.items a),
      All-append (λ i. All (λ f. Le item_rank i (item_of counter f)) es) p.items
          (item_of counter e ∷ []) (Precede-tail e es p.items a) (Le-item_of e es low, tt),
    )
    | inr (over, made) ↦ rw made (t, Precede-tail e es p.items a)
  ]

  pub pack-IsSorted :
      (es : List Entry) (p : Packed)
      → IsSorted rank es
      → IsSorted item_rank p.items
      → Precede p.items es
      → IsSorted item_rank (pack counter limit p es).items
  unfolding pack
  pack-IsSorted [] p s t a = t
  pack-IsSorted (e ∷ es) p (low, s) t a =
      let (sorted, before) = pack_one-IsSorted e es p low t a in
      pack-IsSorted es (pack_one counter limit p e) s sorted before
