-- ===== src/Context/Build/Pack.antt =====
-- The third loop: what it packs fits the budget, keeps the ranking, and accounts for every winner.
use token_shrinker.Prelude.{
  ℕ, ◌≡◌, ◌+◌, ◌≤◌, ◌<◌, List, [], ◌∷◌, ◌++◌, All, All-append, sum_of, sum_of-append, arith, length,
  length-append, ltb, u32_max, Bool-cases, inl, inr, ltb→lt, ltb_false→le, Within,
  Within-append_left, Within-snoc, saturating_add, saturating_add_fits, saturating_add_over, ◌⊎◌,
}
use token_shrinker.Prelude.Bytes.{Bytes}
use token_shrinker.Context.Counter.{TokenCounter}
use token_shrinker.Context.Bundle.{ContextItem, budget_exceeded}
use token_shrinker.Context.Relevance.{score, breakdown}
use token_shrinker.Context.Build.{Entry, Packed, pack_one, pack}
use token_shrinker.Context.Build.Duplicates.{entry_weight, omission_weight}

abbrev pub item_tokens : ContextItem → ℕ
item_tokens item = item.token_count.tokens

module _ (counter : TokenCounter) where
  -- The item made of a candidate.
  abbrev pub item_of : Entry → ContextItem
  item_of (index, candidate) = record {
    source_id = candidate.source_id;
    source_kind = candidate.source_kind;
    location = candidate.location;
    content = candidate.content;
    content_hash = candidate.content_hash;
    sensitivity = candidate.sensitivity;
    score = score candidate.relevance;
    score_breakdown = breakdown candidate.relevance;
    token_count = counter.count candidate.content;
  }

  abbrev pub tokens : Entry → ℕ
  tokens e = (counter.count e.1.content).tokens

  module _ (limit : ℕ) (small : limit ≤ u32_max) where
    -- The two outcomes of one round: the candidate fits and is packed, or it is over the budget.
    pub pack_one-cases :
        (p : Packed) (e : Entry)
        → ((p.used + tokens e ≤ limit)
            × (pack_one counter limit p e
                ≡ record p { used = p.used + tokens e; items = p.items ++ (item_of e ∷ []) }))
          ⊎ ((limit < p.used + tokens e)
              × (pack_one counter limit p e ≡ record p {
                omissions =
                    p.omissions
                    ++ (record { source_id = e.1.source_id; reason = budget_exceeded } ∷ []);
              }))
    unfolding pack_one
    pack_one-cases p e = elim (Bool-cases (ltb limit (saturating_add p.used (tokens e)))) [
      | inl over ↦ inr (saturating_add_over p.used (tokens e) limit (ltb→lt _ _ over), rw over)
      | inr under ↦
          let fits = saturating_add_fits p.used (tokens e) limit small (ltb_false→le _ _ under) in
          inl (fits.0, rw (under, fits.1))
    ]

    pub record IsFitting (p : Packed) : Type 0 where
      pub total : p.used ≡ sum_of item_tokens p.items
      pub bounded : p.used ≤ limit

    pack_one-IsFitting :
        (p : Packed) (e : Entry) → IsFitting p → IsFitting (pack_one counter limit p e)
    pack_one-IsFitting p e f = elim (pack_one-cases p e) [
      | inl (fits, made) ↦
          rw made
            (omega (arith, f.total, f.bounded, sum_of-append item_tokens p.items (item_of e ∷ [])))
      | inr (over, made) ↦ rw made (omega (arith, f.total, f.bounded))
    ]

    pub pack-IsFitting :
        (es : List Entry) (p : Packed) → IsFitting p → IsFitting (pack counter limit p es)
    unfolding pack
    pack-IsFitting [] p f = f
    pack-IsFitting (e ∷ es) p f =
        pack-IsFitting es (pack_one counter limit p e) (pack_one-IsFitting p e f)

    -- A predicate of entries passes to the items that are made of them.
    pub pack-All {κ} :
        (P : ContextItem → Type κ) (es : List Entry) (p : Packed)
        → All (λ e. P (item_of e)) es
        → All P p.items
        → All P (pack counter limit p es).items
    unfolding pack
    pack-All P [] p a b = b
    pack-All P (e ∷ es) p (q, a) b =
        pack-All P es (pack_one counter limit p e) a (elim (pack_one-cases p e) [
          | inl (fits, made) ↦ rw made (All-append P p.items (item_of e ∷ []) b (q, tt))
          | inr (over, made) ↦ rw made b
        ])

    pack_one-le : (p : Packed) (e : Entry) → p.used ≤ (pack_one counter limit p e).used
    pack_one-le p e = elim (pack_one-cases p e) [
      | inl (fits, made) ↦ rw made (omega arith)
      | inr (over, made) ↦ rw made (omega arith)
    ]

    pack-le : (es : List Entry) (p : Packed) → p.used ≤ (pack counter limit p es).used
    unfolding pack
    pack-le [] p = omega arith
    pack-le (e ∷ es) p = omega (arith, pack_one-le p e, pack-le es (pack_one counter limit p e))

    pack-Within :
        (es : List Entry) (p : Packed) (item : ContextItem)
        → Within item p.items
        → Within item (pack counter limit p es).items
    unfolding pack
    pack-Within [] p item w = w
    pack-Within (e ∷ es) p item w =
        pack-Within es (pack_one counter limit p e) item (elim (pack_one-cases p e) [
          | inl (fits, made) ↦ rw made (Within-append_left item p.items (item_of e ∷ []) w)
          | inr (over, made) ↦ rw made w
        ])

    -- Each winner is packed, or would not fit beside what was packed.
    pub pack_maximal :
        (es : List Entry) (p : Packed)
        → let r = pack counter limit p es in
          All (λ e. Within (item_of e) r.items ⊎ (limit < r.used + tokens e)) es
    unfolding pack
    pack_maximal [] p = tt
    pack_maximal (e ∷ es) p =
        let q = pack_one counter limit p e in
        (
          elim (pack_one-cases p e) [
            | inl (fits, made) ↦
                inl (pack-Within es q (item_of e) (rw made (Within-snoc (item_of e) p.items)))
            | inr (over, made) ↦
                let grown : p.used ≤ (pack counter limit q es).used =
                  omega (arith, pack_one-le p e, pack-le es q) in
                inr (omega arith)
          ],
          pack_maximal es q,
        )

    -- The handles of the winners go to the items and the omissions, each once.
    module _ (weight : Bytes → ℕ) where
      abbrev pub item_weight : ContextItem → ℕ
      item_weight item = weight item.source_id.value

      abbrev all_weight : Packed → ℕ
      all_weight p = sum_of item_weight p.items + sum_of (omission_weight weight) p.omissions

      pack_one-weight :
          (p : Packed) (e : Entry)
          → all_weight (pack_one counter limit p e) ≡ all_weight p + entry_weight weight e
      pack_one-weight p e = elim (pack_one-cases p e) [
        | inl (fits, made) ↦
            rw made (omega (arith, sum_of-append item_weight p.items (item_of e ∷ [])))
        | inr (over, made) ↦ rw made (
            omega (
              arith,
              sum_of-append (omission_weight weight) p.omissions
                  (record { source_id = e.1.source_id; reason = budget_exceeded } ∷ []),
            ))
      ]

      pub pack-weight :
          (es : List Entry) (p : Packed)
          → all_weight (pack counter limit p es) ≡ all_weight p + sum_of (entry_weight weight) es
      unfolding pack
      pack-weight [] p = omega arith
      pack-weight (e ∷ es) p =
          omega (arith, pack_one-weight p e, pack-weight es (pack_one counter limit p e))

    pack_one-omissions :
        (p : Packed) (e : Entry)
        → length p.omissions ≤ length (pack_one counter limit p e).omissions
    pack_one-omissions p e = elim (pack_one-cases p e) [
      | inl (fits, made) ↦ rw made (omega arith)
      | inr (over, made) ↦ rw made (
          omega (
            arith,
            length-append p.omissions
                (record { source_id = e.1.source_id; reason = budget_exceeded } ∷ []),
          ))
    ]

    pub pack-omissions :
        (es : List Entry) (p : Packed)
        → length p.omissions ≤ length (pack counter limit p es).omissions
    unfolding pack
    pack-omissions [] p = omega arith
    pack-omissions (e ∷ es) p =
        omega (arith, pack_one-omissions p e, pack-omissions es (pack_one counter limit p e))
