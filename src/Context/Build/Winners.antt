-- ===== src/Context/Build/Winners.antt =====
-- The first loop: the winners are candidates under the key of their content, and each is the best
-- of those with its content.
use Prim.Native.Nat.Ordering.{lt, eq, gt}
use token_shrinker.Prelude.{
  ◌≡◌, refl, some, List, [], ◌∷◌, All, arith, if◌then◌else◌, IsAt, Bool-cases, Option-cases, inl,
  inr, ◌⊎◌, Ordering, sym,
}
use token_shrinker.Prelude.Bytes.{Bytes}
use token_shrinker.Prelude.Order.{Le, Le_trans, cmp_bytes, cmp_bytes-IsOrder}
use token_shrinker.Prelude.Map.{
  get, merged, IsMap, upsert-IsMap, All-upsert, get-upsert_self, get-upsert_ne,
}
use token_shrinker.Context.Candidate.{ContextCandidate}
use token_shrinker.Context.Build.{Entry, Winners, beats, admit, admit_all, rank}
use token_shrinker.Context.Build.Rank.{rank-IsPreorder, beats_iff_rank}

abbrev pub key : Entry → Bytes
key e = e.1.content_hash.value

-- What `and_modify` leaves in the map.
abbrev pub pick : Entry → Entry → Entry
pick e winner = if beats e.1 winner.1 then e else winner

rank_refl : (e : Entry) → Le rank e e
rank_refl e = ground (arith, rank-IsPreorder.flip e e)

pick-Le : (e w : Entry) → Le rank (pick e w) e × Le rank (pick e w) w
pick-Le e w = elim (Bool-cases (beats e.1 w.1)) [
  | inl wins ↦
      let before : rank e w ≡ lt = (beats_iff_rank e w).0 wins in
      rw wins (rank_refl e, ground arith)
  | inr loses ↦ rw loses (ground (arith, rank-IsPreorder.flip e w, beats_iff_rank e w), rank_refl w)
]

-- The content of `e` has a winner that may stand before `e`.
abbrev pub Covered : Winners → Entry → Type 0
Covered winners e = (w : Entry) × (get (key e) winners ≡ some w) × Le rank w e

get-admit_self :
    (winners : Winners) (e : Entry)
    → get (key e) (admit winners e) ≡ some (merged (pick e) e (get (key e) winners))
unfolding admit
get-admit_self winners e = get-upsert_self (key e) (pick e) e winners

admit-Covered_self : (winners : Winners) (e : Entry) → Covered (admit winners e) e
admit-Covered_self winners e = elim (Option-cases (get (key e) winners)) [
  | inl new ↦ (e, rw (get-admit_self winners e, new), rank_refl e)
  | inr (w, old) ↦ (pick e w, rw (get-admit_self winners e, old), (pick-Le e w).0)
]

Ordering-cases : (o : Ordering) → ((o ≡ lt) ⊎ (o ≡ gt)) ⊎ (o ≡ eq)
Ordering-cases o = ground arith

admit-Covered : (winners : Winners) (e f : Entry) → Covered winners f → Covered (admit winners e) f
unfolding admit
admit-Covered winners e f (w, held, best) = elim (Ordering-cases (cmp_bytes (key f) (key e))) [
  | inl other ↦ (w, rw (get-upsert_ne (key e) (key f) (pick e) e winners other) held, best)
  | inr same ↦
      let k : key f ≡ key e = cmp_bytes-IsOrder.eq_of_cmp (key f) (key e) same in
      let at : get (key e) winners ≡ some w = rw (sym k) held in
      (
        pick e w,
        rw (k, get-upsert_self (key e) (pick e) e winners, at),
        Le_trans rank rank-IsPreorder (pick e w) w f (pick-Le e w).1 best,
      )
]

admit_all-Covered :
    (es : List Entry) (winners : Winners) (f : Entry)
    → Covered winners f
    → Covered (admit_all winners es) f
unfolding admit_all
admit_all-Covered [] winners f c = c
admit_all-Covered (e ∷ es) winners f c =
    admit_all-Covered es (admit winners e) f (admit-Covered winners e f c)

-- Every candidate that went through the loop has a winner at least as good.
pub admit_all-All : (es : List Entry) (winners : Winners) → All (Covered (admit_all winners es)) es
unfolding admit_all
admit_all-All [] winners = tt
admit_all-All (e ∷ es) winners = (
  admit_all-Covered es (admit winners e) e (admit-Covered_self winners e),
  admit_all-All es (admit winners e),
)

module _ (candidates : List ContextCandidate) where
  -- The entry is the candidate at its index, under the key of its content.
  abbrev pub IsEntry : Bytes × Entry → Type 0
  IsEntry (k, e) = (key e ≡ k) × IsAt 0 candidates e

  pick-IsEntry : (k : Bytes) (e w : Entry) → IsEntry (k, e) → IsEntry (k, w) → IsEntry (k, pick e w)
  pick-IsEntry k e w p q = elim (Bool-cases (beats e.1 w.1)) [
    | inl wins ↦ rw wins p
    | inr loses ↦ rw loses q
  ]

  pub admit_all-IsEntry :
      (es : List Entry) (winners : Winners)
      → All (IsAt 0 candidates) es
      → All IsEntry winners
      → All IsEntry (admit_all winners es)
  unfolding admit_all admit
  admit_all-IsEntry [] winners a w = w
  admit_all-IsEntry (e ∷ es) winners (at, a) w = admit_all-IsEntry es (admit winners e) a (
      All-upsert IsEntry (key e) (pick e) e winners (refl, at)
        (λ j v same v_is. pick-IsEntry j e v (same, at) v_is) w)

pub admit_all-IsMap :
    (es : List Entry) (winners : Winners) → IsMap winners → IsMap (admit_all winners es)
unfolding admit_all admit
admit_all-IsMap [] winners s = s
admit_all-IsMap (e ∷ es) winners s =
    admit_all-IsMap es (admit winners e) (upsert-IsMap (key e) (pick e) e winners s)
