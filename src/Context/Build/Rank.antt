-- ===== src/Context/Build/Rank.antt =====
-- The ranking of candidates is a total preorder, and `and_modify` follows it.
use Prim.Native.Nat.Ordering.{lt}
use token_shrinker.Prelude.{◌≡◌, ◌↔◌, true, arith}
use token_shrinker.Prelude.Order.{reverse, cmp_bytes-IsOrder, IsPreorder}
use token_shrinker.Context.Build.{Entry, beats, rank}

rank_flip : (a b : Entry) → rank b a ≡ reverse (rank a b)
unfolding rank
rank_flip a b = ground (arith, cmp_bytes-IsOrder.flip a.1.source_id.value b.1.source_id.value)

-- The comparison that ranks the winners is a total preorder on the candidates.
pub rank-IsPreorder : IsPreorder rank
unfolding rank
rank-IsPreorder = record {
  flip = rank_flip;
  lt_trans = λ a b c p q. ground (
    arith,
    cmp_bytes-IsOrder.lt_trans a.1.source_id.value b.1.source_id.value c.1.source_id.value,
  );
  eq_lt = λ a b c p q.
      ground (
        arith,
        cmp_bytes-IsOrder.eq_lt a.1.source_id.value b.1.source_id.value c.1.source_id.value,
      );
  lt_eq = λ a b c p q.
      ground (
        arith,
        cmp_bytes-IsOrder.lt_eq a.1.source_id.value b.1.source_id.value c.1.source_id.value,
      );
  eq_trans = λ a b c p q. ground (
    arith,
    cmp_bytes-IsOrder.eq_trans a.1.source_id.value b.1.source_id.value c.1.source_id.value,
  );
}

-- A candidate displaces the winner of its content exactly when it ranks before it.
pub beats_iff_rank : (a b : Entry) → (beats a.1 b.1 ≡ true) ↔ (rank a b ≡ lt)
unfolding beats rank
beats_iff_rank a b = ground arith
