-- ===== src/Prelude/Ends.antt =====
-- The beginning and the end of a sequence, in a vector and a deque of bounded lengths.
use Prim.Native.Nat.{ℕ, suc, ◌-◌, ◌≤◌, ◌<◌, max, min}
use mathlib.Core.Path.{◌≡◌, refl, sym}
use mathlib.Core.Logic.{inl, inr}
use mathlib.Core.Bool.{true, false}
use mathlib.Core.List.{List, [], ◌∷◌, ◌++◌}
use native.Mathlib.Omega.{arith}
use token_shrinker.Prelude.Tests.{ltb, lt→ltb, ltb→lt, ==_iff, if◌then◌else◌, Bool-cases, ◌==◌}
use token_shrinker.Prelude.Words.{ltb_false→le, le→ltb_false}
use token_shrinker.Prelude.Lists.{length, take, drop, length-append, length-take, length-drop}
use token_shrinker.Prelude.Pieces.{
  take_all, drop_all, take-append_left, drop-append_left, drop-snoc_next,
}

pub record Ends {ℓ} (A : Type ℓ) : Type ℓ where
  pub head : List A
  pub tail : List A

-- Where the kept end of a sequence of `n` items begins.
abbrev pub tail_start : ℕ → ℕ → ℕ → ℕ
tail_start head_cap tail_cap n = max head_cap (n - tail_cap)

module _ {ℓ} {A : Type ℓ} (head_cap tail_cap : ℕ) where
  -- One more item: a full deque drops its first.
  unfoldable pub push_end : Ends A → A → Ends A
  push_end s item =
      if ltb (length s.head) head_cap
      then record s { head = s.head ++ (item ∷ []) }
      else if ltb 0 tail_cap
      then record s {
        tail = (if length s.tail == tail_cap then drop 1 s.tail else s.tail) ++ (item ∷ []);
      }
      else s

  -- What is kept of the sequence `seen`.
  pub record HoldsEnds (seen : List A) (s : Ends A) : Type ℓ where
    pub head_is : s.head ≡ take head_cap seen
    pub tail_is : s.tail ≡ drop (tail_start head_cap tail_cap (length seen)) seen

  pub length-head :
      (seen : List A) (s : Ends A) → HoldsEnds seen s → length s.head ≡ min head_cap (length seen)
  length-head seen s i = rw (i.head_is) (length-take head_cap seen)

  pub length-tail :
      (seen : List A) (s : Ends A)
      → HoldsEnds seen s
      → length s.tail ≡ length seen - tail_start head_cap tail_cap (length seen)
  length-tail seen s i =
      rw (i.tail_is) (length-drop (tail_start head_cap tail_cap (length seen)) seen)

  push_end_room :
      (seen : List A) (s : Ends A) (b : A)
      → length seen < head_cap
      → HoldsEnds seen s
      → HoldsEnds (seen ++ (b ∷ [])) (push_end s b)
  unfolding push_end
  push_end_room seen s b h i =
      let n = length-append seen (b ∷ []) in
      rw (lt→ltb (length s.head) head_cap (omega (arith, length-head seen s i))) (record {
        head_is =
            rw
              (
                i.head_is,
                take_all head_cap seen (omega arith),
                take_all head_cap (seen ++ (b ∷ [])) (omega (arith, n)),
              )
              refl;
        tail_is =
            rw
              (
                i.tail_is,
                drop_all (tail_start head_cap tail_cap (length seen)) seen (omega arith),
                drop_all (tail_start head_cap tail_cap (length (seen ++ (b ∷ []))))
                    (seen ++ (b ∷ [])) (omega (arith, n)),
              )
              refl;
      })

  -- The kept end after one more item.
  tail_step :
      (seen : List A) (b : A)
      → head_cap ≤ length seen
      → 0 < tail_cap
      → (if length seen - tail_start head_cap tail_cap (length seen) == tail_cap
            then drop 1 (drop (tail_start head_cap tail_cap (length seen)) seen)
            else drop (tail_start head_cap tail_cap (length seen)) seen)
          ++ (b ∷ [])
        ≡ drop (tail_start head_cap tail_cap (suc (length seen))) (seen ++ (b ∷ []))
  tail_step seen b h p =
      let m = tail_start head_cap tail_cap (length seen) in
      elim (Bool-cases (length seen - m == tail_cap)) [
        | inl e ↦ rw (e, next_start e) (drop-snoc_next m seen b (omega (arith, (==_iff _ _).0 e)))
        | inr e ↦ rw (e, same_start e) (sym (drop-append_left m seen (b ∷ []) (omega arith)))
      ]
    where
      next_start :
          (length seen - tail_start head_cap tail_cap (length seen) == tail_cap) ≡ true
          → tail_start head_cap tail_cap (suc (length seen))
            ≡ suc (tail_start head_cap tail_cap (length seen))
      next_start e = ground arith

      same_start :
          (length seen - tail_start head_cap tail_cap (length seen) == tail_cap) ≡ false
          → tail_start head_cap tail_cap (suc (length seen))
            ≡ tail_start head_cap tail_cap (length seen)
      same_start e = ground arith

  pub length-snoc : (seen : List A) (b : A) → length (seen ++ (b ∷ [])) ≡ suc (length seen)
  length-snoc seen b = omega (arith, length-append seen (b ∷ []))

  push_end_full :
      (seen : List A) (s : Ends A) (b : A)
      → head_cap ≤ length seen
      → HoldsEnds seen s
      → HoldsEnds (seen ++ (b ∷ [])) (push_end s b)
  unfolding push_end
  push_end_full seen s b h i =
      rw (le→ltb_false (length s.head) head_cap (omega (arith, length-head seen s i)))
        (elim (Bool-cases (ltb 0 tail_cap)) [
          | inl e ↦ rw e (record {
            head_is = rw (i.head_is, take-append_left head_cap seen (b ∷ []) h) refl;
            tail_is =
                rw
                  (
                    length-snoc seen b,
                    ← tail_step seen b h (ltb→lt 0 tail_cap e),
                    length-tail seen s i,
                    i.tail_is,
                  )
                  refl;
          })
          | inr e ↦ rw e (record {
            head_is = rw (i.head_is, take-append_left head_cap seen (b ∷ []) h) refl;
            tail_is =
                rw
                  (
                    i.tail_is,
                    drop_all (tail_start head_cap tail_cap (length seen)) seen (ground arith),
                    drop_all (tail_start head_cap tail_cap (length (seen ++ (b ∷ []))))
                        (seen ++ (b ∷ [])) (ground (arith, length-snoc seen b)),
                  )
                  refl;
          })
        ])

  pub push_end-HoldsEnds :
      (seen : List A) (s : Ends A) (b : A)
      → HoldsEnds seen s
      → HoldsEnds (seen ++ (b ∷ [])) (push_end s b)
  push_end-HoldsEnds seen s b i = elim (Bool-cases (ltb (length seen) head_cap)) [
    | inl e ↦ push_end_room seen s b (ltb→lt (length seen) head_cap e) i
    | inr e ↦ push_end_full seen s b (ltb_false→le (length seen) head_cap e) i
  ]
