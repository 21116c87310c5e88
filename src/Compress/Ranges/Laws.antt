-- ===== src/Compress/Ranges/Laws.antt =====
-- `ranges` loses nothing, and its ranges are as long as they can be; the omitted lines are the
-- complement of the selected ones.
use token_shrinker.Prelude.{
  ℕ, zero, suc, ◌+◌, ◌-◌, ◌≡◌, refl, sym, ap, ◌∙◌, ◌≤◌, ◌<◌, List, [], ◌∷◌, ◌++◌, All, ◌==◌, arith,
  Bool-cases, inl, inr, u64_max, saturating_add,
}
use token_shrinker.Prelude.Pieces.{append_assoc, append_nil}
use token_shrinker.Compress.Ranges.{push_index, push_indices, ranges, set_contains, unselected}

-- The indices from `first` on, `count` of them.
abbrev pub indices_from : ℕ → ℕ → List ℕ
indices_from first zero = []
indices_from first (suc count) = first ∷ indices_from (first + 1) count

-- The indices of a range, and of ranges one after the other.
abbrev pub indices_of : ℕ × ℕ → List ℕ
indices_of (start, end) = indices_from start (end + 1 - start)

abbrev pub expand : List (ℕ × ℕ) → List ℕ
expand [] = []
expand (r ∷ rs) = indices_of r ++ expand rs

-- The ranges are not empty, begin at the bound or after it, and have a gap between each and the next.
abbrev pub AreSeparated : ℕ → List (ℕ × ℕ) → Type 0
AreSeparated low [] = Unit
AreSeparated low ((start, end) ∷ rs) = (low ≤ start) × (start ≤ end) × AreSeparated (end + 2) rs

abbrev EndsBelow : ℕ → List (ℕ × ℕ) → Type 0
EndsBelow n = All (λ r. r.1 < n)

-- The indices ascend strictly, from the bound on and within 64 bits.
abbrev pub Ascend : ℕ → List ℕ → Type 0
Ascend low [] = Unit
Ascend low (x ∷ xs) = (low ≤ x) × (x ≤ u64_max) × Ascend (x + 1) xs

indices_from-snoc :
    (first count : ℕ)
    → indices_from first (suc count) ≡ indices_from first count ++ ((first + count) ∷ [])
indices_from-snoc first zero = ap (λ n. n ∷ []) (omega arith)
indices_from-snoc first (suc count) = ap (◌∷◌ first) (
    indices_from-snoc (first + 1) count
    ∙ ap (λ n. indices_from (first + 1) count ++ (n ∷ [])) (omega arith))

indices_of-one : (index : ℕ) → indices_of (index, index) ≡ index ∷ []
indices_of-one index = ap (indices_from index) {x = index + 1 - index} {y = 1} (omega arith)

indices_of-grow :
    (start end : ℕ)
    → start ≤ end
    → indices_of (start, end + 1) ≡ indices_of (start, end) ++ ((end + 1) ∷ [])
indices_of-grow start end h =
    ap (indices_from start) {x = end + 1 + 1 - start} {y = suc (end + 1 - start)} (omega arith)
    ∙ indices_from-snoc start (end + 1 - start)
    ∙ ap (λ n. indices_of (start, end) ++ (n ∷ [])) (omega arith)

-- One turn of the loop, on ranges that end below the index.
push_index-last :
    (start end index : ℕ)
    → start ≤ end
    → index ≡ end + 1
    → indices_of (start, index) ++ [] ≡ (indices_of (start, end) ++ []) ++ (index ∷ [])
push_index-last start end index h e =
    rw (append_nil (indices_of (start, index)), append_nil (indices_of (start, end)), e)
      (indices_of-grow start end h)

push_index-next :
    (start end index : ℕ)
    → indices_of (start, end) ++ (indices_of (index, index) ++ [])
      ≡ (indices_of (start, end) ++ []) ++ (index ∷ [])
push_index-next start end index =
    rw
      (
        append_nil (indices_of (start, end)),
        append_nil (indices_of (index, index)),
        indices_of-one index,
      )
      refl

expand-push_index :
    (low : ℕ) (output : List (ℕ × ℕ)) (index : ℕ)
    → AreSeparated low output
    → EndsBelow index output
    → index ≤ u64_max
    → expand (push_index output index) ≡ expand output ++ (index ∷ [])
unfolding push_index
expand-push_index low [] index s b u =
    rw (append_nil (indices_of (index, index))) (indices_of-one index)
expand-push_index low ((start, end) ∷ []) index s b u =
    elim (Bool-cases (index == saturating_add end 1)) [
      | inl e ↦ rw e (push_index-last start end index s.1 (ground arith))
      | inr e ↦ rw e (push_index-next start end index)
    ]
expand-push_index low (r ∷ q ∷ output) index s b u =
    ap (λ xs. indices_of r ++ xs) (expand-push_index (r.1 + 2) (q ∷ output) index s.2 b.1 u)
    ∙ sym (append_assoc (indices_of r) (expand (q ∷ output)) (index ∷ []))

push_index-AreSeparated :
    (low : ℕ) (output : List (ℕ × ℕ)) (index : ℕ)
    → low ≤ index
    → AreSeparated low output
    → EndsBelow index output
    → index ≤ u64_max
    → AreSeparated low (push_index output index) × EndsBelow (index + 1) (push_index output index)
unfolding push_index
push_index-AreSeparated low [] index l s b u = omega arith
push_index-AreSeparated low ((start, end) ∷ []) index l s b u = ground arith
push_index-AreSeparated low (r ∷ q ∷ output) index l s b u =
    let rest =
      push_index-AreSeparated (r.1 + 2) (q ∷ output) index (omega (arith, s, b)) s.2 b.1 u in
    ((s.0, s.1, rest.0), (omega (arith, b), rest.1))

EndsBelow-mono : (m n : ℕ) (output : List (ℕ × ℕ)) → m ≤ n → EndsBelow m output → EndsBelow n output
EndsBelow-mono m n [] h b = tt
EndsBelow-mono m n (r ∷ output) h (p, b) = (omega arith, EndsBelow-mono m n output h b)

push_indices_lem :
    (output : List (ℕ × ℕ)) (low : ℕ) (indices : List ℕ)
    → AreSeparated 0 output
    → EndsBelow low output
    → Ascend low indices
    → (expand (push_indices output indices) ≡ expand output ++ indices)
      × AreSeparated 0 (push_indices output indices)
unfolding push_indices
push_indices_lem output low [] s b a = (sym (append_nil (expand output)), s)
push_indices_lem output low (x ∷ xs) s b (l, u, a) =
    let below = EndsBelow-mono low x output l b in
    let next = push_index-AreSeparated 0 output x (omega arith) s below u in
    let rest = push_indices_lem (push_index output x) (x + 1) xs next.0 next.1 a in
    (
      rest.0
          ∙ ap (λ ys. ys ++ xs) (expand-push_index 0 output x s below u)
          ∙ append_assoc (expand output) (x ∷ []) xs,
      rest.1,
    )

-- On indices that ascend strictly, within 64 bits, the ranges stand for exactly these indices, in
-- order, each range is not empty, and there is a gap between each and the next.
pub ranges_lem :
    (indices : List ℕ)
    → Ascend 0 indices
    → (expand (ranges indices) ≡ indices) × AreSeparated 0 (ranges indices)
unfolding ranges
ranges_lem indices a = push_indices_lem [] 0 indices tt tt a

Ascend-mono : (m n : ℕ) (xs : List ℕ) → m ≤ n → Ascend n xs → Ascend m xs
Ascend-mono m n [] h a = tt
Ascend-mono m n (x ∷ xs) h (l, u, a) = (omega arith, u, a)

-- The indices that are not selected ascend, and are those of the given ones that are not selected.
pub unselected-Ascend :
    (selected : List ℕ) (first count : ℕ)
    → first + count ≤ u64_max
    → Ascend first (unselected selected first count)
unfolding unselected
unselected-Ascend selected first zero h = tt
unselected-Ascend selected first (suc count) h =
    let rest : Ascend (first + 1) (unselected selected (first + 1) count) =
      unselected-Ascend selected (first + 1) count (omega (arith, h)) in
    elim (Bool-cases (set_contains selected first)) [
      | inl e ↦
          rw e (
            Ascend-mono first (first + 1) (unselected selected (first + 1) count) (omega arith)
              rest)
      | inr e ↦ rw e (omega arith, omega (arith, h), rest)
    ]
