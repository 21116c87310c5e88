-- ===== src/Compress/Ranges/Complement.antt =====
-- The indices that are not selected are the complement of the selected ones.
use token_shrinker.Prelude.{
  ℕ, zero, suc, ◌+◌, ◌-◌, ◌&&◌, sym, ◌≡◌, refl, ap, ◌∙◌, ◌≤◌, ◌<◌, true, List, [], ◌∷◌, ◌++◌, map,
  All, occurrences, ◌==◌, ltb, leb, if◌then◌else◌, arith, Bool-cases, inl, inr, u32_max,
}
use token_shrinker.Compress.Ranges.{set_contains, unselected, line_number, ranges}
use token_shrinker.Compress.Ranges.Laws.{
  Ascend, indices_from, indices_of, expand, AreSeparated, ranges_lem, unselected-Ascend,
}

occurrences-Ascend_below :
    (low n : ℕ) (set : List ℕ) → n < low → Ascend low set → occurrences n set ≡ 0
occurrences-Ascend_below low n [] h a = refl
occurrences-Ascend_below low n (x ∷ set) h (l, u, a) =
    ground (arith, occurrences-Ascend_below (x + 1) n set (omega arith) a)

occurrences-Ascend :
    (low n : ℕ) (set : List ℕ)
    → Ascend low set
    → occurrences n set ≡ (if set_contains set n then 1 else 0)
occurrences-Ascend low n [] a = refl
occurrences-Ascend low n (x ∷ set) (l, u, a) = elim (Bool-cases (x == n)) [
  | inl e ↦ rw e (ground (arith, occurrences-Ascend_below (x + 1) n set))
  | inr e ↦ rw e (omega (arith, occurrences-Ascend (x + 1) n set a))
]

occurrences-unselected :
    (n : ℕ) (selected : List ℕ) (first count : ℕ)
    → occurrences n (unselected selected first count) ≡ (
        if leb first n
        then (if ltb n (first + count) then (if set_contains selected n then 0 else 1) else 0)
        else 0)
unfolding unselected
occurrences-unselected n selected first zero = ground arith
occurrences-unselected n selected first (suc count) = elim (Bool-cases (first == n)) [
  | inl e ↦
      let same : first ≡ n = ground arith in
      rw same (ground (arith, occurrences-unselected n selected (n + 1) count))
  | inr e ↦ ground (arith, occurrences-unselected n selected (first + 1) count)
]

contains-below :
    (n count : ℕ) (set : List ℕ) → All (λ i. i < count) set → set_contains set n ≡ true → n < count
contains-below n count [] a h = cc
contains-below n count (x ∷ set) (p, a) h = ground (arith, contains-below n count set a)

-- Each index is either selected or not.
pub occurrences-selected_unselected :
    (n : ℕ) (selected : List ℕ) (count : ℕ)
    → Ascend 0 selected
    → All (λ i. i < count) selected
    → occurrences n selected + occurrences n (unselected selected 0 count)
      ≡ (if ltb n count then 1 else 0)
occurrences-selected_unselected n selected count a b =
    rw (occurrences-Ascend 0 n selected a, occurrences-unselected n selected 0 count)
      (ground (arith, contains-below n count selected b))

-- The lines of ranges are one more than their indices.
abbrev pub line_range : ℕ × ℕ → ℕ × ℕ
line_range (start, end) = (line_number start, line_number end)

indices_from-suc :
    (start count : ℕ) → indices_from (start + 1) count ≡ map suc (indices_from start count)
indices_from-suc start zero = refl
indices_from-suc start (suc count) =
    let here : start + 1 ≡ suc start = omega arith in
    rw (indices_from-suc (start + 1) count)
      (ap (λ n. n ∷ map suc (indices_from (start + 1) count)) here)

line_number_lem :
    (index count : ℕ) → index < count → count ≤ u32_max → line_number index ≡ index + 1
line_number_lem index count b h = ground arith

-- The indices of a range that is not empty are below a bound as soon as its end is.
All-indices_from :
    (n start count : ℕ) (rest : List ℕ)
    → All (λ i. i < n) (indices_from start (suc count) ++ rest)
    → (start + count < n) × All (λ i. i < n) rest
All-indices_from n start zero rest (p, a) = (omega arith, a)
All-indices_from n start (suc count) rest (p, a) =
    let later = All-indices_from n (start + 1) count rest a in (omega (arith, later.0), later.1)

pub AreSeparated-below :
    (n low : ℕ) (rs : List (ℕ × ℕ))
    → AreSeparated low rs
    → All (λ i. i < n) (expand rs)
    → All (λ r. r.1 < n) rs
AreSeparated-below n low [] s a = tt
AreSeparated-below n low ((start, end) ∷ rs) (l, h, s) a =
    let count : end + 1 - start ≡ suc (end - start) = omega arith in
    let first =
      All-indices_from n start (end - start) (expand rs)
        (rw (ap (indices_from start) count) at a) in
    (omega (arith, first.0), AreSeparated-below n (end + 2) rs s first.1)

map-append_suc : (xs ys : List ℕ) → map suc (xs ++ ys) ≡ map suc xs ++ map suc ys
map-append_suc [] ys = refl
map-append_suc (x ∷ xs) ys = ap (◌∷◌ (suc x)) (map-append_suc xs ys)

-- The lines of ranges are their indices, counted from one.
expand-line_range :
    (n : ℕ) (rs : List (ℕ × ℕ))
    → n ≤ u32_max
    → All (λ r. r.1 < n) rs
    → (low : ℕ) → AreSeparated low rs
    → expand (map line_range rs) ≡ map suc (expand rs)
expand-line_range n [] h b low s = refl
expand-line_range n ((start, end) ∷ rs) h (below, b) low (l, o, s) =
    let count : end + 1 + 1 - (start + 1) ≡ end + 1 - start = omega arith in
    rw
      (
        line_number_lem start n (omega arith) h,
        line_number_lem end n below h,
        count,
        indices_from-suc start (end + 1 - start),
        expand-line_range n rs h b (end + 2) s,
      )
      (sym (map-append_suc (indices_of (start, end)) (expand rs)))

occurrences-map-suc : (n : ℕ) (xs : List ℕ) → occurrences (suc n) (map suc xs) ≡ occurrences n xs
occurrences-map-suc n [] = refl
occurrences-map-suc n (x ∷ xs) = ground (arith, occurrences-map-suc n xs)

occurrences-zero : (xs : List ℕ) → occurrences 0 (map suc xs) ≡ 0
occurrences-zero [] = refl
occurrences-zero (x ∷ xs) = ground (arith, occurrences-zero xs)

unselected-below :
    (n : ℕ) (selected : List ℕ) (first count : ℕ)
    → first + count ≤ n
    → All (λ i. i < n) (unselected selected first count)
unfolding unselected
unselected-below n selected first zero h = tt
unselected-below n selected first (suc count) h =
    ground (arith, unselected-below n selected (first + 1) count)

expand-line_range-ranges :
    (n : ℕ) (indices : List ℕ)
    → n ≤ u32_max
    → Ascend 0 indices
    → All (λ i. i < n) indices
    → expand (map line_range (ranges indices)) ≡ map suc indices
expand-line_range-ranges n indices h a b =
    let (whole, separated) = ranges_lem indices a in
    let below = AreSeparated-below n 0 (ranges indices) separated (rw whole b) in
    expand-line_range n (ranges indices) h below 0 separated ∙ ap (map suc) whole

-- Each line is either selected or not, and there are no others.
pub occurrences-lines :
    (n : ℕ) (selected : List ℕ) (count : ℕ)
    → count ≤ u32_max
    → Ascend 0 selected
    → All (λ i. i < count) selected
    → occurrences n (expand (map line_range (ranges selected)))
        + occurrences n (expand (map line_range (ranges (unselected selected 0 count))))
      ≡ (if leb 1 n && leb n count then 1 else 0)
occurrences-lines n selected count h a b =
    rw
      (
        expand-line_range-ranges count selected h a b,
        expand-line_range-ranges count (unselected selected 0 count) h
            (unselected-Ascend selected 0 count (omega arith))
            (unselected-below count selected 0 count (omega arith)),
      )
      (numbered n)
  where
    numbered :
        (m : ℕ)
        → occurrences m (map suc selected) + occurrences m (map suc (unselected selected 0 count))
          ≡ (if leb 1 m && leb m count then 1 else 0)
    numbered zero =
        ground (arith, occurrences-zero selected, occurrences-zero (unselected selected 0 count))
    numbered (suc m) = ground (
      arith,
      occurrences-map-suc m selected,
      occurrences-map-suc m (unselected selected 0 count),
      occurrences-selected_unselected m selected count a b,
    )
