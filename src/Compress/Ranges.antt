-- ===== src/Compress/Ranges.antt =====
-- crates/ts-compress/src/lib.rs: `ranges` and `omitted_ranges`. A `BTreeSet<usize>` is its elements in
-- ascending order.
pub mod Complement
pub mod Laws
use Prim.Native.Nat.Ordering.{lt, eq, gt}
use token_shrinker.Prelude.{
  ℕ, zero, suc, ◌+◌, Bool, true, false, List, [], ◌∷◌, any, not, map, compare, ◌==◌, if◌then◌else◌,
  saturating_add, to_u32,
}

-- `BTreeSet::insert`
unfoldable pub insert : ℕ → List ℕ → List ℕ
insert x [] = x ∷ []
insert x (y ∷ ys) =
    let rest = insert x ys in elim (compare x y) [ lt ↦ x ∷ y ∷ ys | eq ↦ y ∷ ys | gt ↦ y ∷ rest ]

-- `BTreeSet::contains`
abbrev pub set_contains : List ℕ → ℕ → Bool
set_contains set x = any (λ y. y == x) set

-- One turn of the loop of `ranges`: the last range grows by one, or another range begins.
unfoldable pub push_index : List (ℕ × ℕ) → ℕ → List (ℕ × ℕ)
push_index [] index = (index, index) ∷ []
push_index ((start, end) ∷ []) index =
    if index == saturating_add end 1
    then (start, index) ∷ []
    else (start, end) ∷ (index, index) ∷ []
push_index (r ∷ q ∷ output) index = r ∷ push_index (q ∷ output) index

unfoldable pub push_indices : List (ℕ × ℕ) → List ℕ → List (ℕ × ℕ)
unfolding push_index
push_indices output [] = output
push_indices output (index ∷ indices) = push_indices (push_index output index) indices

unfoldable pub ranges : List ℕ → List (ℕ × ℕ)
unfolding push_indices
ranges indices = push_indices [] indices

pub record OmittedRange : Type 0 where
  pub start_line : ℕ
  pub end_line : ℕ

-- `u32::try_from(index + 1).unwrap_or(u32::MAX)`
abbrev pub line_number : ℕ → ℕ
line_number index = to_u32 (index + 1)

-- The indices from `first` on, `count` of them, that are not selected.
unfoldable pub unselected : List ℕ → ℕ → ℕ → List ℕ
unselected selected first zero = []
unselected selected first (suc count) =
    let rest = unselected selected (first + 1) count in
    if set_contains selected first then rest else first ∷ rest

abbrev pub omitted_range : ℕ × ℕ → OmittedRange
omitted_range (start, end) = record { start_line = line_number start; end_line = line_number end }

unfoldable pub omitted_ranges : ℕ → List ℕ → List OmittedRange
unfolding ranges unselected
omitted_ranges line_count selected = map omitted_range (ranges (unselected selected 0 line_count))
