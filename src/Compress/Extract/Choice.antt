-- ===== src/Compress/Extract/Choice.antt =====
-- The lines that `compress_context` chooses: they exist, ascend, and are paid for within the budget.
use mathlib.Core.Option
use mathlib.Core.Option.{some-injective}
use token_shrinker.Prelude.{
  ℕ, zero, suc, ◌+◌, ◌-◌, ◌≡◌, refl, ap, ◌≤◌, ◌<◌, min, Option, none, some, List, [], ◌∷◌, length,
  sum_of, get_elem?, All, IsAt, leb, arith, Bool-cases, inl, inr, leb→le, saturating_add, u32_max,
  u64_max,
}
use token_shrinker.Prelude.Bytes.{Bytes}
use token_shrinker.Prelude.Unicode.{Unicode}
use token_shrinker.Compress.Ranges.{insert}
use token_shrinker.Compress.Ranges.Laws.{Ascend}
use token_shrinker.Compress.Extract.{
  Wanted, entry, Marks, marks, important, priority, want_neighbours, want_line, want_lines, Chosen,
  choose_line, choose,
}

abbrev pub Below : ℕ → Wanted → Type 0
Below n = All (λ e. e.0 < n)

module _ (n : ℕ) where
  entry-Below :
      (index : ℕ) (f : ℕ → ℕ) (p : ℕ) (wanted : Wanted)
      → index < n
      → Below n wanted
      → Below n (entry index f p wanted)
  unfolding entry
  entry-Below index f p [] h b = (h, tt)
  entry-Below index f p ((i, q) ∷ wanted) h (l, b) =
      ground (arith, entry-Below index f p wanted h b)

  want_neighbours-Below :
      (start count : ℕ) (wanted : Wanted)
      → start + count ≤ n
      → Below n wanted
      → Below n (want_neighbours start count wanted)
  unfolding want_neighbours
  want_neighbours-Below start zero wanted h b = b
  want_neighbours-Below start (suc count) wanted h b =
      want_neighbours-Below (start + 1) count (entry start (λ c. c) 3 wanted) (omega arith)
        (entry-Below start (λ c. c) 3 wanted (omega arith) b)

  want_line-Below :
      (surrounding_lines : ℕ) (m : Marks) (index : ℕ) (wanted : Wanted)
      → index < n
      → Below n wanted
      → Below n (want_line surrounding_lines n m index wanted)
  unfolding want_line
  want_line-Below surrounding_lines m index wanted h b = elim (Bool-cases (important m)) [
    | inl e ↦ rw e (
        want_neighbours-Below (index - surrounding_lines)
          (min (saturating_add index surrounding_lines) (n - 1) + 1 - (index - surrounding_lines))
          (entry index (λ c. min c (priority m)) (priority m) wanted) (omega arith)
          (entry-Below index (λ c. min c (priority m)) (priority m) wanted h b))
    | inr e ↦ rw e b
  ]

  pub want_lines-Below :
      (unicode : Unicode) (terms : List Bytes) (surrounding_lines : ℕ) (lines : List (ℕ × Bytes))
      (wanted : Wanted)
      → All (λ e. e.0 < n) lines
      → Below n wanted
      → Below n (want_lines unicode terms surrounding_lines n lines wanted)
  unfolding want_lines
  want_lines-Below unicode terms surrounding_lines [] wanted a b = b
  want_lines-Below unicode terms surrounding_lines ((index, line) ∷ lines) wanted (h, a) b =
      want_lines-Below unicode terms surrounding_lines lines
        (want_line surrounding_lines n (marks unicode terms line) index wanted) a
        (want_line-Below surrounding_lines (marks unicode terms line) index wanted h b)

insert-Ascend :
    (low x : ℕ) (set : List ℕ) → low ≤ x → x ≤ u64_max → Ascend low set → Ascend low (insert x set)
unfolding insert
insert-Ascend low x [] l u a = (l, u, tt)
insert-Ascend low x (y ∷ set) l u (p, q, a) = ground (arith, insert-Ascend (y + 1) x set)

insert-All : (P : ℕ → Type 0) (x : ℕ) (set : List ℕ) → P x → All P set → All P (insert x set)
unfolding insert
insert-All P x [] p a = (p, tt)
insert-All P x (y ∷ set) p (q, a) = ground (arith, insert-All P x set p a)

sum_of-insert : (f : ℕ → ℕ) (x : ℕ) (set : List ℕ) → sum_of f (insert x set) ≤ f x + sum_of f set
unfolding insert
sum_of-insert f x [] = omega arith
sum_of-insert f x (y ∷ set) = ground (arith, sum_of-insert f x set)

-- What the selection pays for a line: its bytes and four more.
abbrev pub line_cost : Bytes → ℕ
line_cost line = length line + 4

abbrev pub cost_of : Option Bytes → ℕ
cost_of none = 0
cost_of (some line) = line_cost line

abbrev pub cost_at : List Bytes → ℕ → ℕ
cost_at lines index = cost_of (get_elem? lines index)

pub get_elem?-below {ℓ} :
    {A : Type ℓ} (xs : List A) (i : ℕ) → i < length xs → (x : A) × (get_elem? xs i ≡ some x)
get_elem?-below [] i h = absurd (omega arith)
get_elem?-below (x ∷ xs) zero h = (x, refl)
get_elem?-below (x ∷ xs) (suc i) h = get_elem?-below xs i (omega arith)

get_elem?-some-below {ℓ} :
    {A : Type ℓ} (xs : List A) (i : ℕ) (x : A) → get_elem? xs i ≡ some x → i < length xs
get_elem?-some-below [] i x e = cc
get_elem?-some-below (y ∷ xs) zero x e = omega arith
get_elem?-some-below (y ∷ xs) (suc i) x e = omega (arith, get_elem?-some-below xs i x e)

pub get_elem?-at : (lines : List Bytes) (e : ℕ × Bytes) → IsAt 0 lines e → e.0 < length lines
get_elem?-at lines e (k, p, q) = omega (arith, get_elem?-some-below lines k e.1 q)

module _ (limit : ℕ) (lines : List Bytes) where
  -- What holds of the selection's variables.
  pub record IsChoice (c : Chosen) : Type 0 where
    pub ascends : Ascend 0 c.selected
    pub exist : All (λ i. i < length lines) c.selected
    pub paid : sum_of (cost_at lines) c.selected ≤ c.used_tokens
    pub bounded : c.used_tokens ≤ limit

  module _ (h : limit ≤ u32_max) (small : length lines ≤ u64_max) where
    choose_line-IsChoice :
        (index : ℕ) (c : Chosen) (line : Bytes)
        → index < length lines
        → get_elem? lines index ≡ some line
        → IsChoice c
        → IsChoice (choose_line limit index c line)
    unfolding choose_line
    choose_line-IsChoice index c line below at s =
        let cost = saturating_add (length line) 4 in
        elim (Bool-cases (leb (saturating_add c.used_tokens cost) limit)) [
          | inl e ↦
              let fits = leb→le (saturating_add c.used_tokens cost) limit e in
              let here : cost_at lines index ≡ line_cost line = ap cost_of at in
              rw e (record {
                ascends = insert-Ascend 0 index c.selected (omega arith) (omega arith) s.ascends;
                exist = insert-All (λ i. i < length lines) index c.selected below s.exist;
                paid = omega (arith, s.paid, here, sum_of-insert (cost_at lines) index c.selected);
                bounded = omega (arith, s.bounded);
              })
          | inr e ↦ rw e s
        ]

    pub choose-IsChoice :
        (wanted : Wanted) (c : Chosen)
        → Below (length lines) wanted
        → IsChoice c
        → (d : Chosen) × (choose limit lines wanted c ≡ some d) × IsChoice d
    unfolding choose Option.bind
    choose-IsChoice [] c b s = (c, refl, s)
    choose-IsChoice ((index, p) ∷ wanted) c (below, b) s =
        let (line, at) = get_elem?-below lines index below in
        rw at (
          choose-IsChoice wanted (choose_line limit index c line) b
            (choose_line-IsChoice index c line below at s))
