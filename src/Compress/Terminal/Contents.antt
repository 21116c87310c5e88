-- ===== src/Compress/Terminal/Contents.antt =====
-- What a terminal summary holds of the lines of the output.
use Prim.Native.Nat.Ordering.{lt, gt}
use token_shrinker.Prelude.{
  ℕ, ◌+◌, ◌^◌, ◌≡◌, refl, sym, ap, ◌∙◌, ◌≤◌, ◌<◌, true, false, Option, none, some, List, [], ◌∷◌,
  ◌++◌, map, length, sum_of, sum_of-append, if◌then◌else◌, add64, arith, Bool-cases, ◌⊎◌, inl, inr,
}
use token_shrinker.Prelude.Bytes.{Bytes, eq_bytes, eq_bytes_iff}
use token_shrinker.Prelude.Pieces.{append_assoc, append_nil}
use token_shrinker.Prelude.Ends.{HoldsEnds, push_end-HoldsEnds, length-snoc}
use token_shrinker.Prelude.Map.{
  get, upsert, IsMap, upsert-IsMap, get-upsert_self, get-upsert_ne, merged,
}
use token_shrinker.Prelude.Order.{cmp_bytes, cmp_bytes-IsOrder}
use token_shrinker.Prelude.Unicode.{Unicode}
use token_shrinker.Compress.Lines.{strip_carriage_return, lines_of}
use token_shrinker.Compress.Lines.Laws.{record_all}
use token_shrinker.Compress.Terminal.{
  Recorded, is_evidence, record_line, record_raw_line, record_partial,
}

-- How often a text stands in a list.
abbrev pub times : Bytes → List Bytes → ℕ
times x = sum_of (λ y. if eq_bytes y x then 1 else 0)

abbrev pub count_of : Option ℕ → ℕ
count_of none = 0
count_of (some n) = n

module _ (unicode : Unicode) where
  -- How often a line counts as evidence.
  abbrev pub tally : Bytes → List Bytes → ℕ
  tally x seen = if is_evidence unicode x then times x seen else 0

  -- The state after the lines `seen`.
  pub record Summarizes (f t : ℕ) (seen : List Bytes) (s : Recorded) : Type 0 where
    pub ends : HoldsEnds f t seen s.lines
    pub is_map : IsMap s.evidence
    pub counts : (x : Bytes) → count_of (get x s.evidence) ≡ tally x seen
    pub positive : (x : Bytes) (n : ℕ) → get x s.evidence ≡ some n → 0 < n

  ne-cmp : (x y : Bytes) → eq_bytes y x ≡ false → cmp_bytes x y ≡ lt ⊎ cmp_bytes x y ≡ gt
  ne-cmp x y h = ground (arith, eq_bytes_iff y x, cmp_bytes-IsOrder.eq_of_cmp x y)

  times-snoc :
      (x line : Bytes) (seen : List Bytes)
      → times x (seen ++ (line ∷ [])) ≡ times x seen + (if eq_bytes line x then 1 else 0)
  times-snoc x line seen =
      omega (arith, sum_of-append (λ y. if eq_bytes y x then 1 else 0) seen (line ∷ []))

  times-le : (x : Bytes) (seen : List Bytes) → times x seen ≤ length seen
  times-le x [] = omega arith
  times-le x (y ∷ seen) = ground (arith, times-le x seen)

  count-merged :
      (o : Option ℕ) (n : ℕ)
      → count_of o ≡ n
      → n + 1 < 2 ^ 64
      → count_of (some (merged (λ count. add64 count 1) 1 o)) ≡ n + 1
  count-merged none n e h = omega arith
  count-merged (some m) n e h = omega arith

  -- The evidence after one more line.
  evidence_after : List (Bytes × ℕ) → Bytes → List (Bytes × ℕ)
  evidence_after m line =
      if is_evidence unicode line then upsert line (λ count. add64 count 1) 1 m else m

  evidence_after_self :
      (m : List (Bytes × ℕ)) (x : Bytes)
      → is_evidence unicode x ≡ true
      → count_of (get x m) + 1 < 2 ^ 64
      → count_of (get x (evidence_after m x)) ≡ count_of (get x m) + 1
  unfolding evidence_after
  evidence_after_self m x e h =
      rw (e, get-upsert_self x (λ count. add64 count 1) 1 m)
        (count-merged (get x m) (count_of (get x m)) refl h)

  evidence_after-other :
      (m : List (Bytes × ℕ)) (line x : Bytes)
      → eq_bytes line x ≡ false
      → get x (evidence_after m line) ≡ get x m
  unfolding evidence_after
  evidence_after-other m line x h = elim (Bool-cases (is_evidence unicode line)) [
    | inl e ↦ rw e (get-upsert_ne line x (λ count. add64 count 1) 1 m (ne-cmp x line h))
    | inr e ↦ rw e refl
  ]

  evidence_after-none :
      (m : List (Bytes × ℕ)) (line : Bytes)
      → is_evidence unicode line ≡ false
      → evidence_after m line ≡ m
  unfolding evidence_after
  evidence_after-none m line e = rw e refl

  tally-same :
      (x : Bytes) (seen : List Bytes) → is_evidence unicode x ≡ true → tally x seen ≡ times x seen
  tally-same x seen e = rw e refl

  tally-other : (x : Bytes) (seen : List Bytes) → is_evidence unicode x ≡ false → tally x seen ≡ 0
  tally-other x seen e = rw e refl

  times-snoc_self : (x : Bytes) (seen : List Bytes) → times x (seen ++ (x ∷ [])) ≡ times x seen + 1
  times-snoc_self x seen = rw (times-snoc x x seen, (eq_bytes_iff x x).1 refl) refl

  tally-snoc_ne :
      (line x : Bytes) (seen : List Bytes)
      → eq_bytes line x ≡ false
      → tally x (seen ++ (line ∷ [])) ≡ tally x seen
  tally-snoc_ne line x seen h = rw (times-snoc x line seen, h) (ground arith)

  evidence_after-counts :
      (m : List (Bytes × ℕ)) (line x : Bytes) (seen : List Bytes)
      → length seen + 1 < 2 ^ 64
      → count_of (get x m) ≡ tally x seen
      → count_of (get x (evidence_after m line)) ≡ tally x (seen ++ (line ∷ []))
  evidence_after-counts m line x seen h c = elim (Bool-cases (eq_bytes line x)) [
    | inr other ↦
        ap count_of (evidence_after-other m line x other)
        ∙ c
        ∙ sym (tally-snoc_ne line x seen other)
    | inl same ↦ rw ((eq_bytes_iff line x).0 same) (counts_self h c)
  ]
    where
      counts_self :
          length seen + 1 < 2 ^ 64
          → count_of (get x m) ≡ tally x seen
          → count_of (get x (evidence_after m x)) ≡ tally x (seen ++ (x ∷ []))
      counts_self b k = elim (Bool-cases (is_evidence unicode x)) [
        | inl e ↦ omega (
          arith,
          k,
          times-le x seen,
          tally-same x seen e,
          tally-same x (seen ++ (x ∷ [])) e,
          times-snoc_self x seen,
          evidence_after_self m x e (omega (arith, k, times-le x seen, tally-same x seen e)),
        )
        | inr e ↦
            ap (λ n. count_of (get x n)) (evidence_after-none m x e)
            ∙ k
            ∙ tally-other x seen e
            ∙ sym (tally-other x (seen ++ (x ∷ [])) e)
      ]

  evidence_after-IsMap :
      (m : List (Bytes × ℕ)) (line : Bytes) → IsMap m → IsMap (evidence_after m line)
  unfolding evidence_after
  evidence_after-IsMap m line h = elim (Bool-cases (is_evidence unicode line)) [
    | inl e ↦ rw e (upsert-IsMap line (λ count. add64 count 1) 1 m h)
    | inr e ↦ rw e h
  ]

  evidence_after-positive :
      (m : List (Bytes × ℕ)) (line x : Bytes) (seen : List Bytes)
      → length seen + 1 < 2 ^ 64
      → count_of (get x m) ≡ tally x seen
      → ((n : ℕ) → get x m ≡ some n → 0 < n)
      → (n : ℕ) → get x (evidence_after m line) ≡ some n
      → 0 < n
  evidence_after-positive m line x seen h c p n g = elim (Bool-cases (eq_bytes line x)) [
    | inr other ↦ p n (sym (evidence_after-other m line x other) ∙ g)
    | inl same ↦ positive_self ((eq_bytes_iff line x).0 same) (Bool-cases (is_evidence unicode x))
  ]
    where
      positive_self :
          line ≡ x → (is_evidence unicode x ≡ true) ⊎ (is_evidence unicode x ≡ false) → 0 < n
      positive_self same (inl e) =
          let bound : count_of (get x m) + 1 < 2 ^ 64 =
            omega (arith, h, c, times-le x seen, tally-same x seen e) in
          let more = evidence_after_self m x e bound in
          let got : get x (evidence_after m x) ≡ some n = rw same at g in
          omega (arith, more, ap count_of got)
      positive_self same (inr e) =
          let got : get x (evidence_after m x) ≡ some n = rw same at g in
          p n (sym (ap (get x) (evidence_after-none m x e)) ∙ got)

  record_line-Summarizes :
      (f t : ℕ) (seen : List Bytes) (s : Recorded) (line : Bytes)
      → length seen + 1 < 2 ^ 64
      → Summarizes f t seen s
      → Summarizes f t (seen ++ (line ∷ [])) (record_line unicode f t s line)
  unfolding record_line evidence_after
  record_line-Summarizes f t seen s line h i = record {
    ends = push_end-HoldsEnds f t seen s.lines line i.ends;
    is_map = evidence_after-IsMap s.evidence line i.is_map;
    counts = λ x. evidence_after-counts s.evidence line x seen h (i.counts x);
    positive = λ x. evidence_after-positive s.evidence line x seen h (i.counts x) (i.positive x);
  }

  -- The text that `push_chunk` records of a complete line.
  abbrev pub text_of : Bytes → Bytes
  text_of line = unicode.lossy (strip_carriage_return line)

  pub record_all-Summarizes :
      (f t : ℕ) (seen lines : List Bytes) (s : Recorded)
      → length seen + length lines < 2 ^ 64
      → Summarizes f t seen s
      → Summarizes f t
          (seen ++ map text_of lines)
          (record_all (record_raw_line unicode f t) s lines)
  unfolding record_raw_line
  record_all-Summarizes f t seen [] s h i = rw (append_nil seen) i
  record_all-Summarizes f t seen (line ∷ lines) s h i =
      rw (← append_assoc seen (text_of line ∷ []) (map text_of lines)) (
        record_all-Summarizes f t (seen ++ (text_of line ∷ [])) lines
          (record_line unicode f t s (text_of line))
          (omega (arith, length-snoc 0 0 seen (text_of line)))
          (record_line-Summarizes f t seen s (text_of line) (omega arith) i))

  -- The text that `finish` records of a partial line.
  abbrev pub partial_of : Bytes → List Bytes
  partial_of [] = []
  partial_of (b ∷ bs) = unicode.lossy (b ∷ bs) ∷ []

  pub record_partial-Summarizes :
      (f t : ℕ) (seen : List Bytes) (s : Recorded) (partial : Bytes)
      → length seen + 1 < 2 ^ 64
      → Summarizes f t seen s
      → Summarizes f t (seen ++ partial_of partial) (record_partial unicode f t s partial)
  unfolding record_partial
  record_partial-Summarizes f t seen s [] h i = rw (append_nil seen) i
  record_partial-Summarizes f t seen s (b ∷ bs) h i =
      record_line-Summarizes f t seen s (unicode.lossy (b ∷ bs)) h i

  -- All the lines of a command's output, in the order in which they are recorded: the
  -- complete lines of standard output and of standard error, and then what stands after the last newlines.
  unfoldable pub output_lines : Bytes → Bytes → List Bytes
  output_lines out error =
      ((map text_of (lines_of out).0 ++ map text_of (lines_of error).0)
        ++ partial_of (lines_of out).1)
      ++ partial_of (lines_of error).1
