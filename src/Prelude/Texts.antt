-- ===== src/Prelude/Texts.antt =====
-- `str::split_once`, `str::rsplit_once` and `[_]::join` on texts.
use Prim.Native.Nat.{ℕ}
use mathlib.Core.Path.{◌≡◌, refl}
use mathlib.Core.Bool.{true, false}
use mathlib.Core.List.{List, [], ◌∷◌, ◌++◌}
use mathlib.Core.Option.{Option, none, some}
use token_shrinker.Prelude.Lists.{drop, length}
use token_shrinker.Prelude.Bytes.{Bytes, starts_with}

abbrev pub put_left : ℕ → Option (Bytes × Bytes) → Option (Bytes × Bytes)
put_left b none = none
put_left b (some (left, right)) = some (b ∷ left, right)

-- `split_once(pattern)`: what stands before and after the first occurrence.
unfoldable pub split_once : Bytes → Bytes → Option (Bytes × Bytes)
split_once pattern [] = none
split_once pattern (b ∷ bs) = elim (starts_with (b ∷ bs) pattern) [
  | true ↦ some ([], drop (length pattern) (b ∷ bs))
  | false ↦ put_left b (split_once pattern bs)
]

-- `rsplit_once(pattern)`: what stands before and after the last occurrence.
unfoldable pub rsplit_once : Bytes → Bytes → Option (Bytes × Bytes)
rsplit_once pattern [] = none
rsplit_once pattern (b ∷ bs) = elim (rsplit_once pattern bs) [
  | some (left, right) ↦ some (b ∷ left, right)
  | none ↦ elim (starts_with (b ∷ bs) pattern) [
    | true ↦ some ([], drop (length pattern) (b ∷ bs))
    | false ↦ none
  ]
]

-- `lines.join(separator)` for a separator of one byte
unfoldable pub join : ℕ → List Bytes → Bytes
join separator [] = []
join separator (line ∷ []) = line
join separator (line ∷ next ∷ lines) = line ++ (separator ∷ join separator (next ∷ lines))

-- An occurrence of the pattern after which there is none is the last.
pub rsplit_once-append :
    (pattern left text right : Bytes)
    → rsplit_once pattern text ≡ some ([], right)
    → rsplit_once pattern (left ++ text) ≡ some (left, right)
unfolding rsplit_once
rsplit_once-append pattern [] text right h = h
rsplit_once-append pattern (b ∷ left) text right h =
    rw (rsplit_once-append pattern left text right h) refl
