-- ===== src/Telemetry/Savings/Laws.antt =====
-- The sums are those of the events.
use Prim.Native.Nat.Ordering.{lt, eq, gt}
use token_shrinker.Prelude.{
  ℕ, ◌+◌, ◌≡◌, refl, ◌∙◌, Bool, true, false, ◌&&◌, Option, none, some, List, [], ◌∷◌, All, sum_of,
  ltb, map, ◌^◌, if◌then◌else◌, arith, Bool-cases, inl, inr, ok, ◌>>=◌, >>=-eq-ok, ok_injective,
}
use token_shrinker.Prelude.Bytes.{Bytes}
use token_shrinker.Prelude.Order.{reverse, cmp_bytes-IsOrder, eq_of_cmp_bytes}
use token_shrinker.Prelude.Filters.{All-map}
use token_shrinker.Telemetry.Store.{TokenRow, Tables}
use token_shrinker.Telemetry.Savings.{
  TokenSavings, Group, cmp_bool, cmp_key, add_event, groups, difference, read_group, read_groups,
  token_savings,
}

-- The keys are the same.
eq_of_cmp_bool : (a b : Bool) → cmp_bool a b ≡ eq → a ≡ b
eq_of_cmp_bool false false h = refl
eq_of_cmp_bool false true h = cc
eq_of_cmp_bool true false h = cc
eq_of_cmp_bool true true h = refl

cmp_bool_flip : (a b : Bool) → cmp_bool b a ≡ reverse (cmp_bool a b)
cmp_bool_flip false false = refl
cmp_bool_flip false true = refl
cmp_bool_flip true false = refl
cmp_bool_flip true true = refl

cmp_bool_trans : (a b c : Bool) → cmp_bool a b ≡ lt → cmp_bool b c ≡ lt → cmp_bool a c ≡ lt
cmp_bool_trans false b true p q = refl
cmp_bool_trans false false false p q = cc
cmp_bool_trans false true false p q = cc
cmp_bool_trans true false c p q = cc
cmp_bool_trans true true c p q = cc

eq_of_cmp_key :
    (x : Bytes) (a : Bool) (y : Bytes) (b : Bool) → cmp_key x a y b ≡ eq → (x ≡ y) × (a ≡ b)
eq_of_cmp_key x a y b h = ground (arith, eq_of_cmp_bytes x y, eq_of_cmp_bool a b)

module _ (pick : Bytes → Bool → Bool) where
  -- The sum of a measure over the events, and over the groups, whose key is picked.
  abbrev pub of_events : (TokenRow → ℕ) → List TokenRow → ℕ
  of_events f = sum_of (λ e. if pick e.tokenizer e.exact then f e else 0)

  abbrev pub of_groups : (Group → ℕ) → List Group → ℕ
  of_groups f = sum_of (λ g. if pick g.tokenizer g.exact then f g else 0)

  abbrev pub of_savings : (TokenSavings → ℕ) → List TokenSavings → ℕ
  of_savings f = sum_of (λ s. if pick s.tokenizer s.exact then f s else 0)

  of_groups-add_event :
      (e : TokenRow) (gs : List Group)
      → let once : ℕ → ℕ = λ n. if pick e.tokenizer e.exact then n else 0 in
        (of_groups Group.raw (add_event e gs) ≡ once e.raw_tokens + of_groups Group.raw gs)
        × (of_groups Group.optimized (add_event e gs)
            ≡ once e.optimized_tokens + of_groups Group.optimized gs)
        × (of_groups Group.count (add_event e gs) ≡ once 1 + of_groups Group.count gs)
  unfolding add_event
  of_groups-add_event e [] = ground arith
  of_groups-add_event e (g ∷ gs) =
      ground
        (arith, of_groups-add_event e gs, eq_of_cmp_key e.tokenizer e.exact g.tokenizer g.exact)

  of_groups-groups :
      (es : List TokenRow)
      → (of_groups Group.raw (groups es) ≡ of_events TokenRow.raw_tokens es)
        × (of_groups Group.optimized (groups es) ≡ of_events TokenRow.optimized_tokens es)
        × (of_groups Group.count (groups es) ≡ of_events (λ e. 1) es)
  unfolding groups
  of_groups-groups [] = (refl, refl, refl)
  of_groups-groups (e ∷ es) = omega (arith, of_groups-groups es, of_groups-add_event e (groups es))

cmp_key_flip :
    (x : Bytes) (a : Bool) (y : Bytes) (b : Bool) → cmp_key x a y b ≡ gt → cmp_key y b x a ≡ lt
cmp_key_flip x a y b h = ground (arith, cmp_bytes-IsOrder.flip x y, cmp_bool_flip a b)

cmp_key_trans :
    (x : Bytes) (a : Bool) (y : Bytes) (b : Bool) (z : Bytes) (c : Bool)
    → cmp_key x a y b ≡ lt
    → cmp_key y b z c ≡ lt
    → cmp_key x a z c ≡ lt
cmp_key_trans x a y b z c p q = ground (
  arith,
  cmp_bytes-IsOrder.lt_trans x y z,
  cmp_bytes-IsOrder.eq_lt x y z,
  cmp_bytes-IsOrder.lt_eq x y z,
  cmp_bytes-IsOrder.eq_trans x y z,
  cmp_bool_trans a b c,
)

-- The key of a group comes before that of another.
abbrev Before : Bytes → Bool → Group → Type 0
Before tokenizer exact g = cmp_key tokenizer exact g.tokenizer g.exact ≡ lt

-- The keys ascend strictly: no two groups have the same.
abbrev IsGrouped : List Group → Type 0
IsGrouped [] = Unit
IsGrouped (g ∷ gs) = All (Before g.tokenizer g.exact) gs × IsGrouped gs

Before-trans :
    (x : Bytes) (a : Bool) (y : Bytes) (b : Bool) (gs : List Group)
    → cmp_key x a y b ≡ lt
    → All (Before y b) gs
    → All (Before x a) gs
Before-trans x a y b [] p h = tt
Before-trans x a y b (g ∷ gs) p (q, h) =
    (cmp_key_trans x a y b g.tokenizer g.exact p q, Before-trans x a y b gs p h)

Before-add_event :
    (x : Bytes) (a : Bool) (e : TokenRow) (gs : List Group)
    → cmp_key x a e.tokenizer e.exact ≡ lt
    → All (Before x a) gs
    → All (Before x a) (add_event e gs)
unfolding add_event
Before-add_event x a e [] p h = (p, tt)
Before-add_event x a e (g ∷ gs) p (q, h) = ground (arith, Before-add_event x a e gs p h)

add_event-IsGrouped : (e : TokenRow) (gs : List Group) → IsGrouped gs → IsGrouped (add_event e gs)
unfolding add_event
add_event-IsGrouped e [] s = (tt, tt)
add_event-IsGrouped e (g ∷ gs) (low, s) = ground (
  arith,
  cmp_key_flip e.tokenizer e.exact g.tokenizer g.exact,
  Before-trans e.tokenizer e.exact g.tokenizer g.exact gs,
  Before-add_event g.tokenizer g.exact e gs,
  add_event-IsGrouped e gs s,
)

groups-IsGrouped : (es : List TokenRow) → IsGrouped (groups es)
unfolding groups
groups-IsGrouped [] = tt
groups-IsGrouped (e ∷ es) = add_event-IsGrouped e (groups es) (groups-IsGrouped es)

-- No two of the answers have the same tokenizer and exactness.
abbrev pub AreDistinct : List TokenSavings → Type 0
AreDistinct [] = Unit
AreDistinct (s ∷ savings) =
    All (λ r. cmp_key s.tokenizer s.exact r.tokenizer r.exact ≡ lt) savings × AreDistinct savings

abbrev saved : Group → TokenSavings
saved g = record {
  tokenizer = g.tokenizer;
  exact = g.exact;
  raw_tokens = g.raw;
  optimized_tokens = g.optimized;
  savings_tokens = difference g.raw g.optimized;
  event_count = g.count;
}

module _ {E P : Type 0} (overflow : E) where
  read_group-eq-ok :
      (g : Group) (s : TokenSavings) → read_group {E = E} {P = P} overflow g ≡ ok s → saved g ≡ s
  unfolding read_group
  read_group-eq-ok g s h = elim (Bool-cases (ltb g.raw (2 ^ 63) && ltb g.optimized (2 ^ 63))) [
    | inl e ↦ ok_injective (saved g) s (rw e at h)
    | inr e ↦ let refused = (rw e at h) in cc
  ]

  read_groups-eq-ok :
      (gs : List Group) (savings : List TokenSavings)
      → read_groups {E = E} {P = P} overflow gs ≡ ok savings
      → map saved gs ≡ savings
  unfolding read_groups
  read_groups-eq-ok [] savings h = ok_injective [] savings h
  read_groups-eq-ok (g ∷ gs) savings h =
      let (s, first, later) =
        >>=-eq-ok (read_group {E = E} {P = P} overflow g)
          (λ s. read_groups overflow gs >>= (λ rest. ok (s ∷ rest))) h in
      let (rest, more, last) =
        >>=-eq-ok (read_groups {E = E} {P = P} overflow gs) (λ rest. ok (s ∷ rest)) later in
      rw (read_group-eq-ok g s first, read_groups-eq-ok gs rest more)
        (ok_injective (s ∷ rest) savings last)

map-saved-AreDistinct : (gs : List Group) → IsGrouped gs → AreDistinct (map saved gs)
map-saved-AreDistinct [] s = tt
map-saved-AreDistinct (g ∷ gs) (low, s) = (
  All-map (Before g.tokenizer g.exact) (λ r. cmp_key g.tokenizer g.exact r.tokenizer r.exact ≡ lt)
      saved (λ h b. b) gs low,
  map-saved-AreDistinct gs s,
)

module _ (pick : Bytes → Bool → Bool) where
  of_savings-map-saved :
      (gs : List Group)
      → (of_savings pick TokenSavings.raw_tokens (map saved gs) ≡ of_groups pick Group.raw gs)
        × (of_savings pick TokenSavings.optimized_tokens (map saved gs)
            ≡ of_groups pick Group.optimized gs)
        × (of_savings pick TokenSavings.event_count (map saved gs) ≡ of_groups pick Group.count gs)
  of_savings-map-saved [] = (refl, refl, refl)
  of_savings-map-saved (g ∷ gs) = omega (arith, of_savings-map-saved gs)

  -- Where `token_savings` answers, no two of its entries have the same tokenizer and exactness, and
  -- for any choice of these the entries' raw tokens, optimized tokens and counts add up to those of
  -- the events with such a tokenizer and exactness.
  pub token_savings-eq-ok :
      {E P : Type 0} (checkout : Option P) (fault : Option E) (overflow : E) (t : Tables)
      (savings : List TokenSavings)
      → token_savings checkout fault overflow t ≡ ok savings
      → AreDistinct savings
        × (of_savings pick TokenSavings.raw_tokens savings
            ≡ of_events pick TokenRow.raw_tokens t.token_events)
        × (of_savings pick TokenSavings.optimized_tokens savings
            ≡ of_events pick TokenRow.optimized_tokens t.token_events)
        × (of_savings pick TokenSavings.event_count savings
            ≡ of_events pick (λ e. 1) t.token_events)
  unfolding token_savings
  token_savings-eq-ok (some e) fault overflow t savings h = cc
  token_savings-eq-ok none (some e) overflow t savings h = cc
  token_savings-eq-ok {E = E} {P = P} none none overflow t savings h =
      let same = read_groups-eq-ok {E = E} {P = P} overflow (groups t.token_events) savings h in
      let sums = of_groups-groups pick t.token_events in
      let parts = of_savings-map-saved (groups t.token_events) in
      rw (← same) (
        map-saved-AreDistinct (groups t.token_events) (groups-IsGrouped t.token_events),
        parts.0 ∙ sums.0,
        parts.1 ∙ sums.1,
        parts.2 ∙ sums.2,
      )
