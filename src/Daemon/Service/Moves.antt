-- ===== src/Daemon/Service/Moves.antt =====
-- What a step of one thread does to the counts: the permits of the gate, and the entries of the map.
use token_shrinker.Prelude.{
  ℕ, zero, suc, ◌+◌, ◌≡◌, ◌≢◌, refl, sym, ap, ◌∙◌, ◌≤◌, ◌<◌, true, false, Option, none, some, List,
  [], ◌∷◌, get_elem?, sum_of, leb, if◌then◌else◌, u64_max, add64, ok, ok_injective, arith,
  Bool-cases, inl, inr,
}
use token_shrinker.Prelude.Bytes.{Bytes, eq_bytes, eq_bytes_iff}
use token_shrinker.Prelude.Integers.{ℤ, leb_int}
use token_shrinker.Daemon.Service.{
  Token, ServiceGraph, enter, leave, register_token, arm_deadline, unregister, is_some,
}
use token_shrinker.Daemon.Service.Threads.{
  Phase, waiting, admitted, done, registered, running, returned, dropping, Thread, System, set,
  moved, At,
}

-- A thread from the gate to the end has a permit.
abbrev pub has_permit : Phase → ℕ
has_permit waiting = 0
has_permit done = 0
has_permit admitted = 1
has_permit dropping = 1
has_permit (registered token) = 1
has_permit (running token) = 1
has_permit (returned token) = 1

-- A thread from the insertion to the removal has its identifier in the map.
abbrev pub has_entry : Phase → ℕ
has_entry (registered token) = 1
has_entry (running token) = 1
has_entry (returned token) = 1
has_entry waiting = 0
has_entry done = 0
has_entry admitted = 0
has_entry dropping = 0

abbrev pub permits : Thread → ℕ
permits t = has_permit t.phase

abbrev pub owns : Bytes → Thread → ℕ
owns id t = if eq_bytes t.id id then has_entry t.phase else 0

abbrev pub present : ServiceGraph → Bytes → ℕ
present g id = if is_some (g.cancellations id) then 1 else 0

sum_of-set :
    {A : Type 0} (f : A → ℕ) (xs : List A) (i : ℕ) (old new : A)
    → get_elem? xs i ≡ some old
    → sum_of f (set xs i new) + f old ≡ sum_of f xs + f new
sum_of-set f [] i old new h = cc
sum_of-set f (x ∷ xs) zero old new h = ground arith
sum_of-set f (x ∷ xs) (suc i) old new h = omega (arith, sum_of-set f xs i old new h)

sum_of-one_le :
    {A : Type 0} (f : A → ℕ) (xs : List A) (i : ℕ) (x : A)
    → get_elem? xs i ≡ some x
    → f x ≤ sum_of f xs
sum_of-one_le f [] i x h = cc
sum_of-one_le f (y ∷ ys) zero x h = ground arith
sum_of-one_le f (y ∷ ys) (suc i) x h = omega (arith, sum_of-one_le f ys i x h)

pub sum_of-two_le :
    {A : Type 0} (f : A → ℕ) (xs : List A) (i j : ℕ) (x y : A)
    → get_elem? xs i ≡ some x
    → get_elem? xs j ≡ some y
    → i ≢ j
    → f x + f y ≤ sum_of f xs
sum_of-two_le f [] i j x y h k n = cc
sum_of-two_le f (z ∷ zs) zero zero x y h k n = absurd (n refl)
sum_of-two_le f (z ∷ zs) zero (suc j) x y h k n = ground (arith, sum_of-one_le f zs j y k)
sum_of-two_le f (z ∷ zs) (suc i) zero x y h k n = ground (arith, sum_of-one_le f zs i x h)
sum_of-two_le f (z ∷ zs) (suc i) (suc j) x y h k n =
    omega (arith, sum_of-two_le f zs i j x y h k (λ e. n (ap suc e)))

eq_bytes-false_flip : (x y : Bytes) → eq_bytes x y ≡ false → eq_bytes y x ≡ false
eq_bytes-false_flip x y h = elim (Bool-cases (eq_bytes y x)) [
  | inl e ↦
      let same = (eq_bytes_iff x y).1 (sym ((eq_bytes_iff y x).0 e)) in
      absurd (true_ne_false (sym same ∙ h))
  | inr e ↦ e
]
  where
    true_ne_false : true ≢ false
    true_ne_false e = cc

pub present_le : (g : ServiceGraph) (id : Bytes) → present g id ≤ 1
present_le g id = elim (Bool-cases (is_some (g.cancellations id))) [
  | inl e ↦ rw e (omega arith)
  | inr e ↦ rw e (omega arith)
]

-- An insertion leaves the gate alone.
insert_same :
    (s : System) (t : Thread)
    → ((register_token s.graph t.id).0.maximum ≡ s.graph.maximum)
      × ((register_token s.graph t.id).0.active ≡ s.graph.active)
unfolding register_token
insert_same s t = (refl, refl)

module _ (J : Type 0) (maximum : ℕ) (fits : maximum ≤ u64_max) where
  pub record IsSafe (s : System) : Type 0 where
    pub configured : s.graph.maximum ≡ maximum
    pub counted : s.graph.active ≡ sum_of permits s.threads
    pub within : s.graph.active ≤ maximum
    pub owned : (id : Bytes) → sum_of (owns id) s.threads ≤ present s.graph id

  -- What a step of one thread must respect: the permits are counted, and the entries are in the map.
  pub record Moves (s : System) (g : ServiceGraph) (t : Thread) (phase : Phase) : Type 0 where
    same_maximum : g.maximum ≡ s.graph.maximum
    counts : g.active + has_permit t.phase ≡ s.graph.active + has_permit phase
    bounded : g.active ≤ maximum
    enters :
        (id : Bytes)
        → owns id (record t { phase = phase }) + present s.graph id ≤ owns id t + present g id

  pub moved-IsSafe :
      (s : System) (g : ServiceGraph) (i : ℕ) (t : Thread) (phase : Phase)
      → get_elem? s.threads i ≡ some t
      → Moves s g t phase
      → IsSafe s
      → IsSafe (moved s g i t phase)
  moved-IsSafe s g i t phase at m k =
      let new : Thread = record t { phase = phase } in
      record {
        configured = m.same_maximum ∙ k.configured;
        counted = omega (arith, m.counts, k.counted, sum_of-set permits s.threads i t new at);
        within = m.bounded;
        owned =
            λ id. omega (arith, m.enters id, k.owned id, sum_of-set (owns id) s.threads i t new at);
      }

  -- A graph with the same counters and the same map.
  pub graph-IsSafe :
      (s : System) (g : ServiceGraph)
      → g.maximum ≡ s.graph.maximum
      → g.active ≡ s.graph.active
      → g.cancellations ≡ s.graph.cancellations
      → IsSafe s
      → IsSafe (record s { graph = g })
  graph-IsSafe s g m a c k = record {
    configured = m ∙ k.configured;
    counted = a ∙ k.counted;
    within = rw a (k.within);
    owned = λ id. rw c (k.owned id);
  }

  -- A thread that keeps its entry, or gives it up without the map.
  pub calm :
      (s : System) (g : ServiceGraph) (t : Thread) (old new : Phase)
      → t.phase ≡ old
      → IsSafe s
      → g.maximum ≡ s.graph.maximum
      → g.active + has_permit old ≡ s.graph.active + has_permit new
      → g.active ≤ maximum
      → g.cancellations ≡ s.graph.cancellations
      → has_entry new ≤ has_entry old
      → Moves s g t new
  calm s g t old new p k m a b c e = record {
    same_maximum = m;
    counts = rw p a;
    bounded = b;
    enters = λ id. rw (c, p) (entries id);
  }
    where
      entries :
          (id : Bytes)
          → (if eq_bytes t.id id then has_entry new else 0) + present s.graph id
            ≤ (if eq_bytes t.id id then has_entry old else 0) + present s.graph id
      entries id = elim (Bool-cases (eq_bytes t.id id)) [
        | inl q ↦ rw q (omega arith)
        | inr q ↦ rw q (omega arith)
      ]

  enter-eq-ok :
      (g h : ServiceGraph)
      → enter {J = J} g ≡ some (ok h)
      → (h ≡ record g { active = add64 g.active 1 }) × (g.active < g.maximum)
  unfolding enter
  enter-eq-ok g h e = elim (Bool-cases g.shutting_down_flag) [
    | inl f ↦ let never = rw f at e in cc
    | inr f ↦ elim (Bool-cases (leb g.maximum g.active)) [
      | inl l ↦ let never = rw (f, l) at e in cc
      | inr l ↦ let found = rw (f, l) at e in (cc, ground (arith, l))
    ]
  ]

  pub pass-Moves :
      (s : System) (t : Thread) (g : ServiceGraph)
      → t.phase ≡ waiting
      → enter {J = J} s.graph ≡ some (ok g)
      → IsSafe s
      → Moves s g t admitted
  pass-Moves s t g p e k =
      let (found, below) = enter-eq-ok s.graph g e in
      let exact : add64 s.graph.active 1 ≡ s.graph.active + 1 = omega (arith, k.configured) in
      rw found (
        calm s _ t waiting admitted p k refl (omega (arith, exact))
          (omega (arith, exact, k.configured)) refl (omega arith))

  -- The map after an insertion: the identifier is present, and the others are as before.
  insert-enters :
      (s : System) (t : Thread) (new : Phase)
      → IsSafe s
      → t.phase ≡ admitted
      → has_entry new + present s.graph t.id ≤ 1
      → (id : Bytes)
      → owns id (record t { phase = new }) + present s.graph id
        ≤ owns id t + present (register_token s.graph t.id).0 id
  unfolding register_token
  insert-enters s t new k p b id = elim (Bool-cases (eq_bytes t.id id)) [
    | inl q ↦
        let same = (eq_bytes_iff t.id id).0 q in
        let back : eq_bytes id t.id ≡ true = (eq_bytes_iff id t.id).1 (sym same) in
        let bound = rw same at b in rw (q, back, p) (omega (arith, bound))
    | inr q ↦
        let back : eq_bytes id t.id ≡ false = eq_bytes-false_flip t.id id q in
        rw (q, back) (omega arith)
  ]

  pub insert-Moves :
      (s : System) (t : Thread) (new : Phase)
      → IsSafe s
      → t.phase ≡ admitted
      → has_permit new ≡ 1
      → has_entry new + present s.graph t.id ≤ 1
      → Moves s (register_token s.graph t.id).0 t new
  insert-Moves s t new k p one b = record {
    same_maximum = (insert_same s t).0;
    counts = rw (p, one) (omega (arith, (insert_same s t).1));
    bounded = omega (arith, (insert_same s t).1, k.within);
    enters = insert-enters s t new k p b;
  }

  pub remove-Moves :
      (s : System) (t : Thread) (token : Token)
      → IsSafe s
      → t.phase ≡ returned token
      → Moves s (unregister s.graph t.id) t dropping
  unfolding unregister
  remove-Moves s t token k p = record {
    same_maximum = refl;
    counts = rw p (omega arith);
    bounded = k.within;
    enters = λ id. elim (Bool-cases (eq_bytes t.id id)) [
      | inl q ↦
          let back : eq_bytes id t.id ≡ true =
            (eq_bytes_iff id t.id).1 (sym ((eq_bytes_iff t.id id).0 q)) in
          rw (q, back, p) (omega (arith, present_le s.graph id))
      | inr q ↦
          let back : eq_bytes id t.id ≡ false = eq_bytes-false_flip t.id id q in
          rw (q, back) (omega arith)
    ];
  }

  pub arm_deadline-same :
      (g h : ServiceGraph) (token : Token) (deadline clock : Option ℤ)
      → arm_deadline {J = J} g token deadline clock ≡ ok h
      → (h.maximum ≡ g.maximum) × (h.active ≡ g.active) × (h.cancellations ≡ g.cancellations)
  unfolding arm_deadline
  arm_deadline-same g h token none clock e = let same : g ≡ h = cc in rw (← same) (refl, refl, refl)
  arm_deadline-same g h token (some d) none e = cc
  arm_deadline-same g h token (some d) (some now) e = elim (Bool-cases (leb_int d now)) [
    | inl l ↦ let same = ok_injective _ h (rw l at e) in rw (← same) (refl, refl, refl)
    | inr l ↦ let same = ok_injective _ h (rw l at e) in rw (← same) (refl, refl, refl)
  ]

  pub leave-Moves :
      (s : System) (i : ℕ) (t : Thread)
      → At s i t dropping
      → IsSafe s
      → Moves s (leave s.graph) t done
  unfolding leave
  leave-Moves s i t (at, p) k =
      let held : permits t ≡ 1 = rw p refl in
      let some_held = sum_of-one_le permits s.threads i t at in
      calm s (leave s.graph) t dropping done p k refl (omega (arith, some_held, held, k.counted))
        (omega (arith, k.within)) refl (omega arith)
