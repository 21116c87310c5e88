-- ===== src/Daemon/Service/Safety.antt =====
-- What holds in every reachable state: the gate counts the permits, and no two handlers serve one
-- identifier.
use token_shrinker.Prelude.{
  ℕ, ◌+◌, ◌≡◌, ◌≢◌, refl, ◌≤◌, ◌<◌, true, false, Option, none, some, [], ◌∷◌, ◌++◌, sum_of,
  sum_of-append, ◌==◌, ==_iff, u64_max, ok, ok_injective, arith, Bool-cases, inl, inr,
}
use token_shrinker.Prelude.Bytes.{Bytes, eq_bytes, eq_bytes_iff}
use token_shrinker.Daemon.Service.{
  Token, ServiceGraph, new_graph, register_token, raise_found, cancel, begin_shutdown,
}
use token_shrinker.Daemon.Service.Threads.{
  Phase, waiting, done, registered, running, returned, dropping, Thread, System, moved, At, Step,
  arrive, pass, refuse, insert, insert_duplicate, start, clock_fails, return, remove, drop, expire,
  cancelled, shutdown, Reach, here, next,
}
use token_shrinker.Daemon.Service.Moves.{
  has_permit, has_entry, permits, owns, present, sum_of-two_le, IsSafe, Moves, moved-IsSafe,
  graph-IsSafe, calm, pass-Moves, insert-Moves, remove-Moves, leave-Moves, arm_deadline-same,
  present_le,
}

was_absent :
    (s : System) (t : Thread) → (register_token s.graph t.id).1 ≡ false → present s.graph t.id ≡ 0
unfolding register_token
was_absent s t h = rw h refl

module _ (J : Type 0) (maximum : ℕ) (fits : maximum ≤ u64_max) where
  raise_found-IsSafe :
      (s : System) (o : Option Token)
      → IsSafe J maximum fits s
      → IsSafe J maximum fits (record s { graph = (raise_found s.graph o).0 })
  raise_found-IsSafe s none k = k
  raise_found-IsSafe s (some token) k = graph-IsSafe J maximum fits s _ refl refl refl k

  arrive-IsSafe :
      (s : System) (new : Thread)
      → new.phase ≡ waiting
      → IsSafe J maximum fits s
      → IsSafe J maximum fits (record s { threads = s.threads ++ (new ∷ []) })
  arrive-IsSafe s new w k = record {
    configured = k.configured;
    counted =
        let none_held : permits new ≡ 0 = rw w refl in
        omega (arith, k.counted, none_held, sum_of-append {0} permits s.threads (new ∷ []));
    within = k.within;
    owned = λ id.
        let none_owned : owns id new ≡ 0 = owns_waiting id in
        omega (arith, k.owned id, none_owned, sum_of-append {0} (owns id) s.threads (new ∷ []));
  }
    where
      owns_waiting : (id : Bytes) → owns id new ≡ 0
      owns_waiting id = elim (Bool-cases (eq_bytes new.id id)) [
        | inl e ↦ rw (e, w) refl
        | inr e ↦ rw e refl
      ]

  move :
      (s : System) (g : ServiceGraph) (i : ℕ) (t : Thread) (old new : Phase)
      → At s i t old
      → Moves J maximum fits s g t new
      → IsSafe J maximum fits s
      → IsSafe J maximum fits (moved s g i t new)
  move s g i t old new at m k = moved-IsSafe J maximum fits s g i t new at.0 m k

  -- A thread that moves on while the graph stays.
  stay :
      (s : System) (t : Thread) (old new : Phase)
      → t.phase ≡ old
      → IsSafe J maximum fits s
      → has_permit old ≡ has_permit new
      → has_entry new ≤ has_entry old
      → Moves J maximum fits s s.graph t new
  stay s t old new p k a e =
      calm J maximum fits s s.graph t old new p k refl (omega (arith, a)) k.within refl e

  cancel-IsSafe :
      (s : System) (id : Bytes)
      → IsSafe J maximum fits s
      → IsSafe J maximum fits (record s { graph = (cancel s.graph id).0 })
  unfolding cancel
  cancel-IsSafe s id k = raise_found-IsSafe s (s.graph.cancellations id) k

  shutdown-IsSafe :
      (s : System)
      → IsSafe J maximum fits s
      → IsSafe J maximum fits (record s { graph = begin_shutdown s.graph })
  unfolding begin_shutdown
  shutdown-IsSafe s k = graph-IsSafe J maximum fits s _ refl refl refl k

  Step-IsSafe : {s u : System} → Step J s u → IsSafe J maximum fits s → IsSafe J maximum fits u
  Step-IsSafe {s} (arrive id deadline) k = arrive-IsSafe s _ refl k
  Step-IsSafe {s} (pass i t g at e) k =
      move s _ i t _ _ at (pass-Moves J maximum fits s t g at.1 e k) k
  Step-IsSafe {s} (refuse i t e at h) k =
      move s _ i t _ _ at (stay s t waiting done at.1 k refl (omega arith)) k
  Step-IsSafe {s} (insert i t at h) k =
      move s _ i t _ _ at
        (insert-Moves J maximum fits s t (registered s.graph.made) k at.1 refl (absent s t h)) k
    where
      absent :
          (s : System) (t : Thread)
          → (register_token s.graph t.id).1 ≡ false
          → 1 + present s.graph t.id ≤ 1
      absent s t h = omega (arith, was_absent s t h)
  Step-IsSafe {s} (insert_duplicate i t at h) k =
      move s _ i t _ _ at (insert-Moves J maximum fits s t dropping k at.1 refl (present_one s t)) k
    where
      present_one : (s : System) (t : Thread) → 0 + present s.graph t.id ≤ 1
      present_one s t = omega (arith, present_le s.graph t.id)
  Step-IsSafe {s} (start i t token clock g at e) k =
      let (m, a, c) = arm_deadline-same J maximum fits s.graph g token t.deadline clock e in
      move s _ i t _ _ at
        (calm J maximum fits s g t (registered token) (running token) at.1 k m (omega (arith, a))
          (omega (arith, a, k.within)) c (omega arith))
        k
  Step-IsSafe {s} (clock_fails i t token clock e at h) k =
      move s _ i t _ _ at (stay s t (registered token) dropping at.1 k refl (omega arith)) k
  Step-IsSafe {s} (return i t token at) k =
      move s _ i t _ _ at (stay s t (running token) (returned token) at.1 k refl (omega arith)) k
  Step-IsSafe {s} (remove i t token at) k =
      move s _ i t _ _ at (remove-Moves J maximum fits s t token k at.1) k
  Step-IsSafe {s} (drop i t at) k = move s _ i t _ _ at (leave-Moves J maximum fits s i t at k) k
  Step-IsSafe {s} (expire token) k = graph-IsSafe J maximum fits s _ refl refl refl k
  Step-IsSafe {s} (cancelled id) k = cancel-IsSafe s id k
  Step-IsSafe {s} shutdown k = shutdown-IsSafe s k

  Reach-IsSafe : {s u : System} → Reach J s u → IsSafe J maximum fits s → IsSafe J maximum fits u
  Reach-IsSafe here k = k
  Reach-IsSafe (next r st) k = Step-IsSafe st (Reach-IsSafe r k)

  -- The handler of the thread runs for the identifier.
  pub record Handles (s : System) (i : ℕ) (id : Bytes) : Type 0 where
    pub thread : Thread
    pub token : Token
    pub at : At s i thread (running token)
    pub serves : thread.id ≡ id

  -- What the service promises of its threads.
  pub record ServesWell (s : System) : Type 0 where
    pub counted : s.graph.active ≡ sum_of permits s.threads
    pub within : s.graph.active ≤ maximum
    pub one_handler : (i j : ℕ) (id : Bytes) → Handles s i id → Handles s j id → i ≡ j

  Handles-owns : (s : System) (i : ℕ) (id : Bytes) (h : Handles s i id) → owns id h.thread ≡ 1
  Handles-owns s i id h = rw (h.at.1, (eq_bytes_iff h.thread.id id).1 h.serves) refl

  -- In every state that the threads of the daemon can reach from a new service graph, by whatever interleaving of
  -- arrivals, admissions, insertions, deadlines, returns, cancellations and a shutdown, the gate
  -- counts the threads that hold a permit, which are never more than its maximum, and no two
  -- handlers run for the same request identifier.
  pub Reach-ServesWell :
      (g : ServiceGraph) (s : System)
      → new_graph {J = J} maximum ≡ ok g
      → Reach J (record { graph = g; threads = [] }) s
      → ServesWell s
  unfolding new_graph
  Reach-ServesWell g s n r =
      let k = Reach-IsSafe r (new-IsSafe g n) in
      record {
        counted = k.counted;
        within = k.within;
        one_handler = λ i j id h l. elim (Bool-cases (i == j)) [
          | inl e ↦ (==_iff i j).0 e
          | inr e ↦ absurd (
              omega (
                arith,
                sum_of-two_le (owns id) s.threads i j h.thread l.thread h.at.0 l.at.0
                    (λ same. differ i j e same),
                Handles-owns s i id h,
                Handles-owns s j id l,
                k.owned id,
                present_le s.graph id,
              ))
        ];
      }
    where
      differ : (i j : ℕ) → (i == j) ≡ false → i ≢ j
      differ i j e same = ground (arith, e, same)

      new-IsSafe :
          (g : ServiceGraph)
          → new_graph {J = J} maximum ≡ ok g
          → IsSafe J maximum fits (record { graph = g; threads = [] })
      new-IsSafe g n = elim (Bool-cases (maximum == 0)) [
        | inl z ↦ let never = rw z at n in cc
        | inr z ↦
            let same = ok_injective _ g (rw z at n) in
            rw (← same) (record {
              configured = refl;
              counted = refl;
              within = omega arith;
              owned = λ id. omega arith;
            })
      ]

-- A request whose identifier is in use is refused, but its token has replaced the one of the request that runs:
-- a cancellation of that identifier then reports success and does not raise the flag of the
-- running handler, which has a token that was made before.
pub insert_duplicate-cancel :
    (g : ServiceGraph) (id : Bytes) (token : Token)
    → g.cancellations id ≡ some token
    → token < g.made
    → ((register_token g id).1 ≡ true)
      × ((cancel (register_token g id).0 id).1 ≡ true)
      × ((cancel (register_token g id).0 id).0.raised token ≡ g.raised token)
unfolding register_token cancel
insert_duplicate-cancel g id token h b =
    let self : eq_bytes id id ≡ true = (eq_bytes_iff id id).1 refl in
    let old : (token == g.made) ≡ false = ground (arith, b) in
    (rw h refl, rw self refl, rw self (rw old refl))
