-- ===== src/Daemon/Service/Threads.antt =====
-- The threads that run `dispatch` at the same time: a step is what one of them does between two locks, or what a
-- connection or a timer does to the graph.
use token_shrinker.Prelude.{
  ℕ, zero, suc, ◌≡◌, true, false, Option, some, List, [], ◌∷◌, ◌++◌, get_elem?, ok, err,
}
use token_shrinker.Prelude.Bytes.{Bytes}
use token_shrinker.Prelude.Integers.{ℤ}
use token_shrinker.Daemon.Service.{
  ServiceError, Token, ServiceGraph, enter, leave, register_token, arm_deadline, unregister, raise,
  cancel, begin_shutdown,
}

-- Where a thread stands in `dispatch`: before the gate, with a permit, with a token in the map, in the handler,
-- back from it, and at the end, where the permit is dropped.
pub data Phase : Type 0 where
  waiting admitted done : Phase
  registered running returned : Token → Phase
  dropping : Phase

pub record Thread : Type 0 where
  pub id : Bytes
  pub deadline : Option ℤ
  pub phase : Phase

pub record System : Type 0 where
  pub graph : ServiceGraph
  pub threads : List Thread

-- A write out of bounds changes nothing.
abbrev pub set {ℓ} : {A : Type ℓ} → List A → ℕ → A → List A
set [] i v = []
set (x ∷ xs) zero v = v ∷ xs
set (x ∷ xs) (suc i) v = x ∷ set xs i v

abbrev pub moved : System → ServiceGraph → ℕ → Thread → Phase → System
moved s g i t phase = record s { graph = g; threads = set s.threads i (record t { phase = phase }) }

abbrev pub At : System → ℕ → Thread → Phase → Type 0
At s i t phase = (get_elem? s.threads i ≡ some t) × (t.phase ≡ phase)

pub data Step (J : Type 0) : System → System → Type 0 where
  -- A request arrives, and its thread starts.
  arrive :
      {s : System} (id : Bytes) (deadline : Option ℤ)
      → Step J s (record s {
        threads = s.threads ++ (record { id = id; deadline = deadline; phase = waiting } ∷ []);
      })
  -- The gate lets the thread in, or refuses it.
  pass :
      {s : System} (i : ℕ) (t : Thread) (g : ServiceGraph)
      → At s i t waiting
      → enter {J = J} s.graph ≡ some (ok g)
      → Step J s (moved s g i t admitted)
  refuse :
      {s : System} (i : ℕ) (t : Thread) (e : ServiceError J)
      → At s i t waiting
      → enter s.graph ≡ some (err e)
      → Step J s (moved s s.graph i t done)
  -- The token is inserted; the request is a duplicate or not.
  insert :
      {s : System} (i : ℕ) (t : Thread)
      → At s i t admitted
      → (register_token s.graph t.id).1 ≡ false
      → Step J s (moved s (register_token s.graph t.id).0 i t (registered s.graph.made))
  insert_duplicate :
      {s : System} (i : ℕ) (t : Thread)
      → At s i t admitted
      → (register_token s.graph t.id).1 ≡ true
      → Step J s (moved s (register_token s.graph t.id).0 i t dropping)
  -- The deadline is armed, or the clock fails and the request with it.
  start :
      {s : System} (i : ℕ) (t : Thread) (token : Token) (clock : Option ℤ) (g : ServiceGraph)
      → At s i t (registered token)
      → arm_deadline {J = J} s.graph token t.deadline clock ≡ ok g
      → Step J s (moved s g i t (running token))
  clock_fails :
      {s : System} (i : ℕ) (t : Thread) (token : Token) (clock : Option ℤ) (e : ServiceError J)
      → At s i t (registered token)
      → arm_deadline s.graph token t.deadline clock ≡ err e
      → Step J s (moved s s.graph i t dropping)
  -- The handler returns, the identifier is removed, and the permit dropped.
  return :
      {s : System} (i : ℕ) (t : Thread) (token : Token)
      → At s i t (running token)
      → Step J s (moved s s.graph i t (returned token))
  remove :
      {s : System} (i : ℕ) (t : Thread) (token : Token)
      → At s i t (returned token)
      → Step J s (moved s (unregister s.graph t.id) i t dropping)
  drop :
      {s : System} (i : ℕ) (t : Thread)
      → At s i t dropping
      → Step J s (moved s (leave s.graph) i t done)
  -- A timer runs out, a connection cancels a request, or the service shuts down.
  expire : {s : System} (token : Token) → Step J s (record s { graph = raise s.graph token })
  cancelled : {s : System} (id : Bytes) → Step J s (record s { graph = (cancel s.graph id).0 })
  shutdown : {s : System} → Step J s (record s { graph = begin_shutdown s.graph })

pub data Reach (J : Type 0) (s : System) : System → Type 0 where
  here : Reach J s s
  next : {t u : System} → Reach J s t → Step J t u → Reach J s u
