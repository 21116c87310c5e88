-- ===== src/Exec/Engine/Laws.antt =====
-- crates/ts-exec/src/lib.rs: `ExecutionEngine::execute`, with what the operating system does.
use mathlib.Core.Option.{some-injective}
use token_shrinker.Prelude.{
  ℕ, ◌+◌, ◌*◌, ◌≡◌, refl, ap, ◌∙◌, ◌≤◌, ◌||◌, not, true, Option, none, some, ◌∷◌, ◌==◌, arith,
  Bool-cases, inl, inr, length, Result, ok, err, map_err, map_err-eq-ok,
}
use token_shrinker.Prelude.Unicode.{Unicode}
use token_shrinker.Exec.Capture.{CapturedStream, read_bounded}
use token_shrinker.Exec.Capture.Chunks.{read_bounded_fits}
use token_shrinker.Exec.Wait.{TerminationReason, poll_interval}
use token_shrinker.Exec.Wait.Laws.{IsFirst, AllReap, wait_for_exit_ends}
use token_shrinker.Exec.Policy.{
  System, ExecutionError, spawn, missing_pipe, zero_limit, wait, capture, ExecutionRequest,
  ExecutionPolicy, AdmittedExecution, admit,
}
use token_shrinker.Exec.Policy.Laws.{IsAllowed, admit-IsAllowed}
use token_shrinker.Exec.Engine.{
  ExecutionResult, Pipe, Child, Launcher, captured, join_capture, collected, run_child,
  run_admitted, execute,
}

-- A reader that ends gives a result or an error.
captured_total :
    {I : Type 0} (o : Option (Result CapturedStream I))
    → (r : Result CapturedStream (ExecutionError I)) × (captured true o ≡ some r)
captured_total none = (_, refl)
captured_total (some result) = (map_err capture result, refl)

module _ {S I : Type 0} (unicode : Unicode) (system : System I) (launcher : Launcher S I)
    (policy : ExecutionPolicy) (request : ExecutionRequest) where
  -- Within the policy's cap.
  abbrev pub IsCapped : CapturedStream → Type 0
  IsCapped stream = length stream.head + length stream.tail ≤ policy.max_output_bytes_per_stream

  -- The stream is what the cap of the policy keeps of what the pipe gave.
  abbrev pub IsOutput : Pipe I → CapturedStream → Type 0
  IsOutput pipe stream =
      (read_bounded pipe.reads policy.max_output_bytes_per_stream ≡ some (ok stream))
      × IsCapped stream

  -- The result is that of the process which was launched for what the policy admitted of the request.
  pub record IsExecuted (result : ExecutionResult) : Type 0 where
    pub admitted : AdmittedExecution
    pub admits : admit system policy request ≡ ok admitted
    pub allowed : IsAllowed system policy request admitted
    pub child : Child S I
    pub launched : launcher.launch admitted ≡ ok child
    pub command : result.command ≡ unicode.lossy admitted.program ∷ request.args
    pub status : S
    pub waited : IsFirst admitted.timeout child.polls 0 (ok (status, result.termination))
    pub exit_code : result.exit_code ≡ launcher.code status
    pub duration : result.duration ≡ child.duration
    pub stdout : IsOutput child.stdout result.stdout
    pub stderr : IsOutput child.stderr result.stderr

  -- An error promises nothing.
  abbrev pub Promises : Result ExecutionResult (ExecutionError I) → Type 0
  Promises (err e) = Unit
  Promises (ok result) = IsExecuted result

  -- The turns of the wait begin at least one sleep after one another, `wait` returns after a termination, and
  -- so do the reads of both outputs.
  pub record Behaves (child : Child S I) : Type 0 where
    pub paced : (n : ℕ) → n * poll_interval ≤ (child.polls n).elapsed
    pub reaped : AllReap child.polls
    pub stdout_ends : child.stdout.ends ≡ true
    pub stderr_ends : child.stderr.ends ≡ true

  join_capture_total :
      (limit : ℕ) (pipe : Pipe I)
      → pipe.ends ≡ true
      → (r : Result CapturedStream (ExecutionError I)) × (join_capture limit pipe ≡ some r)
  unfolding join_capture
  join_capture_total limit pipe e = rw e (captured_total (read_bounded pipe.reads limit))

  join_capture-IsOutput :
      (limit : ℕ) (pipe : Pipe I) (stream : CapturedStream)
      → limit ≡ policy.max_output_bytes_per_stream
      → pipe.ends ≡ true
      → join_capture limit pipe ≡ some (ok stream)
      → IsOutput pipe stream
  unfolding join_capture
  join_capture-IsOutput limit pipe stream c e h =
      by_read (read_bounded pipe.reads limit) refl (rw e at h)
    where
      by_read :
          (o : Option (Result CapturedStream I))
          → read_bounded pipe.reads limit ≡ o
          → captured true o ≡ some (ok stream)
          → IsOutput pipe stream
      by_read none r k = cc
      by_read (some result) r k =
          let kept =
            map_err-eq-ok capture result stream
              (some-injective (map_err capture result) (ok stream) k) in
          let read : read_bounded pipe.reads limit ≡ some (ok stream) = r ∙ ap some kept in
          (rw c at read, omega (arith, read_bounded_fits pipe.reads limit stream read, c))

  module _ (admitted : AdmittedExecution) (child : Child S I)
      (admits : admit system policy request ≡ ok admitted)
      (launched : launcher.launch admitted ≡ ok child) (behaves : Behaves child) where
    collected-Promises :
        (waited : Result (S × TerminationReason) I)
        → IsFirst admitted.timeout child.polls 0 waited
        → (r : Result ExecutionResult (ExecutionError I)) × (collected unicode launcher admitted
              child waited
            ≡ some r)
          × Promises r
    unfolding collected
    collected-Promises (err e) first = (err (wait e), refl, tt)
    collected-Promises (ok (status, reason)) first =
        by_outputs (join_capture_total admitted.output_cap child.stdout behaves.stdout_ends)
          (join_capture_total admitted.output_cap child.stderr behaves.stderr_ends)
      where
        allowed : IsAllowed system policy request admitted
        allowed = admit-IsAllowed system policy request admitted admits

        by_outputs :
            (r : Result CapturedStream (ExecutionError I)) × (join_capture admitted.output_cap
                  child.stdout
                ≡ some r)
            → (r : Result CapturedStream (ExecutionError I)) × (join_capture admitted.output_cap
                  child.stderr
                ≡ some r)
            → (r : Result ExecutionResult (ExecutionError I)) × (collected unicode launcher admitted
                  child
                  (ok (status, reason))
                ≡ some r)
              × Promises r
        by_outputs (err e, o) x = (err e, rw o refl, tt)
        by_outputs (ok stdout, o) (err e, x) = (err e, rw (o, x) refl, tt)
        by_outputs (ok stdout, o) (ok stderr, x) = (
          ok (record {
            command = unicode.lossy admitted.program ∷ admitted.args;
            exit_code = launcher.code status;
            termination = reason;
            duration = child.duration;
            stdout = stdout;
            stderr = stderr;
          }),
          rw (o, x) refl,
          record {
            admitted = admitted;
            admits = admits;
            allowed = allowed;
            child = child;
            launched = launched;
            command = ap (λ args. unicode.lossy admitted.program ∷ args) allowed.args_are;
            status = status;
            waited = first;
            exit_code = refl;
            duration = refl;
            stdout =
                join_capture-IsOutput admitted.output_cap child.stdout stdout allowed.capped
                  behaves.stdout_ends o;
            stderr =
                join_capture-IsOutput admitted.output_cap child.stderr stderr allowed.capped
                  behaves.stderr_ends x;
          },
        )

    run_child-Promises :
        (r : Result ExecutionResult (ExecutionError I)) × (run_child unicode launcher admitted
            (ok child)
          ≡ some r)
        × Promises r
    unfolding run_child
    run_child-Promises =
        let (waited, w, first) =
          wait_for_exit_ends admitted.timeout child.polls behaves.paced behaves.reaped in
        elim (Bool-cases (not child.stdout.present || not child.stderr.present)) [
          | inl e ↦ rw e (err missing_pipe, refl, tt)
          | inr e ↦ rw (e, w) (collected-Promises waited first)
        ]

  launched-Promises :
      (admitted : AdmittedExecution) (spawned : Result (Child S I) I)
      → admit system policy request ≡ ok admitted
      → launcher.launch admitted ≡ spawned
      → ((child : Child S I) → spawned ≡ ok child → Behaves child)
      → (r : Result ExecutionResult (ExecutionError I)) × (run_child unicode launcher admitted
            spawned
          ≡ some r)
        × Promises r
  unfolding run_child
  launched-Promises admitted (err e) a l b = (err (spawn e), refl, tt)
  launched-Promises admitted (ok child) a l b = run_child-Promises admitted child a l (b child refl)

  run_admitted-Promises :
      (checked : Result AdmittedExecution (ExecutionError I))
      → admit system policy request ≡ checked
      → ((admitted : AdmittedExecution) (child : Child S I)
          → launcher.launch admitted ≡ ok child
          → Behaves child)
      → (r : Result ExecutionResult (ExecutionError I)) × (run_admitted unicode launcher checked
          ≡ some r)
        × Promises r
  unfolding run_admitted
  run_admitted-Promises (err e) a b = (err e, refl, tt)
  run_admitted-Promises (ok admitted) a b = elim (Bool-cases (admitted.timeout == 0)) [
    | inl e ↦ rw e (err zero_limit, refl, tt)
    | inr e ↦ rw e (
        launched-Promises admitted (launcher.launch admitted) a refl
          (λ child l. b admitted child l))
  ]

  -- When the turns of the wait begin at least one sleep after one another, and `wait` after a termination and the
  -- reads of both outputs return, `execute` ends. If it ends with a result, that is the result of the
  -- process which was launched for the admitted request, and the policy allows that: the command is
  -- the admitted program, as a text, with the arguments of the request, the termination and the exit
  -- code are those of the first turn of the wait that decides, and each output is what the
  -- policy's cap keeps of what the process wrote, within that cap.
  pub execute_keeps :
      ((admitted : AdmittedExecution) (child : Child S I)
        → launcher.launch admitted ≡ ok child
        → Behaves child)
      → (r : Result ExecutionResult (ExecutionError I)) × (execute unicode system launcher policy
            request
          ≡ some r)
        × Promises r
  unfolding execute
  execute_keeps b = run_admitted-Promises (admit system policy request) refl b
