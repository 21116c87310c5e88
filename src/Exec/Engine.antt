-- ===== src/Exec/Engine.antt =====
-- crates/ts-exec/src/lib.rs: `ExecutionEngine::execute`, from the admission of a request to the result of
-- its process, and what a result gives to the terminal compressor. What the operating system does with
-- an admitted command is a parameter.
pub mod Laws
use mathlib.Core.Option
use token_shrinker.Prelude.{
  ℕ, ◌+◌, ◌/◌, Bool, true, false, ◌||◌, not, Option, none, some, List, [], ◌∷◌, ◌++◌, ◌==◌,
  if◌then◌else◌, Result, ok, err, ◌>>=◌, map_err,
}
use token_shrinker.Prelude.Bytes.{Bytes, ascii}
use token_shrinker.Prelude.Integers.{ℤ}
use token_shrinker.Prelude.Unicode.{Unicode}
use token_shrinker.Compress.Artifacts.{RawArtifactHandle}
use token_shrinker.Compress.Terminal.{TerminalInput}
use token_shrinker.Exec.Capture.{CapturedStream, retained_bytes, read_bounded}
use token_shrinker.Exec.Wait.{TerminationReason, Poll, wait_loop, poll_interval}
use token_shrinker.Exec.Policy.{
  System, ExecutionError, zero_limit, missing_pipe, capture_thread, spawn, wait, capture,
  ExecutionRequest, ExecutionPolicy, AdmittedExecution, admit,
}

pub record ExecutionResult : Type 0 where
  pub command : List Bytes
  pub exit_code : Option ℤ
  pub termination : TerminationReason
  pub duration : ℕ
  pub stdout : CapturedStream
  pub stderr : CapturedStream

-- An output of a process: whether it is piped, what the calls of its reader return, and whether the last of
-- them returns, which it does not while another process keeps the pipe open.
pub record Pipe (I : Type 0) : Type 0 where
  pub present : Bool
  pub reads : List (Result Bytes I)
  pub ends : Bool

-- A process: its outputs, what the turns of the wait find, and the time that it took.
pub record Child (S I : Type 0) : Type 0 where
  pub stdout : Pipe I
  pub stderr : Pipe I
  pub polls : ℕ → Poll S I
  pub duration : ℕ

-- `Command::spawn` on an admitted command, and `ExitStatus::code`.
pub record Launcher (S I : Type 0) : Type 0 where
  pub launch : AdmittedExecution → Result (Child S I) I
  pub code : S → Option ℤ

-- A result of a thread or of the engine; `none` does not return.
abbrev pub then_result :
    {A B E : Type 0} → Option (Result A E) → (A → Option (Result B E)) → Option (Result B E)
then_result none next = none
then_result (some (err e)) next = some (err e)
then_result (some (ok a)) next = next a

-- A panic of the thread ends it at once.
abbrev pub captured :
    {I : Type 0}
    → Bool
    → Option (Result CapturedStream I)
    → Option (Result CapturedStream (ExecutionError I))
captured ends none = some (err capture_thread)
captured ends (some result) = if ends then some (map_err capture result) else none

unfoldable pub join_capture :
    {I : Type 0} → ℕ → Pipe I → Option (Result CapturedStream (ExecutionError I))
unfolding read_bounded
join_capture output_cap pipe = captured pipe.ends (read_bounded pipe.reads output_cap)

module _ {S I : Type 0} (unicode : Unicode) where
  -- From the end of the wait on.
  unfoldable pub collected :
      Launcher S I
      → AdmittedExecution
      → Child S I
      → Result (S × TerminationReason) I
      → Option (Result ExecutionResult (ExecutionError I))
  unfolding join_capture
  collected launcher admitted child waited = then_result (some (map_err wait waited)) (λ ended.
      then_result (join_capture admitted.output_cap child.stdout) (λ stdout.
        then_result (join_capture admitted.output_cap child.stderr) (λ stderr. some (
          ok (record {
            command = unicode.lossy admitted.program ∷ admitted.args;
            exit_code = launcher.code ended.0;
            termination = ended.1;
            duration = child.duration;
            stdout = stdout;
            stderr = stderr;
          })))))

  abbrev pub finish_wait :
      Launcher S I
      → AdmittedExecution
      → Child S I
      → Option (Result (S × TerminationReason) I)
      → Option (Result ExecutionResult (ExecutionError I))
  unfolding collected
  finish_wait launcher admitted child none = none
  finish_wait launcher admitted child (some waited) = collected launcher admitted child waited

  -- From the process on. A turn of the wait for each sleep that fits in the timeout, and two
  -- more, are enough.
  unfoldable pub run_child :
      Launcher S I
      → AdmittedExecution
      → Result (Child S I) I
      → Option (Result ExecutionResult (ExecutionError I))
  unfolding collected wait_loop
  run_child launcher admitted (err e) = some (err (spawn e))
  run_child launcher admitted (ok child) =
      if not child.stdout.present || not child.stderr.present
      then some (err missing_pipe)
      else finish_wait launcher admitted child
          (wait_loop (admitted.timeout / poll_interval + 2) admitted.timeout child.polls 0)

  unfoldable pub run_admitted :
      Launcher S I
      → Result AdmittedExecution (ExecutionError I)
      → Option (Result ExecutionResult (ExecutionError I))
  unfolding run_child
  run_admitted launcher (err e) = some (err e)
  run_admitted launcher (ok admitted) =
      if admitted.timeout == 0
      then some (err zero_limit)
      else run_child launcher admitted (launcher.launch admitted)

  unfoldable pub execute :
      System I
      → Launcher S I
      → ExecutionPolicy
      → ExecutionRequest
      → Option (Result ExecutionResult (ExecutionError I))
  unfolding run_admitted admit
  execute system launcher policy request = run_admitted launcher (admit system policy request)

-- `ExecutionResult::terminal_input`
unfoldable pub terminal_input : Unicode → ExecutionResult → Option RawArtifactHandle → TerminalInput
unfolding retained_bytes
terminal_input unicode result raw_handle = record {
  command = result.command;
  exit_code = result.exit_code;
  duration = result.duration;
  stdout = unicode.lossy (retained_bytes result.stdout);
  stderr = unicode.lossy (retained_bytes result.stderr);
  truncated = result.stdout.truncated || result.stderr.truncated;
  raw_handle = raw_handle;
}

-- `ExecutionResult::retained_raw_output`; a line feed is the byte 10.
unfoldable pub retained_raw_output : ExecutionResult → Bytes
unfolding retained_bytes
retained_raw_output result =
    ascii "--- stdout ---"
    ++ (10 ∷ retained_bytes result.stdout)
    ++ ((10 ∷ ascii "--- stderr ---") ++ (10 ∷ retained_bytes result.stderr))
