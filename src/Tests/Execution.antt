-- ===== src/Tests/Execution.antt =====
-- Output capture, the wait and the execution policy at concrete inputs.
use token_shrinker.Prelude.{
  ok_injective, ◌^◌, ◌-◌, ℕ, ◌+◌, ◌*◌, ◌/◌, ◌≡◌, refl, true, false, none, some, List, [], ◌∷◌, map,
  Result, ok, err, arith,
}
use token_shrinker.Prelude.Bytes.{Bytes, ascii}
use token_shrinker.Exec.Capture.{CapturedStream, read_bounded, retained_bytes}
use token_shrinker.Exec.Wait.{TerminationReason, timed_out, Poll, wait_loop, poll_interval}
use token_shrinker.Exec.Wait.Laws.{IsFirst, wait_for_exit_ends}
use token_shrinker.Exec.Policy.{
  System, ExecutionError, ExecutionRequest, ExecutionPolicy, AdmittedExecution, admit,
  environment_denied,
}
use token_shrinker.Prelude.Unicode.{Unicode}
use token_shrinker.Prelude.Integers.{pos}
use token_shrinker.Exec.Engine.{Child, Launcher, ExecutionResult, execute}
use token_shrinker.Exec.Engine.Laws.{Behaves, Promises, execute_keeps}
use token_shrinker.Exec.Policy.Laws.{IsAllowed, admit-IsAllowed}

-- Seven bytes in two chunks, at a capacity of five.
abbrev chunks : List Bytes
chunks = ascii "abcd" ∷ ascii "efg" ∷ []

abbrev stream : CapturedStream
stream = record { head = ascii "abc"; tail = ascii "fg"; total_bytes = 7; truncated = true }

captures : read_bounded {E = Unit {0}} (map ok chunks) 5 ≡ some (ok stream)
unfolding read_bounded
captures = refl

retains : retained_bytes (record stream { truncated = false }) ≡ ascii "abc"
unfolding retained_bytes
retains = refl

-- The largest capacity cannot be allocated.
panics : read_bounded {E = Unit {0}} (map ok chunks) (2 ^ 64 - 1) ≡ none
unfolding read_bounded
panics = refl

-- A process that never exits by itself.
abbrev polls : ℕ → Poll ℕ (Unit {0})
polls n = record {
  try_wait = ok none;
  is_cancelled = false;
  elapsed = n * poll_interval;
  waited = some (ok 137);
}

times_out : wait_loop 4 10_000_000 polls 0 ≡ some (ok (137, timed_out))
unfolding wait_loop
times_out = refl

wait_for_exit_ends_example :
    (r : Result (ℕ × TerminationReason) (Unit {0})) × (wait_loop
        (10_000_000 / poll_interval + 2)
        10_000_000
        polls
        0
      ≡ some r)
    × IsFirst 10_000_000 polls 0 r
wait_for_exit_ends_example =
    wait_for_exit_ends 10_000_000 polls (λ n. omega arith) (λ n. (ok 137, refl))

-- A system whose paths are canonical, where every path is a directory under every root.
abbrev system : System (Unit {0})
system = record {
  canonicalize = λ p. ok p;
  is_file = λ _. true;
  is_dir = λ _. true;
  path_starts_with = λ _ _. true;
  environment_value = λ _. some (ascii "/bin");
}

abbrev policy : ExecutionPolicy
policy = record {
  allowed_programs = ascii "/usr/bin/cargo" ∷ [];
  denied_programs = [];
  allowed_roots = ascii "/work" ∷ [];
  inherited_environment = ascii "PATH" ∷ ascii "SECRET" ∷ [];
  denied_environment = ascii "SECRET" ∷ [];
  max_timeout = 60;
  max_output_bytes_per_stream = 1_024;
}

abbrev request : ExecutionRequest
request = record {
  program = ascii "/usr/bin/cargo";
  args = ascii "test" ∷ [];
  working_directory = ascii "/work/a";
  environment = [];
  timeout = 90;
}

abbrev admitted : AdmittedExecution
admitted = record {
  program = ascii "/usr/bin/cargo";
  args = ascii "test" ∷ [];
  working_directory = ascii "/work/a";
  environment = (ascii "PATH", ascii "/bin") ∷ [];
  timeout = 60;
  output_cap = 1_024;
}

admits : admit system policy request ≡ ok admitted
unfolding admit
admits = refl

refuses_secret :
    admit system policy (record request { environment = (ascii "SECRET", ascii "1") ∷ [] })
    ≡ err (environment_denied (ascii "SECRET"))
unfolding admit
refuses_secret = refl

admit-IsAllowed_example : IsAllowed system policy request admitted
admit-IsAllowed_example = admit-IsAllowed system policy request admitted admits

abbrev unicode : Unicode
unicode = record { lossy = λ x. x; to_lowercase = λ x. x; trim = λ x. x; trim_start = λ x. x }

-- Seven bytes of output, then nothing, from a process that does not exit by itself.
abbrev child : Child ℕ (Unit {0})
child = record {
  stdout = record { present = true; reads = map ok chunks; ends = true };
  stderr = record { present = true; reads = []; ends = true };
  polls = polls;
  duration = poll_interval;
}

abbrev launcher : Launcher ℕ (Unit {0})
launcher = record { launch = λ _. ok child; code = λ status. some (pos status) }

abbrev result : ExecutionResult
result = record {
  command = ascii "/usr/bin/cargo" ∷ ascii "test" ∷ [];
  exit_code = some (pos 137);
  termination = timed_out;
  duration = poll_interval;
  stdout = record { head = ascii "abcdefg"; tail = []; total_bytes = 7; truncated = false };
  stderr = record { head = []; tail = []; total_bytes = 0; truncated = false };
}

executes : execute unicode system launcher policy request ≡ some (ok result)
unfolding execute
executes = refl

child-Behaves : Behaves unicode system launcher policy request child
child-Behaves = record {
  paced = λ n. omega arith;
  reaped = λ n. (ok 137, refl);
  stdout_ends = refl;
  stderr_ends = refl;
}

execute_keeps_example :
    (r : Result ExecutionResult (ExecutionError (Unit {0}))) × (execute unicode system launcher
        policy request
      ≡ some r)
    × Promises unicode system launcher policy request r
execute_keeps_example =
    execute_keeps unicode system launcher policy request
      (λ a c e. rw (← ok_injective child c e) child-Behaves)
