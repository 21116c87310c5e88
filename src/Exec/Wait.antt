-- ===== src/Exec/Wait.antt =====
-- crates/ts-exec/src/lib.rs: `wait_for_exit`. What one turn of the loop observes is a parameter: the
-- result of `try_wait`, the cancellation flag, the time elapsed in nanoseconds, and the
-- result of `wait` after the process tree was terminated. `S` is an exit status, `I` an I/O error.
pub mod Laws
use token_shrinker.Prelude.{
  ℕ, zero, suc, Bool, true, false, Option, none, some, Result, ok, err, leb, if◌then◌else◌,
}

pub data TerminationReason : Type 0 where
  completed timed_out cancelled : TerminationReason

-- `waited` is none where the termination was in vain and `wait` never returns.
pub record Poll (S I : Type 0) : Type 0 where
  pub try_wait : Result (Option S) I
  pub is_cancelled : Bool
  pub elapsed : ℕ
  pub waited : Option (Result S I)

abbrev pub with_reason :
    {S I : Type 0} → Result S I → TerminationReason → Result (S × TerminationReason) I
with_reason (err e) reason = err e
with_reason (ok status) reason = ok (status, reason)

-- How a turn of the loop ends: it sleeps and goes on, it never ends, or it returns.
pub data Turn (S I : Type 0) : Type 0 where
  sleeps blocks : Turn S I
  returns : Result (S × TerminationReason) I → Turn S I

-- A turn that returns ends the loop. The loop that does not return, or not in its turns, is `none`.
abbrev pub after_turn :
    {S I : Type 0}
    → Turn S I
    → Option (Result (S × TerminationReason) I)
    → Option (Result (S × TerminationReason) I)
after_turn sleeps rest = rest
after_turn blocks rest = none
after_turn (returns result) rest = some result

module _ {S I : Type 0} where
  -- `child.wait()` after the termination, with its reason.
  abbrev pub reap : Option (Result S I) → TerminationReason → Turn S I
  reap none reason = blocks
  reap (some result) reason = returns (with_reason result reason)

  -- The body of the loop.
  unfoldable pub poll_once : ℕ → Poll S I → Turn S I
  poll_once timeout poll = elim poll.try_wait [
    | err e ↦ returns (err e)
    | ok found ↦ elim found [
      | some status ↦ returns (ok (status, completed))
      | none ↦
          if poll.is_cancelled
          then reap poll.waited cancelled
          else if leb timeout poll.elapsed
          then reap poll.waited timed_out
          else sleeps
    ]
  ]

  -- The loop from its turn `n` on, for at most `fuel` turns.
  unfoldable pub wait_loop : ℕ → ℕ → (ℕ → Poll S I) → ℕ → Option (Result (S × TerminationReason) I)
  unfolding poll_once
  wait_loop zero timeout polls n = none
  wait_loop (suc fuel) timeout polls n =
      let rest = wait_loop fuel timeout polls (suc n) in
      after_turn (poll_once timeout (polls n)) rest

-- The sleep between two turns, in nanoseconds.
abbrev pub poll_interval : ℕ
poll_interval = 5_000_000
