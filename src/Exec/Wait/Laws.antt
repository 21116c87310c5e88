-- ===== src/Exec/Wait/Laws.antt =====
-- crates/ts-exec/src/lib.rs: `wait_for_exit`, with what its turns find.
use token_shrinker.Prelude.{
  ℕ, zero, suc, ◌+◌, ◌*◌, ◌/◌, ◌≡◌, refl, ap, ◌≤◌, ◌<◌, true, false, Option, none, some, Result, ok,
  err, arith, ◌∙◌, ==_iff, ◌==◌, ◌≢◌, ◌⊎◌, leb, Bool-cases, inl, inr,
}
use token_shrinker.Exec.Wait.{
  TerminationReason, completed, timed_out, cancelled, Poll, sleeps, returns, with_reason, poll_once,
  after_turn, wait_loop, poll_interval,
}

-- Every `wait` after a termination returns.
abbrev pub AllReap : {S I : Type 0} → (ℕ → Poll S I) → Type 0
AllReap {S} {I} polls = (n : ℕ) → (w : Result S I) × ((polls n).waited ≡ some w)

module _ {S I : Type 0} (timeout : ℕ) where
  -- Nothing ends the wait in this turn.
  pub record Continues (poll : Poll S I) : Type 0 where
    pub runs : poll.try_wait ≡ ok none
    pub wanted : poll.is_cancelled ≡ false
    pub early : poll.elapsed < timeout

  -- What ends the wait in this turn, and the result: an exit or an error of `try_wait`, else a cancellation, else
  -- the timeout, both with what `wait` returns after the termination.
  pub data Decides (poll : Poll S I) (r : Result (S × TerminationReason) I) : Type 0 where
    exits :
        (status : S)
        → poll.try_wait ≡ ok (some status)
        → r ≡ ok (status, completed)
        → Decides poll r
    fails : (e : I) → poll.try_wait ≡ err e → r ≡ err e → Decides poll r
    cancels :
        (w : Result S I)
        → poll.try_wait ≡ ok none
        → poll.is_cancelled ≡ true
        → poll.waited ≡ some w
        → r ≡ with_reason w cancelled
        → Decides poll r
    expires :
        (w : Result S I)
        → poll.try_wait ≡ ok none
        → poll.is_cancelled ≡ false
        → timeout ≤ poll.elapsed
        → poll.waited ≡ some w
        → r ≡ with_reason w timed_out
        → Decides poll r

  poll_once-cases :
      (poll : Poll S I) (w : Result S I)
      → poll.waited ≡ some w
      → ((poll_once timeout poll ≡ sleeps) × Continues poll)
        ⊎ ((r : Result (S × TerminationReason) I) × (poll_once timeout poll ≡ returns r)
            × Decides poll r)
  unfolding poll_once
  poll_once-cases poll w found = by_try poll.try_wait refl
    where
      by_try :
          (t : Result (Option S) I)
          → poll.try_wait ≡ t
          → ((poll_once timeout poll ≡ sleeps) × Continues poll)
            ⊎ ((r : Result (S × TerminationReason) I) × (poll_once timeout poll ≡ returns r)
                × Decides poll r)
      by_try (err e) t = inr (err e, rw t refl, fails e t refl)
      by_try (ok (some status)) t = inr (ok (status, completed), rw t refl, exits status t refl)
      by_try (ok none) t = elim (Bool-cases poll.is_cancelled) [
        | inl c ↦ inr (with_reason w cancelled, rw (t, c, found) refl, cancels w t c found refl)
        | inr c ↦ elim (Bool-cases (leb timeout poll.elapsed)) [
          | inl l ↦ inr (
            with_reason w timed_out,
            rw (t, c, l, found) refl,
            expires w t c (ground (arith, l)) found refl,
          )
          | inr l ↦
              inl (rw (t, c, l) refl, record { runs = t; wanted = c; early = ground (arith, l) })
        ]
      ]

module _ {S I : Type 0} (timeout : ℕ) (polls : ℕ → Poll S I) where
  -- The result is that of the turn, and no turn from `start` to it decides.
  pub record IsFirst (start : ℕ) (r : Result (S × TerminationReason) I) : Type 0 where
    pub turn : ℕ
    pub from_start : start ≤ turn
    pub decides : Decides timeout (polls turn) r
    pub earlier : (m : ℕ) → start ≤ m → m < turn → Continues timeout (polls m)

  -- A later first decisive turn is also the first from one turn before.
  IsFirst-pred :
      (start : ℕ) (r : Result (S × TerminationReason) I)
      → Continues timeout (polls start)
      → IsFirst (suc start) r
      → IsFirst start r
  IsFirst-pred start r e i = record {
    turn = i.turn;
    from_start = omega (arith, i.from_start);
    decides = i.decides;
    earlier = λ m a b. elim (Bool-cases (m == start)) [
      | inl same ↦ rw ((==_iff m start).0 same) e
      | inr other ↦ i.earlier m (ground arith) b
    ];
  }

  not_late :
      (start n : ℕ) → timeout ≤ (polls n).elapsed → Continues timeout (polls start) → start ≢ n
  not_late start n h c same =
      let moved = ap (λ k. (polls k).elapsed) same in absurd (omega (arith, c.early, moved))

  wait_loop-IsFirst :
      AllReap polls
      → (fuel start n : ℕ) → timeout ≤ (polls n).elapsed
      → start ≤ n
      → n < start + fuel
      → (r : Result (S × TerminationReason) I) × (wait_loop fuel timeout polls start ≡ some r)
        × IsFirst start r
  unfolding wait_loop
  wait_loop-IsFirst reap zero start n h p q = absurd (omega arith)
  wait_loop-IsFirst reap (suc fuel) start n h p q =
      elim (poll_once-cases timeout (polls start) (reap start).0 (reap start).1) [
        | inr (r, e, d) ↦ (
          r,
          ap (λ turn. after_turn turn (wait_loop fuel timeout polls (suc start))) e,
          record {
            turn = start;
            from_start = omega arith;
            decides = d;
            earlier = λ m a b. absurd (omega arith);
          },
        )
        | inl (e, c) ↦
            let (r, k, i) =
              wait_loop-IsFirst reap fuel (suc start) n h (omega (arith, not_late start n h c))
                (omega arith) in
            (
              r,
              ap (λ turn. after_turn turn (wait_loop fuel timeout polls (suc start))) e ∙ k,
              IsFirst-pred start r c i,
            )
      ]

  -- When every turn begins at least one sleep after the one before, and `wait` returns after a
  -- termination, `wait_for_exit` returns: the turns whose sleeps fill the timeout are enough. The
  -- result is that of the first turn that finds an exit or an error of `try_wait`, a cancellation or
  -- the timeout reached, in this order: the status with `completed`, the error, or what `wait`
  -- returns with `cancelled` or `timed_out`. In every turn before it the process ran, no
  -- cancellation was asked for, and the timeout was not reached.
  pub wait_for_exit_ends :
      ((n : ℕ) → n * poll_interval ≤ (polls n).elapsed)
      → AllReap polls
      → (r : Result (S × TerminationReason) I) × (wait_loop
            (timeout / poll_interval + 2)
            timeout
            polls
            0
          ≡ some r)
        × IsFirst 0 r
  wait_for_exit_ends pace reap =
      let n = timeout / poll_interval + 1 in
      wait_loop-IsFirst reap (timeout / poll_interval + 2) 0 n (omega (arith, pace n)) (omega arith)
        (omega arith)
