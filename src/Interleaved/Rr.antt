-- ===== src/Interleaved/Rr.antt =====
-- The work of round robin on a process that its thread holds.
use cpu_schedular.Base.{
  ℕ, ℤ, ◌≤◌, suc, ◌≡◌, ◌∙◌, ap, sym, subst, some, true, false, inl, inr, ok, Run, ◌>>=◌, Returns,
  arith, tests, Bool-cases, get_elem?-lt, ltb, if◌then◌else◌,
}
use cpu_schedular.Interleaved.{Point, testing, putting, finishing}
use cpu_schedular.Interleaved.Policy.{StepPolicy, Holds, ends, sleeps}
use cpu_schedular.Process.{Process, sleep, terminated}
use cpu_schedular.Queue.{Ref}
use cpu_schedular.Rr.{ops, run_slice, next_burst, preempt, process_cpu}
use cpu_schedular.Rr.Accounts.{
  slices, over_burst, next_burst-Prepared, over_burst-IsAsleep, over_burst-work,
}
use cpu_schedular.Rr.Loop.{ticks}
use cpu_schedular.Rr.Outcome.{begun, ended, ended-Quiet, slice_of}
use cpu_schedular.Sched.{should_terminate, terminate}
use cpu_schedular.Sched.Bounds.{cpu_index-lt}
use cpu_schedular.Sched.Cpu.{Quiet-trans, start-Quiet}
use cpu_schedular.Sched.Lifecycle.{IsReady}
use cpu_schedular.Threads.{State, put, read_global_counter, read_wall_start}

-- `_process_cpu` of rr up to `add_to_waitQueue`, for the process `p` behind `r`. The branch that puts
-- the process back and calls the function again is one step with the code at `final` after it.
unfoldable pub hold_rr : Ref → Process → State → Run (Point × State)
hold_rr r p s = if should_terminate p then ok (finishing r terminated, terminate r p s) else (do
  (time, p', t) ←
      run_slice (suc s.quantum) p.remaining_time 0 p
        (record s { start_time = read_global_counter s })
  let stopped = record t { end_time = read_global_counter t }
  if ltb t.quantum time
      then (do (_, u) ← preempt (process_cpu 0) r p' stopped; ok (testing, u))
      else (do
        next ← next_burst (record p' { cpu_index = suc p'.cpu_index })
        ok (putting r, put r (record next { status = sleep }) stopped)))

hold_rr-terminate :
    (r : Ref) (p : Process) (s : State)
    → should_terminate p ≡ true
    → hold_rr r p s ≡ ok (finishing r terminated, terminate r p s)
unfolding hold_rr
hold_rr-terminate r p s over = rw over

-- The branch that puts the process back is never taken.
hold_rr-putting :
    (r : Ref) (p : Process) (s : State) (p' : Process) (t : State) (n : ℕ) (remaining : ℤ)
    → should_terminate p ≡ false
    → run_slice (suc s.quantum) p.remaining_time 0 p (begun s) ≡ ok (n, p', t)
    → n ≤ t.quantum
    → next_burst (record p' { cpu_index = suc p'.cpu_index })
      ≡ ok (record p' { cpu_index = suc p'.cpu_index; remaining_time = remaining })
    → hold_rr r p s ≡ ok (putting r, put r (over_burst p' remaining) (ended t))
unfolding hold_rr begun ended
hold_rr-putting r p s p' t n remaining goes e le next =
    let within : ltb t.quantum n ≡ false = omega tests in rw (goes, e, within, next)

pub hold_rr-Holds :
    (r : Ref) (p : Process) (s : State)
    → IsReady slices s.quantum p
    → Returns (λ (at, t). Holds slices r p s at t) (hold_rr r p (read_wall_start s))
hold_rr-Holds r p s a = elim (Bool-cases (should_terminate p)) [
  | inl over ↦ (
    (finishing r terminated, terminate r p (read_wall_start s)),
    hold_rr-terminate r p (read_wall_start s) over,
    ends over,
  )
  | inr goes ↦
      let (burst, found) =
        get_elem?-lt p.process_d.cpu_burst p.cpu_index
          (cpu_index-lt p a.accounts.well_formed a.indices goes) in
      let same : burst ≡ p.remaining_time = sym (a.accounts.prepared burst found) in
      let (p', t, is, ran, quiet) = slice_of s p in
      let n = ticks s.quantum p.remaining_time in
      let start = start-Quiet s in
      let (remaining, next, prepared) =
        next_burst-Prepared (record p' { cpu_index = suc p'.cpu_index })
          (rw ran.process_d a.accounts.well_formed) in
      let slice =
        subst
          (λ q. run_slice (suc q) p.remaining_time 0 p (begun (read_wall_start s)) ≡ ok (n, p', t))
          (sym start.quantum) is in
      let here = found ∙ ap some same in
      (
        (putting r, put r (over_burst p' remaining) (ended t)),
        hold_rr-putting r p (read_wall_start s) p' t n remaining goes slice
            (omega (arith, quiet.quantum)) next,
        sleeps (over_burst p' remaining) (ended t) (Quiet-trans s t (ended t) quiet (ended-Quiet t))
            (over_burst-IsAsleep s.quantum p p' a p.remaining_time remaining here ran prepared)
            (record {
              less =
                  over_burst-work s.quantum p p' a p.remaining_time remaining here ran prepared
                    goes;
              pid = ran.pid;
              process_d = ran.process_d;
            }),
      )
]

abbrev pub policy : StepPolicy
policy = record { acc = slices; ops = ops; hold = hold_rr; hold-Holds = hold_rr-Holds }
