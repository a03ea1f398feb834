-- ===== src/Rr/Outcome.antt =====
-- What `_process_cpu` of the round robin scheduler does with a ready process. No burst runs for
-- longer than a quantum, and none is ever put back.
use cpu_schedular.Base.{
  ℕ, suc, ◌≤◌, ◌≡◌, refl, ap, sym, subst, ◌∙◌, ℤ, pos, true, false, some, inl, inr, ok, Run, arith,
  tests, Bool-cases, Returns, get_elem?, get_elem?-lt, ltb,
}
use cpu_schedular.Process.{Process, Status, sleep, terminated}
use cpu_schedular.Queue.{Ref}
use cpu_schedular.Rr.{
  ops, run_slice, next_burst, finish_burst, run_burst, process_cpu, process_cpu_rr,
}
use cpu_schedular.Rr.Loop.{Ran, ticks, run_slice-Ran}
use cpu_schedular.Sched.{should_terminate, terminated_process, terminate, final, to_wait}
use cpu_schedular.Sched.Bounds.{cpu_index-lt}
use cpu_schedular.Sched.Bursts.{HadCpuBurst, CpuOutcome, terminate-CpuOutcome, sleep-CpuOutcome}
use cpu_schedular.Sched.Cpu.{Quiet-trans, start-Quiet, Quiet}
use cpu_schedular.Sched.Lifecycle.{IsReady}
use cpu_schedular.Sched.Policy.{Policy, policy_of}
use cpu_schedular.Threads.{State, read_wall_start}
pub use cpu_schedular.Rr.Accounts.{slices}
use cpu_schedular.Rr.Accounts.{over_burst, next_burst-Prepared, over_burst-IsAsleep}

-- The counter is kept when a burst begins and when it ends.
unfoldable pub begun : State → State
begun s = record s { start_time = s.global_counter }

unfoldable pub ended : State → State
ended s = record s { end_time = s.global_counter }

begun-Quiet : (s : State) → Quiet s (begun (read_wall_start s))
unfolding begun read_wall_start
begun-Quiet s = record {
  store = refl;
  ready_queue = refl;
  wait_queue = refl;
  task_list = refl;
  t_process = refl;
  total_process = refl;
  terminated_process = refl;
  ready_count = refl;
  wait_count = refl;
  quantum = refl;
}

pub ended-Quiet : (s : State) → Quiet s (ended s)
unfolding ended
ended-Quiet s = record {
  store = refl;
  ready_queue = refl;
  wait_queue = refl;
  task_list = refl;
  t_process = refl;
  total_process = refl;
  terminated_process = refl;
  ready_count = refl;
  wait_count = refl;
  quantum = refl;
}

module _ (again : Ref → State → Run (Status × State)) (r : Ref) (p : Process) (s : State) where
  -- The branch that puts the process back is never taken.
  run_burst-finish :
      (p' : Process) (t : State) (n : ℕ)
      → run_slice (suc s.quantum) p.remaining_time 0 p (begun s) ≡ ok (n, p', t)
      → n ≤ t.quantum
      → run_burst again r p s ≡ finish_burst r p' (ended t)
  unfolding run_burst begun ended
  run_burst-finish p' t n e le =
      let within : ltb t.quantum n ≡ false = omega tests in rw (e, within)

  finish_burst-sleeps :
      (remaining : ℤ)
      → next_burst (record p { cpu_index = suc p.cpu_index })
        ≡ ok (record p { cpu_index = suc p.cpu_index; remaining_time = remaining })
      → finish_burst r p s
        ≡ ok (
          sleep,
          final r (over_burst p remaining) sleep (to_wait ops r (over_burst p remaining) s),
        )
  unfolding finish_burst
  finish_burst-sleeps remaining e = rw e

module _ (f : ℕ) (r : Ref) (s : State) (p : Process) (e : s.store r ≡ some p) where
  process_cpu-terminate :
      should_terminate p ≡ true
      → process_cpu (suc f) r s
        ≡ ok (
          terminated,
          final r (terminated_process p) terminated (terminate r p (read_wall_start s)),
        )
  unfolding process_cpu
  process_cpu-terminate over = rw (e, over, process_cpu)

  process_cpu-run_burst :
      should_terminate p ≡ false
      → process_cpu (suc f) r s ≡ run_burst (process_cpu f) r p (read_wall_start s)
  unfolding process_cpu
  process_cpu-run_burst goes = rw (e, goes, process_cpu)

over_burst-HadCpuBurst :
    (n : ℕ) (p p' : Process) (remaining : ℤ)
    → Ran n p p'
    → HadCpuBurst (pos n) p (over_burst p' remaining)
over_burst-HadCpuBurst n p p' remaining ran = record {
  cpu_index = ap suc ran.cpu_index;
  cpu_time = ran.cpu_time;
  io_index = ran.io_index;
  io_time = ran.io_time;
  process_time = ran.process_time;
  priority = ran.priority;
  pid = ran.pid;
  process_d = ran.process_d;
}

-- The slice of a burst, from the state in which `_process_cpu` was called.
pub slice_of :
    (s : State) (p : Process)
    → (p' : Process) × (t : State) × (run_slice
          (suc s.quantum)
          p.remaining_time
          0
          p
          (begun (read_wall_start s))
        ≡ ok (ticks s.quantum p.remaining_time, p', t))
      × Ran (ticks s.quantum p.remaining_time) p p'
      × Quiet s t
slice_of s p =
    let burst = p.remaining_time in
    let quiet = begun-Quiet s in
    let u = begun (read_wall_start s) in
    let same : ticks u.quantum burst ≡ ticks s.quantum burst =
      ap (λ q. ticks q burst) quiet.quantum in
    let (p', t, is, ran, spent, _) =
      run_slice-Ran (suc s.quantum) burst 0 (ticks s.quantum burst) p u (omega (arith, same))
        (omega arith) in
    (
      p',
      t,
      subst (λ n. run_slice (suc s.quantum) burst 0 p u ≡ ok (n, p', t)) same is,
      ran,
      Quiet-trans s u t quiet spent,
    )

module _ (f : ℕ) (r : Ref) (s : State) (p : Process) (a : IsReady slices s.quantum p) where
  after_slice :
      (burst : ℤ) (p' : Process) (t : State)
      → should_terminate p ≡ false
      → get_elem? p.process_d.cpu_burst p.cpu_index ≡ some burst
      → run_slice (suc s.quantum) p.remaining_time 0 p (begun (read_wall_start s))
        ≡ ok (ticks s.quantum burst, p', t)
      → Ran (ticks s.quantum burst) p p'
      → Quiet s t
      → Returns
          (CpuOutcome slices ops (λ b. pos (ticks s.quantum b)) r p s)
          (run_burst (process_cpu f) r p (read_wall_start s))
  after_slice burst p' t goes found is ran quiet =
      let start = start-Quiet s in
      let (remaining, next, prepared) =
        next_burst-Prepared (record p' { cpu_index = suc p'.cpu_index })
          (rw ran.process_d a.accounts.well_formed) in
      let slice =
        subst
          (λ q.
            run_slice (suc q) p.remaining_time 0 p (begun (read_wall_start s))
            ≡ ok (ticks s.quantum burst, p', t))
          (sym start.quantum) is in
      (
        _,
        run_burst-finish (process_cpu f) r p (read_wall_start s) p' t (ticks s.quantum burst) slice
              (omega (arith, quiet.quantum))
            ∙ finish_burst-sleeps (process_cpu f) r p' (ended t) remaining next,
        sleep-CpuOutcome slices ops (λ b. pos (ticks s.quantum b)) r p s (ended t)
            (Quiet-trans s t (ended t) quiet (ended-Quiet t)) burst (over_burst p' remaining) goes
            found (over_burst-IsAsleep s.quantum p p' a burst remaining found ran prepared)
            (over_burst-HadCpuBurst (ticks s.quantum burst) p p' remaining ran),
      )

  -- For a ready process in the store, `_process_cpu` of round robin returns without a fault at any
  -- depth but zero. If `_should_terminate` holds, the status is `terminated`, and the process has
  -- been through all its bursts, is counted as terminated, goes to neither queue and keeps its
  -- accounts. If not, the status is `sleep`, and the process goes to the wait queue with one more
  -- CPU burst: `cpu_index` is one more, the CPU time and the process time are more by the burst that
  -- was at the index or by the quantum, whichever is less, and by nothing for a negative burst, and
  -- the I/O index and time, the priority, the number and the line are the same.
  pub process_cpu_rr-CpuOutcome :
      s.store r ≡ some p
      → Returns
          (CpuOutcome slices ops (λ b. pos (ticks s.quantum b)) r p s)
          (process_cpu (suc f) r s)
  process_cpu_rr-CpuOutcome e = elim (Bool-cases (should_terminate p)) [
    | inl over ↦ (
      _,
      process_cpu-terminate f r s p e over,
      terminate-CpuOutcome slices ops (λ b. pos (ticks s.quantum b)) r p s (read_wall_start s)
          (start-Quiet s) a over,
    )
    | inr goes ↦
        let (burst, found) =
          get_elem?-lt p.process_d.cpu_burst p.cpu_index
            (cpu_index-lt p a.accounts.well_formed a.indices goes) in
        let same : burst ≡ p.remaining_time = sym (a.accounts.prepared burst found) in
        let (p', t, is, ran, quiet) = slice_of s p in
        rw (process_cpu-run_burst f r s p e goes)
          (after_slice p.remaining_time p' t goes (found ∙ ap some same) is ran quiet)
  ]

abbrev pub policy : Policy
policy =
    policy_of slices ops (λ quantum burst. pos (ticks quantum burst)) process_cpu_rr
      (λ r s p e a. process_cpu_rr-CpuOutcome 0 r s p a e)
