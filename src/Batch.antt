-- ===== src/Batch.antt =====
-- `_process_cpu` of the two schedulers that do not preempt, fifo/fifo_sched.c and sjf/sjf_sched.c:
-- the same code, but for the queue operations.
pub mod Outcome
use cpu_schedular.Base.{suc, zero, ℤ, ◌+ℤ◌, Run, ok, ◌>>=◌, read, get_elem?, if◌then◌else◌}
use cpu_schedular.Process.{Status, new, ready, sleep, terminated, undefined, Process}
use cpu_schedular.Queue.{Ref}
use cpu_schedular.Sched.{ThreadOps, should_terminate, terminated_process, terminate, final, to_wait}
use cpu_schedular.Threads.{State, update_global_counter, read_global_counter, read_wall_start}

-- The global counter moves on by a whole burst, and the times before and after are kept.
unfoldable pub spend : ℤ → State → State
unfolding update_global_counter
spend burst s =
    let started = record s { start_time = read_global_counter s } in
    let spent = update_global_counter burst started in
    record spent { end_time = read_global_counter spent }

-- A new process: its CPU time is set, and not added to.
abbrev pub after_first : Process → ℤ → Process
after_first p burst = record p {
  cpu_time = burst;
  process_time = p.process_time +ℤ burst;
  cpu_index = suc p.cpu_index;
  status = sleep;
}

abbrev pub after_burst : Process → ℤ → Process
after_burst p burst = record p {
  cpu_time = p.cpu_time +ℤ burst;
  process_time = p.process_time +ℤ burst;
  cpu_index = suc p.cpu_index;
  status = sleep;
}

module _ (ops : ThreadOps) where
  unfoldable pub run_burst : Ref → Process → State → Run (Status × State)
  run_burst r p s = elim p.status [
    | new ↦ do
      burst ← read (get_elem? p.process_d.cpu_burst zero)
      ok (
        sleep,
        final r (after_first p burst) sleep (to_wait ops r (after_first p burst) (spend burst s)),
      )
    | ready ↦ do
      burst ← read (get_elem? p.process_d.cpu_burst p.cpu_index)
      ok (
        sleep,
        final r (after_burst p burst) sleep (to_wait ops r (after_burst p burst) (spend burst s)),
      )
    | _ ↦ ok (undefined, final r p undefined s)
  ]

  unfoldable pub process_cpu : Ref → State → Run (Status × State)
  process_cpu r s = do
    p ← read (s.store r)
    let started = read_wall_start s
    if should_terminate p
        then ok (terminated, final r (terminated_process p) terminated (terminate r p started))
        else run_burst r p started
