-- ===== src/Sched/Policy.antt =====
-- What a scheduler owes to the loops of the threads: its queue operations, its `_process_cpu`, and
-- that the latter makes progress from a ready process.
use cpu_schedular.Base.{ℕ, ℤ, some, ◌≡◌, Run, Returns}
use cpu_schedular.Process.{Status, Process}
use cpu_schedular.Queue.{Ref}
use cpu_schedular.Sched.{ThreadOps}
use cpu_schedular.Sched.Bursts.{CpuOutcome, CpuOutcome-Outcome}
use cpu_schedular.Sched.Invariant.{Held}
use cpu_schedular.Sched.Lifecycle.{Accounting, IsReady}
use cpu_schedular.Sched.Progress.{Progress, Outcome-Progress}
use cpu_schedular.Threads.{State}

pub record Policy : Type 1 where
  pub acc : Accounting
  pub ops : ThreadOps
  pub process_cpu : Ref → State → Run (Status × State)
  pub process_cpu-Progress :
      (r : Ref) (s : State) (p : Process)
      → Held acc r s
      → s.running_pd ≡ some r
      → s.store r ≡ some p
      → IsReady acc s.quantum p
      → Returns (λ (status, t). Progress acc s t) (process_cpu r s)

-- A `_process_cpu` that touches the process alone that it was given.
abbrev pub policy_of :
    (acc : Accounting) (ops : ThreadOps) (time_of : ℕ → ℤ → ℤ)
    (process_cpu : Ref → State → Run (Status × State))
    → ((r : Ref) (s : State) (p : Process)
        → s.store r ≡ some p
        → IsReady acc s.quantum p
        → Returns (CpuOutcome acc ops (time_of s.quantum) r p s) (process_cpu r s))
    → Policy
policy_of acc ops time_of process_cpu outcome = record {
  acc = acc;
  ops = ops;
  process_cpu = process_cpu;
  process_cpu-Progress = λ r s p held running stored ready.
      let ((status, t), is, o) = outcome r s p stored ready in
      let had = CpuOutcome-Outcome acc ops r p s (time_of s.quantum) (status, t) ready o in
      ((status, t), is, Outcome-Progress acc ops r p s t held stored had);
}
