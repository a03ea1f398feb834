-- ===== src/Interleaved/Policy.antt =====
-- What a scheduler owes to the steps of its thread: its queue operations, and the work on a process
-- that it holds, after which the process is on its way to the wait queue or has terminated.
use cpu_schedular.Base.{◌≡◌, true, Run, Returns}
use cpu_schedular.Interleaved.{Point, putting, finishing}
use cpu_schedular.Process.{Process, terminated}
use cpu_schedular.Queue.{Ref}
use cpu_schedular.Sched.{ThreadOps, should_terminate, terminate}
use cpu_schedular.Sched.Cpu.{Quiet}
use cpu_schedular.Sched.Lifecycle.{Accounting, IsReady, IsAsleep, Forward}
use cpu_schedular.Threads.{State, put, read_wall_start}

-- The outcome of the work on the process `p` in the state `s`.
pub data Holds (acc : Accounting) (r : Ref) (p : Process) (s : State) : Point → State → Type 0 where
  ends :
      should_terminate p ≡ true
      → Holds acc r p s (finishing r terminated) (terminate r p (read_wall_start s))
  sleeps :
      (p' : Process) (t : State)
      → Quiet s t
      → IsAsleep acc s.quantum p'
      → Forward p p'
      → Holds acc r p s (putting r) (put r p' t)

pub record StepPolicy : Type 1 where
  pub acc : Accounting
  pub ops : ThreadOps
  pub hold : Ref → Process → State → Run (Point × State)
  pub hold-Holds :
      (r : Ref) (p : Process) (s : State)
      → IsReady acc s.quantum p
      → Returns (λ (at, t). Holds acc r p s at t) (hold r p (read_wall_start s))
