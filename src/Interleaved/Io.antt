-- ===== src/Interleaved/Io.antt =====
-- What a step of the wake-up thread is to do. The children go through the points of its loop.
pub mod Head
pub mod Work
use cpu_schedular.Base.{Returns}
use cpu_schedular.Interleaved.{Point, System, io_step}
use cpu_schedular.Interleaved.Invariant.{Idle, Moves}
use cpu_schedular.Sched.{ThreadOps}
use cpu_schedular.Sched.Lifecycle.{Accounting}
use cpu_schedular.Threads.{State}

abbrev pub at_io : State → Point → Point → System
at_io s cpu at = record { shared = s; cpu = cpu; io = at }

-- What a step of the wake-up thread from the point `at` is to do.
abbrev pub IoMoves : Accounting → ThreadOps → State → Point → Point → Type 0
IoMoves acc ops s cpu at =
    Returns (λ (at', t). Moves acc (at_io s cpu at) (at_io t cpu at') (Idle s s.wait_count at at'))
      (io_step ops at s)
