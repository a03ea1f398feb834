-- ===== src/Interleaved/Cpu.antt =====
-- What a step of the scheduler thread is to do. The children go through the points of its loop.
pub mod Head
pub mod Tail
pub mod Work
use cpu_schedular.Base.{
  ℕ, zero, suc, ◌+◌, ◌-◌, ◌≤◌, ◌<◌, ◌≡◌, refl, ◌∙◌, some, [], ◌∷◌, length, arith, Bool, true, false,
  inl, inr, ltb, leb, tests, Bool-cases, ◌==◌, if◌then◌else◌, ok, Returns,
}
use cpu_schedular.Interleaved.{
  Point, testing, testing_done, trying, popping, left, holding, putting, posting, finishing, System,
  try_ready, pop_ready, popped, cpu_step,
}
use cpu_schedular.Interleaved.Invariant.{
  Counts, Balanced, EndsWell-mono, Drives, due, Idle, Moves, Same-Moves, Round-Moves,
  Progress-Moves, Idle-Moves,
}
use cpu_schedular.Interleaved.Settled.{
  item, settled, queues-Leaves, parts-Same, Same-refl, occurs-wait,
}
use cpu_schedular.Interleaved.Settled.Places.{wait_place}
use cpu_schedular.Queue.{Item, Queue}
use cpu_schedular.Queue.Laws.{occurs}
use cpu_schedular.Sched.Final.{Finishes, final-Finishes, finished-Round}
use cpu_schedular.Process.{Process, Status, sleep}
use cpu_schedular.Time.{Timespec}
use cpu_schedular.Queue.{Ref, dequeue}
use cpu_schedular.Interleaved.Policy.{StepPolicy}
use cpu_schedular.Threads.{State, all_processes_done, post_wait}

abbrev pub at_cpu : State → Point → Point → System
at_cpu s at io = record { shared = s; cpu = at; io = io }

-- What a step of the scheduler thread from the point `at` is to do.
abbrev pub CpuMoves : StepPolicy → State → Point → Point → Type 0
CpuMoves pol s at io =
    Returns
      (λ (at', t). Moves pol.acc (at_cpu s at io) (at_cpu t at' io) (Idle s s.ready_count at at'))
      (cpu_step pol.ops pol.hold at s)
