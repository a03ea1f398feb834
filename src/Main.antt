-- ===== src/Main.antt =====
-- main.c: the arrival thread, and then the scheduler thread and the wake-up thread side by
-- side until both have left their loops.
pub mod Start
pub mod Correct
pub mod Served
pub mod Steps
pub mod Preempted
pub mod Shortest
pub mod Tests
use cpu_schedular.Arrival.{add_arrival_process}
use cpu_schedular.Base.{ℕ, List, Run, ◌>>=◌, length}
use cpu_schedular.Process.{BurstLine, Process}
use cpu_schedular.Sched.Policy.{Policy}
use cpu_schedular.Simulation.{Turn, run, join}
use cpu_schedular.Threads.{State, init}
use cpu_schedular.Time.{Timespec}

-- With the lines of the input file, fuel for the arrivals, the turns of the two threads in passes,
-- and the readings of the clock.
unfoldable pub simulate :
    Policy
    → (Process → Run Process)
    → (ℕ → Timespec)
    → ℕ
    → List BurstLine
    → List (List Turn)
    → Run State
simulate pol prepare clock fuel lines passes = do
  s ← add_arrival_process pol.ops prepare fuel lines (init (length lines) clock)
  run pol (join passes) s
