-- ===== src/Simulation.antt =====
-- The two threads that `main` starts when the arrival thread is done, as a sequence of turns: in a
-- turn one thread makes a round of its loop. A thread that has left its loop changes nothing more.
pub mod Progress
pub mod Finish
use cpu_schedular.Base.{Run, ok, ◌>>=◌, List, [], ◌∷◌, ◌++◌}
use cpu_schedular.Sched.{schedular, wake_up, process_io}
use cpu_schedular.Sched.Policy.{Policy}
use cpu_schedular.Threads.{State}

pub data Turn : Type 0 where
  scheduler wakeup : Turn

module _ (pol : Policy) where
  unfoldable pub turn : Turn → State → Run State
  turn scheduler s = do (_, t) ← schedular pol.process_cpu s; ok t
  turn wakeup s = do (_, t) ← wake_up (process_io pol.ops) s; ok t

  unfoldable pub run : List Turn → State → Run State
  run [] s = ok s
  run (x ∷ xs) s = do t ← turn x s; run xs t

-- The turns of several passes, one after another.
unfoldable pub join : List (List Turn) → List Turn
join [] = []
join (p ∷ ps) = p ++ join ps
