-- ===== src/Interleaved.antt =====
-- The loops of the scheduler thread and of the wake-up thread of fifo, sjf and rr, cut at every point
-- where one thread can see what the other does: the tests of the counters and queues, the calls on
-- the semaphores and the sections under a mutex are steps of their own, and so is the work on a
-- process between them, which only the thread that holds the process touches.
pub mod Settled
pub mod Invariant
pub mod Policy
pub mod Batch
pub mod Rr
pub mod Cpu
pub mod Io
pub mod Safety
pub mod Due
pub mod Finish
pub mod Places
pub mod Tests
use cpu_schedular.Base.{
  ℕ, zero, suc, ◌-◌, Option, none, some, Run, ok, out_of_fuel, ◌>>=◌, read, List, [], ◌∷◌,
  get_elem?, leb, ◌==◌, if◌then◌else◌,
}
use cpu_schedular.Batch.{spend, after_first, after_burst}
use cpu_schedular.Process.{Status, new, ready, sleep, terminated, undefined, Process}
use cpu_schedular.Queue.{Ref, dequeue}
use cpu_schedular.Sched.{
  ThreadOps, should_terminate, terminate, final, after_io, add_to_wait_queue, add_to_ready_queue,
  Flow, leaves, stays,
}
use cpu_schedular.Simulation.{Turn, scheduler, wakeup}
use cpu_schedular.Threads.{
  State, put, update_global_counter, all_processes_done, post_ready, post_wait, read_wall_start,
}

-- The point that a thread has come to: the tests at the head of its loop, `sem_trywait`, and, with
-- the process that it has taken, the work on it, its way to the other queue, `sem_post`, and the code
-- at the label `final`, which only the scheduler thread has.
pub data Point : Type 0 where
  testing testing_done trying popping left : Point
  holding putting posting : Ref → Point
  finishing : Ref → Status → Point

-- `sem_trywait` that succeeded, and `remove_from_readyQueue`, which another step can come between.
unfoldable pub try_ready : State → State
try_ready s = record s { ready_count = s.ready_count - 1 }

unfoldable pub pop_ready : State → State
unfolding dequeue
pop_ready s =
    let (front, rest) = dequeue s.ready_queue in record s { ready_queue = rest; running_pd = front }

unfoldable pub try_wait : State → State
try_wait s = record s { wait_count = s.wait_count - 1 }

unfoldable pub pop_wait : State → State
unfolding dequeue
pop_wait s =
    let (front, rest) = dequeue s.wait_queue in record s { wait_queue = rest; sleeping_pd = front }

-- The CPU burst of a process, up to its status; `none` for a status that is not expected.
unfoldable pub burst_step : Process → State → Run (Option (Process × State))
burst_step p s = elim p.status [
  | new ↦ do
    burst ← read (get_elem? p.process_d.cpu_burst zero)
    ok (some (after_first p burst, spend burst s))
  | ready ↦ do
    burst ← read (get_elem? p.process_d.cpu_burst p.cpu_index)
    ok (some (after_burst p burst, spend burst s))
  | _ ↦ ok none
]

-- `_process_cpu` of fifo and sjf up to `add_to_waitQueue`, for the process `p` behind `r`.
unfoldable pub hold_cpu : Ref → Process → State → Run (Point × State)
hold_cpu r p s = if should_terminate p then ok (finishing r terminated, terminate r p s) else (do
  out ← burst_step p s
  elim out [ none ↦ ok (finishing r undefined, s) | some (p', t) ↦ ok (putting r, put r p' t) ])

-- `_process_io` up to `add_to_readyQueue`.
unfoldable pub hold_io : Ref → Process → State → Run (Point × State)
hold_io r p s = if should_terminate p then ok (testing, terminate r p s) else elim p.status [
  | sleep ↦ do
    burst ← read (get_elem? p.process_d.io_burst p.io_index)
    ok (putting r, put r (after_io p burst) (update_global_counter burst s))
  | _ ↦ ok (testing, s)
]

-- A thread that has taken a process, or the null pointer, from its queue.
abbrev pub popped : Option Ref → State → Point × State
popped none s = (testing, s)
popped (some r) s = (holding r, s)

-- The two threads, each at its point.
pub record System : Type 0 where
  pub shared : State
  pub cpu : Point
  pub io : Point

module _ (ops : ThreadOps) (hold : Ref → Process → State → Run (Point × State)) where
  -- A step of `schedular_*`, with `_process_cpu` up to `add_to_waitQueue` handed in.
  unfoldable pub cpu_step : Point → State → Run (Point × State)
  cpu_step testing s =
      ok (if leb s.total_process s.terminated_process then left else testing_done, s)
  cpu_step testing_done s = ok (if all_processes_done s then left else trying, s)
  cpu_step trying s = if s.ready_count == 0 then ok (testing, s) else ok (popping, try_ready s)
  cpu_step popping s = let t = pop_ready s in ok (popped t.running_pd t)
  cpu_step (holding r) s = do p ← read (s.store r); hold r p (read_wall_start s)
  cpu_step (putting r) s = do p ← read (s.store r); ok (posting r, add_to_wait_queue ops r p s)
  cpu_step (posting r) s = ok (finishing r sleep, post_wait s)
  cpu_step (finishing r status) s = do p ← read (s.store r); ok (testing, final r p status s)
  cpu_step left s = ok (left, s)

module _ (ops : ThreadOps) where
  -- A step of `wakeUp_*`, which has no second test and no code at `final`.
  unfoldable pub io_step : Point → State → Run (Point × State)
  io_step testing s = ok (if leb s.total_process s.terminated_process then left else trying, s)
  io_step trying s = if s.wait_count == 0 then ok (testing, s) else ok (popping, try_wait s)
  io_step popping s = let t = pop_wait s in ok (popped t.sleeping_pd t)
  io_step (holding r) s = do p ← read (s.store r); hold_io r p s
  io_step (putting r) s = do p ← read (s.store r); ok (posting r, add_to_ready_queue ops r p s)
  io_step (posting r) s = ok (testing, post_ready s)
  io_step testing_done s = ok (testing, s)
  io_step (finishing r status) s = ok (testing, s)
  io_step left s = ok (left, s)

module _ (ops : ThreadOps) (hold : Ref → Process → State → Run (Point × State)) where
  -- One step of the thread whose turn it is.
  unfoldable pub step : Turn → System → Run System
  step scheduler x = do
    (at, s) ← cpu_step ops hold x.cpu x.shared
    ok (record x { shared = s; cpu = at })
  step wakeup x = do (at, s) ← io_step ops x.io x.shared; ok (record x { shared = s; io = at })

  unfoldable pub steps : List Turn → System → Run System
  steps [] x = ok x
  steps (t ∷ ts) x = do y ← step t x; steps ts y
