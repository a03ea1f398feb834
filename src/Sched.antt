-- ===== src/Sched.antt =====
-- The code that the files schedule_algorithms/fifo/fifo_sched.c, sjf/sjf_sched.c, rr/rr_sched.c
-- and srtf/srtf_sched.c have in common, word by word but for the names of the queue operations:
-- those are the record `ThreadOps` here, which each scheduler's `*_th.c` fills.
pub mod Lifecycle
pub mod Bounds
pub mod Bursts
pub mod Cpu
pub mod Final
pub mod Invariant
pub mod Io
pub mod Policy
pub mod Progress
pub mod Rounds
pub mod Work
pub mod Take
use cpu_schedular.Base.{
  ℕ, suc, ◌+◌, ◌-◌, ◌≡◌, ℤ, ◌+ℤ◌, Bool, true, false, not, ◌&&◌, ◌||◌, Option, none, some, Run, ok,
  fault, out_of_fuel, ◌>>=◌, read, length, get_elem?, ltb, leb, ◌==◌, if◌then◌else◌,
}
use cpu_schedular.Process.{
  Status, new, ready, sleep, running, terminated, undefined, BurstLine, Process,
}
use cpu_schedular.Queue.{Ref, Queue, dequeue}
use cpu_schedular.Queue.Laws.{occurs}
use cpu_schedular.Threads.{
  State, put, update_global_counter, update_term_counter, all_processes_done,
  write_cpu_process_data, post_ready, post_wait, read_wall_end,
}
use cpu_schedular.Time.{timespec_add, diff_timespec}

-- `thread_op_t`. The three functions `add_to_*` of a scheduler make the same call on three queues,
-- and the three `remove_from_*` are `dequeue` on each.
pub record ThreadOps : Type 0 where
  pub insert : Ref → Process → Queue → Queue
  pub occurs-insert :
      (r q : Ref) (p : Process) (l : Queue)
      → occurs r (insert q p l) ≡ occurs r l + (if q == r then 1 else 0)
  pub length-insert : (q : Ref) (p : Process) (l : Queue) → length (insert q p l) ≡ suc (length l)

module _ (ops : ThreadOps) where
  unfoldable pub add_to_ready_queue : Ref → Process → State → State
  add_to_ready_queue r p s = record s { ready_queue = ops.insert r p s.ready_queue }

  unfoldable pub add_to_wait_queue : Ref → Process → State → State
  add_to_wait_queue r p s = record s { wait_queue = ops.insert r p s.wait_queue }

  unfoldable pub add_to_task_list : Ref → Process → State → State
  add_to_task_list r p s = record s { task_list = ops.insert r p s.task_list }

  -- The process goes to the wait queue, and the wake-up thread is told.
  unfoldable pub to_wait : Ref → Process → State → State
  unfolding put add_to_wait_queue post_wait
  to_wait r p s = post_wait (add_to_wait_queue r p (put r p s))

  -- The process goes to the ready queue, and the scheduler thread is told.
  unfoldable pub to_ready : Ref → Process → State → State
  unfolding put add_to_ready_queue post_ready
  to_ready r p s = post_ready (add_to_ready_queue r p (put r p s))

unfoldable pub should_terminate : Process → Bool
should_terminate p =
    let d = p.process_d in
    if d.cpu_burst_size == 0
    then true
    else if d.io_burst_size == 0
    then not (ltb p.cpu_index d.cpu_burst_size)
    else not (
        (ltb p.cpu_index d.cpu_burst_size && leb p.io_index d.io_burst_size)
        || (leb p.cpu_index d.cpu_burst_size && ltb p.io_index d.io_burst_size))

-- What `_process_cpu` and `_process_io` do with a process that should terminate.
abbrev pub terminated_process : Process → Process
terminated_process p = record p { status = terminated; turnaround_time = p.process_time }

unfoldable pub terminate : Ref → Process → State → State
unfolding put update_term_counter
terminate r p s = put r (terminated_process p) (update_term_counter 1 s)

-- The statuses at which `_process_cpu` writes no line of the log.
abbrev pub is_logged : Status → Bool
is_logged terminated = false
is_logged undefined = false
is_logged _ = true

-- The wall time that the code at `final` adds.
abbrev pub timed : Process → State → Process
timed p s = record p {
  wall_time =
      timespec_add p.wall_time
        (diff_timespec (record { start = s.wall_timer.start; end = s.clock s.clock_reads }));
}

-- The code of `_process_cpu` from its label `final` on: the log, and the wall time.
unfoldable pub final : Ref → Process → Status → State → State
unfolding put write_cpu_process_data read_wall_end
final r p status s =
    let logged =
      if is_logged status then write_cpu_process_data p s.start_time s.end_time s else s in
    put r (timed p logged) (read_wall_end logged)

abbrev pub after_io : Process → ℤ → Process
after_io p burst = record p {
  io_time = p.io_time +ℤ burst;
  process_time = p.process_time +ℤ burst;
  io_index = suc p.io_index;
  status = ready;
}

module _ (ops : ThreadOps) where
  -- The I/O burst at the index, for a sleeping process.
  unfoldable pub do_io : Ref → Process → ℤ → State → State
  do_io r p burst s = to_ready ops r (after_io p burst) (update_global_counter burst s)

  unfoldable pub process_io : Ref → State → Run (Status × State)
  process_io r s = do
    p ← read (s.store r)
    if should_terminate p then ok (terminated, terminate r p s) else elim p.status [
      | sleep ↦ do
        burst ← read (get_elem? p.process_d.io_burst p.io_index)
        ok (ready, do_io r p burst s)
      | _ ↦ ok (undefined, s)
    ]

-- Whether a thread leaves its loop.
pub data Flow : Type 0 where
  leaves stays : Flow

-- `sem_trywait(&ready_count)` that succeeded, and `remove_from_readyQueue`.
unfoldable pub take_ready : State → State
unfolding dequeue
take_ready s =
    let (front, rest) = dequeue s.ready_queue in
    record s { ready_count = s.ready_count - 1; ready_queue = rest; running_pd = front }

unfoldable pub take_wait : State → State
unfolding dequeue
take_wait s =
    let (front, rest) = dequeue s.wait_queue in
    record s { wait_count = s.wait_count - 1; wait_queue = rest; sleeping_pd = front }

-- What a thread does with the reference that it took from a queue.
abbrev pub handle : Option Ref → (Ref → State → Run (Status × State)) → State → Run (Flow × State)
handle none process s = ok (stays, s)
handle (some r) process s = do (_, s') ← process r s; ok (stays, s')

-- One round of the loop of `schedular_*`, with `_process_cpu` handed in.
unfoldable pub schedular : (Ref → State → Run (Status × State)) → State → Run (Flow × State)
schedular process_cpu s =
    if leb s.total_process s.terminated_process
    then ok (leaves, s)
    else if all_processes_done s
    then ok (leaves, s)
    else if s.ready_count == 0
    then ok (stays, s)
    else let s' = take_ready s in handle s'.running_pd process_cpu s'

-- One round of the loop of `wakeUp_*`, with `_process_io` handed in.
unfoldable pub wake_up : (Ref → State → Run (Status × State)) → State → Run (Flow × State)
wake_up process_io s =
    if leb s.total_process s.terminated_process
    then ok (leaves, s)
    else if s.wait_count == 0
    then ok (stays, s)
    else let s' = take_wait s in handle s'.sleeping_pd process_io s'
