-- ===== src/Threads.antt =====
-- main.c and schedule_algorithms/thread_op.c: the variables that the threads share, and
-- the operations on them. The store of processes is what the references point to; the readings of
-- the wall clock are a sequence that the model is given.
use cpu_schedular.Base.{
  ℕ, suc, ◌+◌, ℤ, pos, ◌+ℤ◌, Bool, ◌&&◌, Option, none, some, List, [], ◌∷◌, ◌++◌, leb, ◌==◌,
  if◌then◌else◌,
}
use cpu_schedular.Process.{Process, BurstLine, create_process}
use cpu_schedular.Queue.{Ref, Queue, is_empty}
use cpu_schedular.Time.{Timespec, Timer}

-- A line of the log file `task_log.txt`, which `write_process_data` prints.
pub record LogLine : Type 0 where
  pub pid : ℕ
  pub cpu_index : ℕ
  pub start : ℤ
  pub end : ℤ

pub record State : Type 0 where
  pub store : Ref → Option Process
  pub ready_queue : Queue
  pub wait_queue : Queue
  pub task_list : Queue
  pub global_counter : ℤ
  pub t_process : ℕ
  pub total_process : ℕ
  pub terminated_process : ℕ
  pub ready_count : ℕ
  pub wait_count : ℕ
  pub running_pd : Option Ref
  pub sleeping_pd : Option Ref
  pub start_time : ℤ
  pub end_time : ℤ
  pub quantum : ℕ
  pub task_log : List LogLine
  pub wall_timer : Timer
  pub clock : ℕ → Timespec
  pub clock_reads : ℕ

abbrev pub update : (Ref → Option Process) → Ref → Process → Ref → Option Process
update f r p q = if q == r then some p else f q

-- What stays of a process: its number and its line.
abbrev pub identity : Option Process → Option (ℕ × BurstLine)
identity none = none
identity (some p) = some (p.pid, p.process_d)

-- A write to the process behind a reference.
unfoldable pub put : Ref → Process → State → State
put r p s = record s { store = update s.store r p }

unfoldable pub update_global_counter : ℤ → State → State
update_global_counter val s = record s { global_counter = s.global_counter +ℤ val }

unfoldable pub update_term_counter : ℕ → State → State
update_term_counter val s = record s { terminated_process = s.terminated_process + val }

abbrev pub read_global_counter : State → ℤ
read_global_counter s = s.global_counter

unfoldable pub read_term_counter : State → ℕ
read_term_counter s = s.terminated_process

unfoldable pub is_empty_ready_queue_t : State → Bool
unfolding is_empty
is_empty_ready_queue_t s = is_empty s.ready_queue

unfoldable pub is_empty_wait_queue_t : State → Bool
unfolding is_empty
is_empty_wait_queue_t s = is_empty s.wait_queue

unfoldable pub all_processes_done : State → Bool
unfolding read_term_counter is_empty_ready_queue_t is_empty_wait_queue_t
all_processes_done s =
    leb s.total_process (read_term_counter s) && is_empty_ready_queue_t s && is_empty_wait_queue_t s

-- One line of the log, with the process as it is by now.
unfoldable pub write_cpu_process_data : Process → ℤ → ℤ → State → State
write_cpu_process_data p start end s = record s {
  task_log =
      s.task_log ++ record { pid = p.pid; cpu_index = p.cpu_index; start = start; end = end } ∷ [];
}

unfoldable pub post_ready : State → State
post_ready s = record s { ready_count = suc s.ready_count }

unfoldable pub post_wait : State → State
post_wait s = record s { wait_count = suc s.wait_count }

-- `clock_gettime(CLOCK_REALTIME, …)`.
unfoldable pub read_wall_start : State → State
read_wall_start s = record s {
  wall_timer = record { start = s.clock s.clock_reads; end = s.wall_timer.end };
  clock_reads = suc s.clock_reads;
}

unfoldable pub read_wall_end : State → State
read_wall_end s = record s {
  wall_timer = record { start = s.wall_timer.start; end = s.clock s.clock_reads };
  clock_reads = suc s.clock_reads;
}

-- `create_process`: the reference of the new process is the value of `T_PROCESS`.
unfoldable pub create : BurstLine → State → Process × State
unfolding create_process
create d s = (
  record (create_process s.t_process) { process_d = d },
  record s { t_process = suc s.t_process },
)

unfoldable pub init_queues : State → State
init_queues s = record s { ready_queue = []; wait_queue = []; task_list = [] }

-- What `main` has set up when it starts the arrival thread.
unfoldable pub init : ℕ → (ℕ → Timespec) → State
unfolding init_queues
init total clock = init_queues (record {
  store = λ r. none;
  ready_queue = [];
  wait_queue = [];
  task_list = [];
  global_counter = pos 0;
  t_process = 0;
  total_process = total;
  terminated_process = 0;
  ready_count = 0;
  wait_count = 0;
  running_pd = none;
  sleeping_pd = none;
  start_time = pos 0;
  end_time = pos 0;
  quantum = 50;
  task_log = [];
  wall_timer = record { start = epoch; end = epoch };
  clock = clock;
  clock_reads = 0;
})
  where
    epoch : Timespec
    epoch = record { tv_sec = pos 0; tv_nsec = pos 0 }
