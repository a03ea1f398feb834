-- ===== src/Sched/Lifecycle.antt =====
-- The life of a process between the two queues: what is true of it in each of them, and what a
-- step of a thread may do with it.
use cpu_schedular.Base.{
  List, [], ◌∷◌, ℕ, suc, ◌+◌, ◌-◌, ◌*◌, ◌<◌, ◌≤◌, ◌≡◌, ◌≢◌, ◌⊎◌, ℤ, ◌+ℤ◌, sum, some, length, take,
}
use cpu_schedular.Process.{Status, new, ready, sleep, terminated, BurstLine, Process}
use cpu_schedular.Queue.{Ref}
use cpu_schedular.Sched.{ThreadOps, terminated_process}
use cpu_schedular.Threads.{State}
use cpu_schedular.Time.{Timespec}

-- The bursts of a line alternate, and begin with one of the CPU.
pub record IsWellFormed (d : BurstLine) : Type 0 where
  pub cpu_size : d.cpu_burst_size ≡ length d.cpu_burst
  pub io_size : d.io_burst_size ≡ length d.io_burst
  pub io_le_cpu : d.io_burst_size ≤ d.cpu_burst_size
  pub cpu_le_io : d.cpu_burst_size ≤ suc d.io_burst_size

-- So do those of every line.
abbrev pub AllWellFormed : List BurstLine → Type 0
AllWellFormed [] = Unit {0}
AllWellFormed (d ∷ ds) = IsWellFormed d × AllWellFormed ds

-- What differs between the schedulers: which CPU time a process has had after so many bursts, under
-- a quantum, and what its remaining time stands for.
pub record Accounting : Type 1 where
  pub Served : ℕ → BurstLine → ℕ → ℤ → Type 0
  pub Prepared : BurstLine → ℕ → ℤ → Type 0

module _ (acc : Accounting) (quantum : ℕ) where
  pub record Accounts (p : Process) : Type 0 where
    pub well_formed : IsWellFormed p.process_d
    pub cpu : acc.Served quantum p.process_d p.cpu_index p.cpu_time
    pub io : p.io_time ≡ sum (take p.io_index p.process_d.io_burst)
    pub total : p.process_time ≡ p.cpu_time +ℤ p.io_time
    pub prepared : acc.Prepared p.process_d p.cpu_index p.remaining_time

  -- In the ready queue, as many bursts of each kind are over.
  pub record IsReady (p : Process) : Type 0 where
    pub accounts : Accounts p
    pub status : (p.status ≡ new) × (p.cpu_index ≡ 0) ⊎ (p.status ≡ ready)
    pub indices : p.io_index ≡ p.cpu_index

  -- In the wait queue, one more CPU burst is over than I/O bursts.
  pub record IsAsleep (p : Process) : Type 0 where
    pub accounts : Accounts p
    pub status : p.status ≡ sleep
    pub indices : p.cpu_index ≡ suc p.io_index

  -- A terminated process has been through all of its bursts.
  pub record IsDone (p : Process) : Type 0 where
    pub accounts : Accounts p
    pub status : p.status ≡ terminated
    pub cpu_over : p.process_d.cpu_burst_size ≤ p.cpu_index
    pub io_over : p.process_d.io_burst_size ≤ p.io_index
    pub turnaround : p.turnaround_time ≡ p.process_time

-- The accounts do not depend on the status and the turnaround time.
pub terminated-Accounts :
    (acc : Accounting) (quantum : ℕ) (p : Process)
    → Accounts acc quantum p
    → Accounts acc quantum (terminated_process p)
terminated-Accounts acc quantum p a = record {
  well_formed = a.well_formed;
  cpu = a.cpu;
  io = a.io;
  total = a.total;
  prepared = a.prepared;
}

-- The step from `s` to `t` writes to the process `r` alone, which is `p` then.
pub record Writes (r : Ref) (p : Process) (s t : State) : Type 0 where
  pub here : t.store r ≡ some p
  pub elsewhere : (q : Ref) → q ≢ r → t.store q ≡ s.store q
  pub t_process : t.t_process ≡ s.t_process
  pub total_process : t.total_process ≡ s.total_process
  pub quantum : t.quantum ≡ s.quantum
  pub task_list : t.task_list ≡ s.task_list

-- The process goes to the wait queue, to the ready queue, or to neither. It is inserted as it is
-- afterwards, but perhaps with another wall time, which is read at the very end.
pub record Sleeps (ops : ThreadOps) (r : Ref) (p : Process) (s t : State) : Type 0 where
  pub writes : Writes r p s t
  pub ready_queue : t.ready_queue ≡ s.ready_queue
  pub ready_count : t.ready_count ≡ s.ready_count
  pub wait_queue :
      (w : Timespec) × (t.wait_queue ≡ ops.insert r (record p { wall_time = w }) s.wait_queue)
  pub wait_count : t.wait_count ≡ suc s.wait_count
  pub terminated_process : t.terminated_process ≡ s.terminated_process

pub record Wakes (ops : ThreadOps) (r : Ref) (p : Process) (s t : State) : Type 0 where
  pub writes : Writes r p s t
  pub ready_queue :
      (w : Timespec) × (t.ready_queue ≡ ops.insert r (record p { wall_time = w }) s.ready_queue)
  pub ready_count : t.ready_count ≡ suc s.ready_count
  pub wait_queue : t.wait_queue ≡ s.wait_queue
  pub wait_count : t.wait_count ≡ s.wait_count
  pub terminated_process : t.terminated_process ≡ s.terminated_process

pub record Ends (r : Ref) (p : Process) (s t : State) : Type 0 where
  pub writes : Writes r p s t
  pub ready_queue : t.ready_queue ≡ s.ready_queue
  pub ready_count : t.ready_count ≡ s.ready_count
  pub wait_queue : t.wait_queue ≡ s.wait_queue
  pub wait_count : t.wait_count ≡ s.wait_count
  pub terminated_process : t.terminated_process ≡ suc s.terminated_process

-- How many more bursts a process may have, and one more for its end.
abbrev pub work : Status → Process → ℕ
work terminated p = 0
work _ p = suc (2 * p.process_d.cpu_burst_size - (p.cpu_index + p.io_index))

-- The process goes on with its work, and keeps its number and its line.
pub record Forward (p p' : Process) : Type 0 where
  pub less : work p'.status p' < work p.status p
  pub pid : p'.pid ≡ p.pid
  pub process_d : p'.process_d ≡ p.process_d

-- What a round of a thread does with the process `p` that it holds.
pub data Outcome (acc : Accounting) (ops : ThreadOps) (r : Ref) (p : Process) (s t : State)
    : Type 0 where
  sleeps :
      (p' : Process)
      → Sleeps ops r p' s t
      → IsAsleep acc s.quantum p'
      → Forward p p'
      → Outcome acc ops r p s t
  wakes :
      (p' : Process)
      → Wakes ops r p' s t
      → IsReady acc s.quantum p'
      → Forward p p'
      → Outcome acc ops r p s t
  ends :
      (p' : Process)
      → Ends r p' s t
      → IsDone acc s.quantum p'
      → Forward p p'
      → Outcome acc ops r p s t
