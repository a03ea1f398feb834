-- ===== src/Fifo.antt =====
-- schedule_algorithms/fifo: first come, first served. The queues are served in the order of
-- arrival.
use cpu_schedular.Arrival.{add_arrival_process}
use cpu_schedular.Batch.{process_cpu}
use cpu_schedular.Batch.Outcome.{whole_bursts, process_cpu-CpuOutcome}
use cpu_schedular.Base.{ℕ, List, Run, ok}
use cpu_schedular.Process.{Status, BurstLine, Process}
use cpu_schedular.Queue.{Ref, enqueue}
use cpu_schedular.Queue.Laws.{occurs-enqueue, length-enqueue}
use cpu_schedular.Sched.{ThreadOps, Flow, process_io, schedular, wake_up}
use cpu_schedular.Sched.Policy.{Policy, policy_of}
use cpu_schedular.Threads.{State}

-- `init_fcfs_th` and the functions that it puts into the record.
abbrev pub ops : ThreadOps
ops = record {
  insert = λ r p q. enqueue r q;
  occurs-insert = λ r q p l. occurs-enqueue r q l;
  length-insert = λ q p l. length-enqueue q l;
}

-- Nothing is set in a new process.
abbrev pub prepare_fifo : Process → Run Process
prepare_fifo p = ok p

abbrev pub add_arrival_process_fifo : ℕ → List BurstLine → State → Run State
add_arrival_process_fifo = add_arrival_process ops prepare_fifo

abbrev pub process_cpu_fifo : Ref → State → Run (Status × State)
process_cpu_fifo = process_cpu ops

abbrev pub process_io_fifo : Ref → State → Run (Status × State)
process_io_fifo = process_io ops

abbrev pub schedular_fifo : State → Run (Flow × State)
schedular_fifo = schedular process_cpu_fifo

abbrev pub wake_up_fifo : State → Run (Flow × State)
wake_up_fifo = wake_up process_io_fifo

abbrev pub policy : Policy
policy =
    policy_of whole_bursts ops (λ quantum burst. burst) process_cpu_fifo
      (process_cpu-CpuOutcome ops)
