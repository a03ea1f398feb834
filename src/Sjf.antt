-- ===== src/Sjf.antt =====
-- schedule_algorithms/sjf: the shortest job first. The queues are ordered by the priority of
-- a process, which is the length of its first CPU burst.
pub mod Order
use cpu_schedular.Arrival.{add_arrival_process}
use cpu_schedular.Batch.{process_cpu}
use cpu_schedular.Batch.Outcome.{whole_bursts, process_cpu-CpuOutcome}
use cpu_schedular.Base.{zero, Run, ok, ◌>>=◌, read, get_elem?, ℕ, List}
use cpu_schedular.Process.{Status, BurstLine, Process}
use cpu_schedular.Queue.{Ref, p_enqueue}
use cpu_schedular.Queue.Laws.{occurs-p_enqueue, length-p_enqueue}
use cpu_schedular.Sched.{ThreadOps, Flow, process_io, schedular, wake_up}
use cpu_schedular.Sched.Policy.{Policy, policy_of}
use cpu_schedular.Threads.{State}

-- `init_sjf_th` and the functions that it puts into the record.
abbrev pub ops : ThreadOps
ops = record {
  insert = λ r p q. p_enqueue r p.priority q;
  occurs-insert = λ r q p l. occurs-p_enqueue r q p.priority l;
  length-insert = λ q p l. length-p_enqueue q p.priority l;
}

-- The priority is the length of the first CPU burst, a read out of bounds if there is none.
abbrev pub prepare_sjf : Process → Run Process
prepare_sjf p = do
  burst ← read (get_elem? p.process_d.cpu_burst zero)
  ok (record p { priority = burst })

abbrev pub add_arrival_process_sjf : ℕ → List BurstLine → State → Run State
add_arrival_process_sjf = add_arrival_process ops prepare_sjf

abbrev pub process_cpu_sjf : Ref → State → Run (Status × State)
process_cpu_sjf = process_cpu ops

abbrev pub process_io_sjf : Ref → State → Run (Status × State)
process_io_sjf = process_io ops

abbrev pub schedular_sjf : State → Run (Flow × State)
schedular_sjf = schedular process_cpu_sjf

abbrev pub wake_up_sjf : State → Run (Flow × State)
wake_up_sjf = wake_up process_io_sjf

abbrev pub policy : Policy
policy =
    policy_of whole_bursts ops (λ quantum burst. burst) process_cpu_sjf (process_cpu-CpuOutcome ops)
