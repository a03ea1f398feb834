-- ===== src/Rr.antt =====
-- schedule_algorithms/rr: round robin. A burst runs for a quantum at most.
pub mod Loop
pub mod Accounts
pub mod Outcome
use cpu_schedular.Base.{
  ℕ, zero, suc, ◌+◌, ℤ, pos, negsuc, ◌+ℤ◌, ◌&&◌, none, some, List, Run, ok, out_of_fuel, ◌>>=◌,
  read, get_elem?, ltb, ltb_ℤ, if◌then◌else◌,
}
use cpu_schedular.Arrival.{add_arrival_process}
use cpu_schedular.Process.{Status, new, ready, sleep, terminated, BurstLine, Process}
use cpu_schedular.Queue.{Ref, enqueue, dequeue}
use cpu_schedular.Queue.Laws.{occurs-enqueue, length-enqueue}
use cpu_schedular.Sched.{
  ThreadOps, Flow, should_terminate, terminated_process, terminate, final, to_wait, to_ready,
  process_io, schedular, wake_up,
}
use cpu_schedular.Threads.{
  State, update_global_counter, read_global_counter, write_cpu_process_data, read_wall_start,
}

-- `init_rr_th` and the functions that it puts into the record.
abbrev pub ops : ThreadOps
ops = record {
  insert = λ r p q. enqueue r q;
  occurs-insert = λ r q p l. occurs-enqueue r q l;
  length-insert = λ q p l. length-enqueue q l;
}

-- The remaining time is the first CPU burst, a read out of bounds if there is none.
abbrev pub prepare_rr : Process → Run Process
prepare_rr p = do
  burst ← read (get_elem? p.process_d.cpu_burst zero)
  ok (record p { remaining_time = burst })

abbrev pub add_arrival_process_rr : ℕ → List BurstLine → State → Run State
add_arrival_process_rr = add_arrival_process ops prepare_rr

-- A tick of the CPU, as the process counts it.
abbrev pub tick : Process → Process
tick p = record p {
  cpu_time = p.cpu_time +ℤ pos 1;
  process_time = p.process_time +ℤ pos 1;
  remaining_time = p.remaining_time +ℤ negsuc 0;
}

-- `while (time < proc_time && time < quantum)`, which ends at the time that it returns.
unfoldable pub run_slice : ℕ → ℤ → ℕ → Process → State → Run (ℕ × Process × State)
run_slice zero proc_time time p s = out_of_fuel
run_slice (suc f) proc_time time p s =
    let rest = run_slice f proc_time (suc time) (tick p) (update_global_counter (pos 1) s) in
    if ltb_ℤ (pos time) proc_time && ltb time s.quantum then rest else ok (time, p, s)

-- The branch for a burst that is not finished: the process goes to the rear of the ready queue,
-- and the process at its front runs on in a call of the same function.
unfoldable pub preempt :
    (Ref → State → Run (Status × State)) → Ref → Process → State → Run (Status × State)
preempt again r p s =
    let back = record p { status = ready } in
    let logged = write_cpu_process_data back s.start_time s.end_time (to_ready ops r back s) in
    let (front, rest) = dequeue logged.ready_queue in
    do
      r' ← read front
      (status, t) ← again r' (record logged { ready_queue = rest; running_pd = some r' })
      current ← read t.running_pd
      p' ← read (t.store current)
      ok (status, final current p' status t)

-- The remaining time is that of the next burst, if there is one.
unfoldable pub next_burst : Process → Run Process
next_burst p =
    if ltb p.cpu_index p.process_d.cpu_burst_size
    then (do
      burst ← read (get_elem? p.process_d.cpu_burst p.cpu_index)
      ok (record p { remaining_time = burst }))
    else ok p

unfoldable pub finish_burst : Ref → Process → State → Run (Status × State)
finish_burst r p s = do
  next ← next_burst (record p { cpu_index = suc p.cpu_index })
  let asleep = record next { status = sleep }
  ok (sleep, final r asleep sleep (to_wait ops r asleep s))

-- The process runs, and then its burst is over or goes on later.
unfoldable pub run_burst :
    (Ref → State → Run (Status × State)) → Ref → Process → State → Run (Status × State)
run_burst again r p s = do
  (time, p', t) ←
      run_slice (suc s.quantum) p.remaining_time 0 p
        (record s { start_time = read_global_counter s })
  let stopped = record t { end_time = read_global_counter t }
  if ltb t.quantum time then preempt again r p' stopped else finish_burst r p' stopped

-- The fuel bounds the depth of the calls.
unfoldable pub process_cpu : ℕ → Ref → State → Run (Status × State)
process_cpu zero r s = out_of_fuel
process_cpu (suc f) r s = do
  p ← read (s.store r)
  let started = read_wall_start s
  if should_terminate p
      then ok (terminated, final r (terminated_process p) terminated (terminate r p started))
      else run_burst (process_cpu f) r p started

-- One call is deep enough, since the branch that calls again is never taken.
abbrev pub process_cpu_rr : Ref → State → Run (Status × State)
process_cpu_rr = process_cpu 1

abbrev pub process_io_rr : Ref → State → Run (Status × State)
process_io_rr = process_io ops

abbrev pub schedular_rr : State → Run (Flow × State)
schedular_rr = schedular process_cpu_rr

abbrev pub wake_up_rr : State → Run (Flow × State)
wake_up_rr = wake_up process_io_rr
