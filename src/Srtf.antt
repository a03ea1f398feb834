-- ===== src/Srtf.antt =====
-- schedule_algorithms/srtf: the shortest remaining time first. After each tick the running process
-- gives way if the front of the ready queue has less time left.
pub mod Ticks
pub mod Swap
pub mod Steps
pub mod Burst
pub mod Nested
pub mod Outcome
pub mod Depth
pub mod Tests
use cpu_schedular.Arrival.{add_arrival_process}
use cpu_schedular.Base.{
  ℕ, zero, suc, ℤ, pos, pos_part, ◌-ℤ◌, Bool, true, false, none, some, Option, List, [], ◌∷◌, Run,
  ok, out_of_fuel, ◌>>=◌, read, get_elem?, ltb, ltb_ℤ, if◌then◌else◌,
}
use cpu_schedular.Process.{Status, ready, sleep, terminated, BurstLine, Process}
use cpu_schedular.Queue.{Ref, Queue, p_enqueue, dequeue}
use cpu_schedular.Queue.Laws.{occurs-p_enqueue, length-p_enqueue}
use cpu_schedular.Rr.{tick}
use cpu_schedular.Sched.{
  ThreadOps, Flow, should_terminate, terminated_process, terminate, final, to_wait,
  add_to_ready_queue, process_io, schedular, wake_up,
}
use cpu_schedular.Threads.{
  State, put, update_global_counter, read_global_counter, write_cpu_process_data, read_wall_start,
}

-- `init_srtf_th` and the functions that it puts into the record.
abbrev pub ops : ThreadOps
ops = record {
  insert = λ r p q. p_enqueue r p.priority q;
  occurs-insert = λ r q p l. occurs-p_enqueue r q p.priority l;
  length-insert = λ q p l. length-p_enqueue q p.priority l;
}

-- The priority and the remaining time are the first CPU burst, a read out of bounds if there is
-- none.
abbrev pub prepare_srtf : Process → Run Process
prepare_srtf p = do
  burst ← read (get_elem? p.process_d.cpu_burst zero)
  ok (record p { priority = burst; remaining_time = burst })

abbrev pub add_arrival_process_srtf : ℕ → List BurstLine → State → Run State
add_arrival_process_srtf = add_arrival_process ops prepare_srtf

-- `_simulate_srtf`: whether the front of the ready queue has less time left than the running
-- process.
unfoldable pub simulate_srtf : State → Run Bool
simulate_srtf s = elim s.running_pd [
  | none ↦ ok false
  | some r ↦ elim s.ready_queue [
    | [] ↦ ok false
    | x ∷ q ↦ do
      front ← read (s.store x.task)
      running ← read (s.store r)
      ok (ltb_ℤ front.remaining_time running.remaining_time)
  ]
]

-- A round of `while (time < proc_time)`, up to its test.
unfoldable pub tick_srtf : Ref → Process → State → State
unfolding put update_global_counter
tick_srtf r p s = put r (tick p) (update_global_counter (pos 1) s)

-- The loop, by the rounds that are left; whether it is left for `swap`.
unfoldable pub run_ticks : ℕ → Ref → Process → State → Run (Bool × Process × State)
unfolding tick_srtf
run_ticks zero r p s = ok (false, p, s)
run_ticks (suc n) r p s = do
  triggered ← simulate_srtf (tick_srtf r p s)
  elim triggered [
    | true ↦ ok (true, tick p, tick_srtf r p s)
    | false ↦ run_ticks n r (tick p) (tick_srtf r p s)
  ]

-- The priority and the remaining time are those of the next burst, if there is one.
unfoldable pub next_burst : Process → Run Process
next_burst p =
    if ltb p.cpu_index p.process_d.cpu_burst_size
    then (do
      burst ← read (get_elem? p.process_d.cpu_burst p.cpu_index)
      ok (record p { priority = burst; remaining_time = burst }))
    else ok p

unfoldable pub finish_burst : Ref → Process → State → Run (Status × State)
finish_burst r p s = do
  next ← next_burst (record p { cpu_index = suc p.cpu_index })
  let asleep = record next { status = sleep }
  ok (sleep, final r asleep sleep (to_wait ops r asleep s))

-- The process as it goes back to the ready queue.
abbrev pub preempted : Process → Process
preempted p = record p { priority = p.remaining_time; status = ready }

-- `swap`: the process goes back to the ready queue, and the front of the queue runs in a call of
-- the same function. No semaphore is touched.
unfoldable pub give_way : Ref → Process → State → State
unfolding put add_to_ready_queue
give_way r p s = add_to_ready_queue ops r (preempted p) (put r (preempted p) s)

unfoldable pub swap :
    (Ref → State → Run (Status × State)) → Ref → Process → State → Run (Status × State)
unfolding dequeue
swap again r p s =
    let back = give_way r p s in
    let (front, rest) = dequeue back.ready_queue in
    do
      r' ← read front
      (status, t) ← again r' (record back { ready_queue = rest; running_pd = some r' })
      current ← read t.running_pd
      p' ← read (t.store current)
      ok (status, final current p' status t)

-- A burst runs from its beginning, also if the process has given way before.
unfoldable pub run_burst :
    (Ref → State → Run (Status × State)) → Ref → Process → State → Run (Status × State)
run_burst again r p s = do
  proc_time ← read (get_elem? p.process_d.cpu_burst p.cpu_index)
  (triggered, p', t) ←
      run_ticks (pos_part proc_time) r p (record s { start_time = read_global_counter s })
  let ended = record t { end_time = read_global_counter t }
  elim triggered [
    | true ↦ swap again r p' (write_cpu_process_data p' ended.start_time ended.end_time ended)
    | false ↦ finish_burst r p' ended
  ]

-- The fuel bounds the depth of the calls.
unfoldable pub process_cpu : ℕ → Ref → State → Run (Status × State)
process_cpu zero r s = out_of_fuel
process_cpu (suc f) r s = do
  p ← read (s.store r)
  let started = read_wall_start s
  if should_terminate p
      then ok (terminated, final r (terminated_process p) terminated (terminate r p started))
      else run_burst (process_cpu f) r p started

-- The least remaining time in a queue, or `m` if that is less.
abbrev pub lesser : Option Process → ℤ → ℤ
lesser none rest = rest
lesser (some p) rest = if ltb_ℤ p.remaining_time rest then p.remaining_time else rest

unfoldable pub least_remaining : (Ref → Option Process) → ℤ → Queue → ℤ
least_remaining store m [] = m
least_remaining store m (x ∷ q) = lesser (store x.task) (least_remaining store m q)

-- How deep the calls can get: a process that gives way leaves the CPU to one with less time left.
unfoldable pub depth : Ref → State → ℕ
depth r s = elim (s.store r) [
  | none ↦ 1
  | some p ↦
      suc (pos_part (p.remaining_time -ℤ least_remaining s.store p.remaining_time s.ready_queue))
]

unfoldable pub process_cpu_srtf : Ref → State → Run (Status × State)
process_cpu_srtf r s = process_cpu (depth r s) r s

abbrev pub process_io_srtf : Ref → State → Run (Status × State)
process_io_srtf = process_io ops

abbrev pub schedular_srtf : State → Run (Flow × State)
schedular_srtf = schedular process_cpu_srtf

abbrev pub wake_up_srtf : State → Run (Flow × State)
wake_up_srtf = wake_up process_io_srtf
