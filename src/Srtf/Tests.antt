-- ===== src/Srtf/Tests.antt =====
-- Runs of the shortest remaining time first on concrete lines.
use cpu_schedular.Arrival.{add_arrival_process}
use cpu_schedular.Arrival.Arrived.{Arrived}
use cpu_schedular.Arrival.Loop.{add_arrival_process-Arrived}
use cpu_schedular.Base.{
  ◌≡◌, ℕ, refl, pos, ℤ, List, [], ◌∷◌, Returns, arith, Run, ok, ◌>>=◌, Option, some, none, zero,
  suc, ◌++◌,
}
use cpu_schedular.Main.{simulate}
use cpu_schedular.Main.Preempted.{srtf_accepted}
use cpu_schedular.Main.Start.{init-Inv, init-IsListed}
use cpu_schedular.Main.Tests.{
  short_line, long_line, two_lines, four_rounds, still_clock, passes, two_lines-AllWellFormed,
}
use cpu_schedular.Process.{BurstLine, Process}
use cpu_schedular.Queue.{Item, Queue}
use cpu_schedular.Sched.{take_ready}
use cpu_schedular.Sched.Lifecycle.{IsReady}
use cpu_schedular.Sched.Progress.{Progress}
use cpu_schedular.Sched.Rounds.{take_ready-front}
use cpu_schedular.Sched.Take.{Takes, take_ready-Takes}
use cpu_schedular.Simulation.{Turn, scheduler, wakeup}
use cpu_schedular.Srtf.{ops, prepare_srtf, process_cpu_srtf}
use cpu_schedular.Srtf.Depth.{policy, process_cpu_srtf-Progress}
use cpu_schedular.Srtf.Steps.{runs}
use cpu_schedular.Threads.{State, init}

-- The state after the arrival of both lines.
abbrev arrived :
    Returns
      (Arrived runs two_lines (init 2 still_clock))
      (add_arrival_process ops prepare_srtf 4 two_lines (init 2 still_clock))
unfolding init
arrived =
    add_arrival_process-Arrived runs ops prepare_srtf 4 short_line (long_line ∷ [])
      (init 2 still_clock) four_rounds
      (srtf_accepted two_lines two_lines-AllWellFormed (omega arith, (omega arith, tt)))
      (init-Inv 2 still_clock runs) (init-IsListed 2 still_clock)

abbrev start : State
start = arrived.0

abbrev front : Item
front = record { task = 1; priority = pos 3 }

abbrev behind : Queue
behind = record { task = 0; priority = pos 5 } ∷ []

arrived-queue :
    (do t ← add_arrival_process ops prepare_srtf 4 two_lines (init 2 still_clock); ok t.ready_queue)
    ≡ ok (front ∷ behind)
unfolding add_arrival_process cpu_schedular.Arrival.arrivals init cpu_schedular.Arrival.arrive
    cpu_schedular.Threads.create cpu_schedular.Threads.update_global_counter cpu_schedular.Base.◌+ℤ◌
    cpu_schedular.Arrival.admit cpu_schedular.Queue.p_enqueue cpu_schedular.Process.create_process
    cpu_schedular.Sched.add_to_ready_queue cpu_schedular.Sched.add_to_task_list
    cpu_schedular.Threads.post_ready cpu_schedular.Threads.put
arrived-queue = refl

start-queue : start.ready_queue ≡ front ∷ behind
start-queue =
    let is = arrived.1 in
    let same : ok start.ready_queue ≡ ok (front ∷ behind) = rw is at arrived-queue in cc

abbrev taken : Takes runs (take_ready start) 1 (IsReady runs start.quantum)
taken = take_ready-Takes runs start front behind arrived.2.inv start-queue

-- The process of the second line runs first, with a burst of 3.
process_cpu_srtf-Progress_example :
    Returns
      (λ (status, t). Progress runs (take_ready start) t)
      (process_cpu_srtf 1 (take_ready start))
unfolding take_ready arrived
process_cpu_srtf-Progress_example =
    process_cpu_srtf-Progress 1 (take_ready start) taken.1.0 taken.0
      (take_ready-front start front behind process_cpu_srtf start-queue) taken.1.1 taken.1.2

abbrev brief : BurstLine
brief = record {
  cpu_burst = pos 3 ∷ [];
  io_burst = pos 1 ∷ [];
  a_time = pos 0;
  cpu_burst_size = 1;
  io_burst_size = 1;
}

abbrev restarted : BurstLine
restarted = record {
  cpu_burst = pos 5 ∷ pos 2 ∷ [];
  io_burst = pos 1 ∷ [];
  a_time = pos 0;
  cpu_burst_size = 2;
  io_burst_size = 1;
}

abbrev cpu_time : Option Process → ℤ
cpu_time none = pos 0
cpu_time (some p) = p.cpu_time

abbrev cpu_times : Run State → Run (ℤ × ℤ)
cpu_times run = do t ← run; ok (cpu_time (t.store 0), cpu_time (t.store 1))

abbrev both_bursts : List (List Turn)
both_bursts = (scheduler ∷ scheduler ∷ wakeup ∷ wakeup ∷ []) ∷ passes 6

-- The second burst of the second line, 2 ticks, gives way to its own process after one tick and is
-- run again: the CPU time is 8, for bursts of 5 and 2.
restarted_time :
    cpu_times (simulate policy prepare_srtf still_clock 3 (brief ∷ restarted ∷ []) both_bursts)
    ≡ ok (pos 3, pos 8)
unfolding simulate add_arrival_process cpu_schedular.Arrival.arrivals init
    cpu_schedular.Arrival.arrive cpu_schedular.Threads.create
    cpu_schedular.Threads.update_global_counter cpu_schedular.Base.◌+ℤ◌ cpu_schedular.Arrival.admit
    cpu_schedular.Simulation.run cpu_schedular.Simulation.join cpu_schedular.Simulation.turn
    cpu_schedular.Sched.schedular cpu_schedular.Threads.all_processes_done take_ready
    cpu_schedular.Queue.p_enqueue process_cpu_srtf cpu_schedular.Srtf.process_cpu
    cpu_schedular.Base.◌-ℤ◌ cpu_schedular.Process.create_process cpu_schedular.Queue.dequeue
    cpu_schedular.Queue.is_empty cpu_schedular.Sched.add_to_ready_queue
    cpu_schedular.Sched.add_to_task_list cpu_schedular.Sched.add_to_wait_queue
    cpu_schedular.Sched.do_io cpu_schedular.Sched.final cpu_schedular.Sched.process_io
    cpu_schedular.Sched.should_terminate cpu_schedular.Sched.take_wait cpu_schedular.Sched.terminate
    cpu_schedular.Sched.to_ready cpu_schedular.Sched.to_wait cpu_schedular.Sched.wake_up
    cpu_schedular.Srtf.depth cpu_schedular.Srtf.finish_burst cpu_schedular.Srtf.give_way
    cpu_schedular.Srtf.least_remaining cpu_schedular.Srtf.next_burst cpu_schedular.Srtf.run_burst
    cpu_schedular.Srtf.run_ticks cpu_schedular.Srtf.simulate_srtf cpu_schedular.Srtf.swap
    cpu_schedular.Srtf.tick_srtf cpu_schedular.Threads.post_ready cpu_schedular.Threads.post_wait
    cpu_schedular.Threads.put cpu_schedular.Threads.read_wall_end
    cpu_schedular.Threads.read_wall_start cpu_schedular.Threads.update_term_counter
    cpu_schedular.Threads.write_cpu_process_data cpu_schedular.Time.diff_timespec
    cpu_schedular.Time.timespec_add
restarted_time = refl
