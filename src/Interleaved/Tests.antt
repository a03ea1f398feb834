-- ===== src/Interleaved/Tests.antt =====
-- The two threads step by step on two lines of input, and the theorems on them.
use cpu_schedular.Base.{
  ◌+ℤ◌, ◌-ℤ◌, ℕ, zero, suc, ◌≡◌, refl, List, [], ◌∷◌, Returns, arith, ok, ◌>>=◌,
}
use cpu_schedular.Batch.Outcome.{whole_bursts}
use cpu_schedular.Batch.{spend}
use cpu_schedular.Arrival.{add_arrival_process, arrivals, arrive, admit}
use cpu_schedular.Process.{create_process}
use cpu_schedular.Queue.{enqueue, dequeue, is_empty}
use cpu_schedular.Threads.{
  init, create, put, all_processes_done, post_ready, post_wait, read_wall_start, read_wall_end,
  update_global_counter, update_term_counter, write_cpu_process_data,
}
use cpu_schedular.Time.{diff_timespec, timespec_add}
use cpu_schedular.Fifo
use cpu_schedular.Interleaved.{
  left, step, steps, cpu_step, io_step, hold_cpu, hold_io, burst_step, try_ready, pop_ready,
  try_wait, pop_wait,
}
use cpu_schedular.Interleaved.Batch.{policy}
use cpu_schedular.Interleaved.Rr
use cpu_schedular.Rr.{prepare_rr}
use cpu_schedular.Interleaved.Finish.{IsFair, steps-Finished}
use cpu_schedular.Interleaved.Places.{IsSafe, steps-IsSafe}
use cpu_schedular.Interleaved.Safety.{started}
use cpu_schedular.Main.Served.{AllServed, cpu_total, slice_total}
use cpu_schedular.Main.Steps.{
  simulate_steps, fifo_steps-AllServed, sjf_steps-AllServed, rr_steps-AllServed,
}
use cpu_schedular.Main.Tests.{
  short_line, long_line, two_lines, still_clock, four_rounds, two_lines-AllWellFormed, start,
  start-Arrived, start-total, start-work,
}
use cpu_schedular.Sched.{
  add_to_ready_queue, add_to_task_list, add_to_wait_queue, final, should_terminate, terminate,
}
use cpu_schedular.Sched.Progress.{Round}
use cpu_schedular.Simulation.{Turn, scheduler, wakeup, join}
use cpu_schedular.Simulation.Finish.{Finished}
use cpu_schedular.Sjf

-- The threads do not step evenly.
abbrev uneven : List Turn
uneven = scheduler ∷ scheduler ∷ wakeup ∷ scheduler ∷ wakeup ∷ wakeup ∷ wakeup ∷ []

abbrev passes : ℕ → List (List Turn)
passes zero = []
passes (suc n) = uneven ∷ passes n

abbrev long_run : List (List Turn)
long_run = passes 112

passes-IsFair : (n : ℕ) → IsFair (passes n)
passes-IsFair zero = tt
passes-IsFair (suc n) = (omega arith, omega arith, passes-IsFair n)

fifo_steps-AllServed_example :
    Returns
      (λ y. (y.cpu ≡ left) × (y.io ≡ left) × AllServed cpu_total 0 two_lines y.shared)
      (simulate_steps (policy Fifo.ops) Fifo.prepare_fifo still_clock 4 two_lines long_run)
fifo_steps-AllServed_example =
    fifo_steps-AllServed still_clock 4 short_line (long_line ∷ []) long_run four_rounds
      (passes-IsFair 112) (omega arith) two_lines-AllWellFormed

sjf_steps-AllServed_example :
    Returns
      (λ y. (y.cpu ≡ left) × (y.io ≡ left) × AllServed cpu_total 0 two_lines y.shared)
      (simulate_steps (policy Sjf.ops) Sjf.prepare_sjf still_clock 4 two_lines long_run)
sjf_steps-AllServed_example =
    sjf_steps-AllServed still_clock 4 short_line (long_line ∷ []) long_run four_rounds
      (passes-IsFair 112) (omega arith) two_lines-AllWellFormed (omega arith, (omega arith, tt))

rr_steps-AllServed_example :
    Returns
      (λ y. (y.cpu ≡ left) × (y.io ≡ left) × AllServed slice_total 0 two_lines y.shared)
      (simulate_steps Rr.policy prepare_rr still_clock 4 two_lines long_run)
rr_steps-AllServed_example =
    rr_steps-AllServed still_clock 4 short_line (long_line ∷ []) long_run four_rounds
      (passes-IsFair 112) (omega arith) two_lines-AllWellFormed (omega arith, (omega arith, tt))

steps-Finished_example :
    Returns
      (λ y.
        (y.cpu ≡ left)
        × (y.io ≡ left)
        × Round whole_bursts start y.shared
        × Finished whole_bursts y.shared)
      (steps Fifo.ops hold_cpu (join long_run) (started start))
steps-Finished_example =
    steps-Finished (policy Fifo.ops) long_run start start-Arrived.inv start-total
      (passes-IsFair 112) (omega (arith, start-work))

steps-IsSafe_example : Returns IsSafe (steps Fifo.ops hold_cpu uneven (started start))
steps-IsSafe_example = steps-IsSafe (policy Fifo.ops) uneven start start-Arrived.inv

-- In ten passes of uneven steps the run is over.
run_over :
    (do
      y ← simulate_steps (policy Fifo.ops) Fifo.prepare_fifo still_clock 4 two_lines (passes 10)
      ok y.shared.terminated_process)
    ≡ ok 2
unfolding simulate_steps steps step cpu_step io_step join init enqueue hold_cpu hold_io spend
    burst_step try_ready pop_ready try_wait pop_wait create create_process dequeue is_empty
    all_processes_done add_to_ready_queue add_to_task_list add_to_wait_queue final should_terminate
    terminate post_ready post_wait put read_wall_end read_wall_start update_global_counter
    update_term_counter write_cpu_process_data add_arrival_process arrivals arrive admit
    diff_timespec timespec_add ◌+ℤ◌ ◌-ℤ◌
run_over = refl
