-- ===== src/Main/Tests.antt =====
-- Runs of the simulator on two lines of input, and the theorems on them.
use cpu_schedular.Arrival.{add_arrival_process, rounds_needed}
use cpu_schedular.Arrival.Arrived.{Arrived}
use cpu_schedular.Arrival.Loop.{add_arrival_process-Arrived}
use cpu_schedular.Base.{
  ℕ, zero, suc, ◌≤◌, ◌≡◌, refl, sym, ◌∙◌, inl, inr, pos, List, [], ◌∷◌, Returns, arith,
}
use cpu_schedular.Batch.Outcome.{whole_bursts}
use cpu_schedular.Fifo
use cpu_schedular.Main.{simulate}
use cpu_schedular.Main.Correct.{Simulated, simulate-Simulated}
use cpu_schedular.Main.Served.{
  AllServed, AllTimed, cpu_total, slice_total, fifo_accepted, fifo-AllServed, sjf-AllServed,
  rr-AllServed,
}
use cpu_schedular.Main.Preempted.{HasRun, srtf-AllServed}
use cpu_schedular.Main.Start.{init-Inv, init-IsListed, state_work-le}
use cpu_schedular.Process.{BurstLine}
use cpu_schedular.Rr
use cpu_schedular.Rr.Outcome
use cpu_schedular.Sched.{schedular}
use cpu_schedular.Sched.Lifecycle.{IsWellFormed, AllWellFormed}
use cpu_schedular.Sched.Progress.{Round}
use cpu_schedular.Sched.Rounds.{Rounds, CanSchedule, schedular-Rounds}
use cpu_schedular.Sched.Work.{state_work}
use cpu_schedular.Simulation.{Turn, scheduler, wakeup, run, join}
use cpu_schedular.Simulation.Finish.{Finished, IsFair, run-Finished}
use cpu_schedular.Sjf
use cpu_schedular.Srtf
use cpu_schedular.Srtf.Depth
use cpu_schedular.Threads.{State, init}
use cpu_schedular.Time.{Timespec}

-- The lines `0 5 -1` and `1 3 2 60 -1` of an input file.
abbrev pub short_line : BurstLine
short_line = record {
  cpu_burst = pos 5 ∷ [];
  io_burst = [];
  a_time = pos 0;
  cpu_burst_size = 1;
  io_burst_size = 0;
}

abbrev pub long_line : BurstLine
long_line = record {
  cpu_burst = pos 3 ∷ pos 60 ∷ [];
  io_burst = pos 2 ∷ [];
  a_time = pos 1;
  cpu_burst_size = 2;
  io_burst_size = 1;
}

abbrev pub two_lines : List BurstLine
two_lines = short_line ∷ long_line ∷ []

abbrev pub still_clock : ℕ → Timespec
still_clock n = record { tv_sec = pos 7; tv_nsec = pos 0 }

abbrev pub pass : List Turn
pass = scheduler ∷ wakeup ∷ []

abbrev pub passes : ℕ → List (List Turn)
passes zero = []
passes (suc n) = pass ∷ passes n

abbrev pub eight_passes : List (List Turn)
eight_passes = passes 8

abbrev pub short_line-IsWellFormed : IsWellFormed short_line
short_line-IsWellFormed = record {
  cpu_size = refl;
  io_size = refl;
  io_le_cpu = omega arith;
  cpu_le_io = omega arith;
}

abbrev pub long_line-IsWellFormed : IsWellFormed long_line
long_line-IsWellFormed = record {
  cpu_size = refl;
  io_size = refl;
  io_le_cpu = omega arith;
  cpu_le_io = omega arith;
}

abbrev pub two_lines-AllWellFormed : AllWellFormed two_lines
two_lines-AllWellFormed = (short_line-IsWellFormed, (long_line-IsWellFormed, tt))

passes-IsFair : (n : ℕ) → IsFair (passes n)
passes-IsFair zero = tt
passes-IsFair (suc n) = (inl refl, inr (inl refl), passes-IsFair n)

pub eight_passes-IsFair : IsFair eight_passes
eight_passes-IsFair = passes-IsFair 8

-- One round for each line, one to wait for the second, and one to spare.
pub four_rounds : rounds_needed (pos 0) two_lines ≤ 4
unfolding rounds_needed
four_rounds = let counted : rounds_needed (pos 0) two_lines ≡ 4 = refl in omega (arith, counted)

fifo-AllServed_example :
    Returns
      (AllServed cpu_total 0 two_lines)
      (simulate Fifo.policy Fifo.prepare_fifo still_clock 4 two_lines eight_passes)
fifo-AllServed_example =
    fifo-AllServed still_clock 4 short_line (long_line ∷ []) eight_passes four_rounds
      eight_passes-IsFair (omega arith) two_lines-AllWellFormed

sjf-AllServed_example :
    Returns
      (AllServed cpu_total 0 two_lines)
      (simulate Sjf.policy Sjf.prepare_sjf still_clock 4 two_lines eight_passes)
sjf-AllServed_example =
    sjf-AllServed still_clock 4 short_line (long_line ∷ []) eight_passes four_rounds
      eight_passes-IsFair (omega arith) two_lines-AllWellFormed (omega arith, (omega arith, tt))

rr-AllServed_example :
    Returns
      (AllServed slice_total 0 two_lines)
      (simulate Rr.Outcome.policy Rr.prepare_rr still_clock 4 two_lines eight_passes)
rr-AllServed_example =
    rr-AllServed still_clock 4 short_line (long_line ∷ []) eight_passes four_rounds
      eight_passes-IsFair (omega arith) two_lines-AllWellFormed (omega arith, (omega arith, tt))

srtf-AllServed_example :
    Returns
      (AllTimed HasRun 0 two_lines)
      (simulate Srtf.Depth.policy Srtf.prepare_srtf still_clock 4 two_lines eight_passes)
srtf-AllServed_example =
    srtf-AllServed still_clock 4 short_line (long_line ∷ []) eight_passes four_rounds
      eight_passes-IsFair (omega arith) two_lines-AllWellFormed (omega arith, (omega arith, tt))

simulate-Simulated_example :
    Returns
      (Simulated whole_bursts two_lines)
      (simulate Fifo.policy Fifo.prepare_fifo still_clock 4 two_lines eight_passes)
simulate-Simulated_example =
    simulate-Simulated Fifo.policy Fifo.prepare_fifo still_clock 4 short_line (long_line ∷ [])
      eight_passes four_rounds (fifo_accepted two_lines two_lines-AllWellFormed) eight_passes-IsFair
      (omega arith)

add_arrival_process-Arrived_example :
    Returns
      (Arrived whole_bursts two_lines (init 2 still_clock))
      (add_arrival_process Fifo.ops Fifo.prepare_fifo 4 two_lines (init 2 still_clock))
unfolding init
add_arrival_process-Arrived_example =
    add_arrival_process-Arrived whole_bursts Fifo.ops Fifo.prepare_fifo 4 short_line
      (long_line ∷ []) (init 2 still_clock) four_rounds
      (fifo_accepted two_lines two_lines-AllWellFormed) (init-Inv 2 still_clock whole_bursts)
      (init-IsListed 2 still_clock)

-- The state after the arrival of both lines.
abbrev pub two_arrived :
    Returns
      (Arrived whole_bursts two_lines (init 2 still_clock))
      (add_arrival_process Fifo.ops Fifo.prepare_fifo 4 two_lines (init 2 still_clock))
unfolding init
two_arrived =
    add_arrival_process-Arrived whole_bursts Fifo.ops Fifo.prepare_fifo 4 short_line
      (long_line ∷ []) (init 2 still_clock) four_rounds
      (fifo_accepted two_lines two_lines-AllWellFormed) (init-Inv 2 still_clock whole_bursts)
      (init-IsListed 2 still_clock)

abbrev pub start : State
start = two_arrived.0

pub start-Arrived : Arrived whole_bursts two_lines (init 2 still_clock) start
start-Arrived = two_arrived.2

pub start-total : start.total_process ≡ start.t_process
unfolding init
start-total = start-Arrived.total_process ∙ sym start-Arrived.t_process

pub start-work : state_work start ≤ 8
unfolding init
start-work = state_work-le two_lines start start-Arrived.t_process start-Arrived.newer

run-Finished_example :
    Returns
      (λ t. Round whole_bursts start t × Finished whole_bursts t)
      (run Fifo.policy (join eight_passes) start)
run-Finished_example =
    run-Finished Fifo.policy eight_passes start start-Arrived.inv start-total eight_passes-IsFair
      start-work

schedular-Rounds_example :
    Rounds whole_bursts start (CanSchedule start) (schedular Fifo.process_cpu_fifo start)
schedular-Rounds_example = schedular-Rounds Fifo.policy start start-Arrived.inv
