-- ===== src/Tests.antt =====
-- The operations of the components on concrete input, and the theorems on them.
use cpu_schedular.Base.{
  List, ℕ, ◌⊎◌, some, ℤ, negsuc, ◌/ℤ◌, ◌≡◌, refl, inr, ◌+ℤ◌, ◌≤ℤ◌, ◌<ℤ◌, pos, none, [], ◌∷◌, ◌++◌,
  ok, Returns, arith,
}
use cpu_schedular.Batch
use cpu_schedular.Batch.Outcome.{whole_bursts, process_cpu-CpuOutcome}
use cpu_schedular.Fifo
use cpu_schedular.File.{process_burst_line, process_burst_line_s, bursts, fill}
use cpu_schedular.File.Lines.{AllParsed, process_burst_line_s-AllParsed}
use cpu_schedular.File.Line.{Parsed, process_burst_line-Parsed}
use cpu_schedular.Main.Tests.{two_lines, still_clock, long_line, long_line-IsWellFormed}
use cpu_schedular.Process.{no_bursts, ready, sleep, Process}
use cpu_schedular.Queue.{Ref, dequeue, Queue, p_enqueue}
use cpu_schedular.Queue.Remove.{remove_node_by_pid, find_process}
use cpu_schedular.Queue.Remove.Laws.{Removes, IsAtRear, remove_node_by_pid-Removes}
use cpu_schedular.Queue.Sorted.{AllItems, IsSorted, p_enqueue-IsStable}
use cpu_schedular.Result.{totals, write_result}
use cpu_schedular.Result.Laws.{Printed, write_result-Printed}
use cpu_schedular.Rr
use cpu_schedular.Rr.{run_slice}
use cpu_schedular.Rr.Loop.{Ran, ticks, run_slice-Ran}
use cpu_schedular.Rr.Outcome.{slices, process_cpu_rr-CpuOutcome}
use cpu_schedular.Sched.{process_io}
use cpu_schedular.Sched.Bursts.{CpuOutcome, IoOutcome}
use cpu_schedular.Sched.Cpu.{Quiet}
use cpu_schedular.Sched.Io.{process_io-IoOutcome}
use cpu_schedular.Sched.Lifecycle.{AllWellFormed, IsReady, IsAsleep}
use cpu_schedular.Threads.{State, update, init}
use cpu_schedular.Time.{Timespec, Timer, diff_timespec, timespec_add}
use cpu_schedular.Time.Laws.{IsNormal, diff_timespec-IsNormal, timespec_add-diff_timespec}

-- A second that is all but over, and the beginning of the one after the next.
abbrev late : Timespec
late = record { tv_sec = pos 3; tv_nsec = pos 999999999 }

abbrev early : Timespec
early = record { tv_sec = pos 5; tv_nsec = pos 1 }

abbrev late_to_early : Timer
late_to_early = record { start = late; end = early }

late-IsNormal : IsNormal late
late-IsNormal = (omega arith, omega arith)

early-IsNormal : IsNormal early
early-IsNormal = (omega arith, omega arith)

timespec_add-diff_timespec_example : timespec_add late (diff_timespec late_to_early) ≡ early
timespec_add-diff_timespec_example =
    timespec_add-diff_timespec late_to_early late-IsNormal early-IsNormal

diff_timespec-IsNormal_example : IsNormal (diff_timespec late_to_early)
diff_timespec-IsNormal_example = diff_timespec-IsNormal late_to_early late-IsNormal early-IsNormal

-- Two nodes of the same priority and one of a higher.
abbrev three_nodes : Queue
three_nodes =
    record { task = 0; priority = pos 2 }
    ∷ record { task = 1; priority = pos 2 }
    ∷ record { task = 2; priority = pos 5 }
    ∷ []

three_nodes-IsSorted : IsSorted three_nodes
three_nodes-IsSorted = ((omega arith, (omega arith, tt)), ((omega arith, tt), (tt, tt)))

p_enqueue-IsStable_example :
    (front : Queue) × (back : Queue) × (three_nodes ≡ front ++ back)
    × (p_enqueue 3 (pos 2) three_nodes ≡ front ++ record { task = 3; priority = pos 2 } ∷ back)
    × AllItems (λ x. x.priority ≤ℤ pos 2) front
    × AllItems (λ x. pos 2 <ℤ x.priority) back
p_enqueue-IsStable_example = p_enqueue-IsStable 3 (pos 2) three_nodes three_nodes-IsSorted

-- A process with the line `1 3 2 60 -1` before its second CPU burst, and in its I/O burst.
abbrev half_way : Process
half_way = record {
  pid = 0;
  priority = pos 0;
  remaining_time = pos 60;
  process_d = long_line;
  cpu_index = 1;
  io_index = 1;
  status = ready;
  cpu_time = pos 3;
  io_time = pos 2;
  a_time = pos 0;
  process_time = pos 5;
  wall_time = record { tv_sec = pos 0; tv_nsec = pos 0 };
  turnaround_time = pos 0;
}

abbrev sleeper : Process
sleeper = record half_way { io_index = 0; status = sleep; io_time = pos 0; process_time = pos 3 }

abbrev holds : Process → State
unfolding init
holds p = record (init 1 still_clock) { store = update (λ r. none) 0 p; t_process = 1 }

half_way-IsReady : IsReady whole_bursts 50 half_way
unfolding ◌+ℤ◌
half_way-IsReady = record {
  accounts = record {
    well_formed = long_line-IsWellFormed;
    cpu = refl;
    io = refl;
    total = refl;
    prepared = tt;
  };
  status = inr refl;
  indices = refl;
}

half_way-IsReady-slices : IsReady slices 50 half_way
unfolding ◌+ℤ◌
half_way-IsReady-slices = record {
  accounts = record {
    well_formed = long_line-IsWellFormed;
    cpu = refl;
    io = refl;
    total = refl;
    prepared = λ b e. cc;
  };
  status = inr refl;
  indices = refl;
}

sleeper-IsAsleep : IsAsleep whole_bursts 50 sleeper
unfolding ◌+ℤ◌
sleeper-IsAsleep = record {
  accounts = record {
    well_formed = long_line-IsWellFormed;
    cpu = refl;
    io = refl;
    total = refl;
    prepared = tt;
  };
  status = refl;
  indices = refl;
}

process_cpu-CpuOutcome_example :
    Returns
      (CpuOutcome whole_bursts Fifo.ops (λ burst. burst) 0 half_way (holds half_way))
      (Batch.process_cpu Fifo.ops 0 (holds half_way))
unfolding holds
process_cpu-CpuOutcome_example =
    process_cpu-CpuOutcome Fifo.ops 0 (holds half_way) half_way refl half_way-IsReady

process_cpu_rr-CpuOutcome_example :
    Returns
      (CpuOutcome slices Rr.ops (λ burst. pos (ticks 50 burst)) 0 half_way (holds half_way))
      (Rr.process_cpu 1 0 (holds half_way))
unfolding holds
process_cpu_rr-CpuOutcome_example =
    process_cpu_rr-CpuOutcome 0 0 (holds half_way) half_way half_way-IsReady-slices refl

process_io-IoOutcome_example :
    Returns
      (IoOutcome whole_bursts Fifo.ops 0 sleeper (holds sleeper))
      (process_io Fifo.ops 0 (holds sleeper))
unfolding holds
process_io-IoOutcome_example =
    process_io-IoOutcome whole_bursts Fifo.ops 0 (holds sleeper) sleeper refl sleeper-IsAsleep

run_slice-Ran_example :
    (p' : Process) × (t : State) × (run_slice 51 (pos 60) 0 half_way (holds half_way)
      ≡ ok (50, p', t))
    × Ran 50 half_way p'
    × Quiet (holds half_way) t
    × (t.global_counter ≡ pos 0 +ℤ pos 50)
unfolding holds
run_slice-Ran_example = run_slice-Ran 51 (pos 60) 0 50 half_way (holds half_way) refl (omega arith)

-- The line `0 100 2 90 -1`, as its numbers: the tokens of a line stand for themselves here.
process_burst_line-Parsed_example :
    Returns
      (Parsed (λ n. n) (pos 0) (pos 100 ∷ pos 2 ∷ pos 90 ∷ negsuc 0 ∷ []))
      (process_burst_line (λ n. n) (pos 0 ∷ pos 100 ∷ pos 2 ∷ pos 90 ∷ negsuc 0 ∷ []) no_bursts)
process_burst_line-Parsed_example =
    process_burst_line-Parsed (λ n. n) (pos 0) (pos 100 ∷ pos 2 ∷ pos 90 ∷ negsuc 0 ∷ []) no_bursts
      (omega arith)

-- Two processes that have terminated.
abbrev ended : ℤ → Process
ended time = record half_way { turnaround_time = time; wall_time = early }

abbrev two_ended : State
unfolding init
two_ended = record (init 2 still_clock) {
  store = update (update (λ r. none) 0 (ended (pos 30))) 1 (ended (pos 13));
  task_list = record { task = 0; priority = pos 0 } ∷ record { task = 1; priority = pos 0 } ∷ [];
}

write_result-Printed_example :
    Returns
      (Printed two_ended.total_process (ended (pos 30) ∷ ended (pos 13) ∷ []))
      (write_result two_ended)
unfolding two_ended
write_result-Printed_example =
    write_result-Printed two_ended (ended (pos 30)) (ended (pos 13) ∷ []) (refl, (refl, tt))
      (omega arith)

-- The average is 43 / 2, and the wall time that of the first process alone.
write_result-run :
    write_result two_ended ≡ ok (record { t_avg = pos 21; t_max = pos 30; ts = early })
unfolding write_result totals two_ended ◌+ℤ◌ ◌/ℤ◌ timespec_add
write_result-run = refl

-- Each process at the place of its number.
abbrev own_pid : Ref → ℕ
own_pid r = r

remove_node_by_pid-Removes_example :
    (IsAtRear own_pid 2 three_nodes
      × (remove_node_by_pid own_pid 2 three_nodes ≡ dequeue three_nodes))
    ⊎ ((¬ IsAtRear own_pid 2 three_nodes)
        × Removes own_pid 2 three_nodes (remove_node_by_pid own_pid 2 three_nodes))
remove_node_by_pid-Removes_example = remove_node_by_pid-Removes own_pid 2 three_nodes

-- The process 2 is at the rear: it is not found, and the process 0 is removed for it.
find_process-rear : find_process own_pid 2 three_nodes ≡ ok none
unfolding find_process
find_process-rear = refl

remove_node_by_pid-front : (remove_node_by_pid own_pid 2 three_nodes).0 ≡ some 0
unfolding remove_node_by_pid dequeue
remove_node_by_pid-front = refl

abbrev number_lines : List (List ℤ)
number_lines =
    (pos 0 ∷ pos 5 ∷ negsuc 0 ∷ []) ∷ (pos 1 ∷ pos 3 ∷ pos 2 ∷ pos 60 ∷ negsuc 0 ∷ []) ∷ []

process_burst_line_s-AllParsed_example :
    Returns
      (λ ds. AllParsed (λ n. n) number_lines ds × AllWellFormed ds)
      (process_burst_line_s (λ n. n) number_lines)
process_burst_line_s-AllParsed_example =
    process_burst_line_s-AllParsed (λ n. n) number_lines (omega arith, (omega arith, tt))

-- The lines of the runs of the simulator, from their numbers.
process_burst_line_s-run : process_burst_line_s (λ n. n) number_lines ≡ ok two_lines
unfolding process_burst_line_s process_burst_line bursts fill
process_burst_line_s-run = refl
