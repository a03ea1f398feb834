-- ===== src/Program.antt =====
-- main.c, `main`, and `init_scheduler` of schedule_algorithms/sched_common.c. What `fopen`, `fgets`
-- and `strtok_r` give of a file is the argument `contents`: the tokens of each line behind the 20th
-- byte, and whether the last line ends with a newline.
pub mod Report
pub mod Correct
pub mod Error
pub mod Tests
use text.Mathlib.Text.{◌==◌ as ◌equals◌}
use Prim.Native.String.{String}
use cpu_schedular.Base.{
  ℕ, ℤ, Bool, List, [], ◌∷◌, Option, none, some, Run, ok, ◌>>=◌, if◌then◌else◌,
}
use cpu_schedular.File.{read_burstfile}
use cpu_schedular.Fifo
use cpu_schedular.Main.{simulate}
use cpu_schedular.Process.{Process}
use cpu_schedular.Result.{Totals, write_result}
use cpu_schedular.Rr
use cpu_schedular.Rr.Outcome
use cpu_schedular.Sched.Policy.{Policy}
use cpu_schedular.Simulation.{Turn}
use cpu_schedular.Sjf
use cpu_schedular.Srtf
use cpu_schedular.Srtf.Depth
use cpu_schedular.Threads.{State}
use cpu_schedular.Time.{Timespec}

-- `process_core` and `thread_core`: the functions that the threads run.
pub record Scheduler : Type 1 where
  pub policy : Policy
  pub prepare : Process → Run Process

abbrev pub fcfs : Scheduler
fcfs = record { policy = Fifo.policy; prepare = Fifo.prepare_fifo }

abbrev pub sjf : Scheduler
sjf = record { policy = Sjf.policy; prepare = Sjf.prepare_sjf }

abbrev pub srtf : Scheduler
srtf = record { policy = Srtf.Depth.policy; prepare = Srtf.prepare_srtf }

abbrev pub rr : Scheduler
rr = record { policy = Rr.Outcome.policy; prepare = Rr.prepare_rr }

-- `none` for a name that is not known.
unfoldable pub init_scheduler : String → Option Scheduler
init_scheduler name =
    if name equals "fcfs"
    then some fcfs
    else if name equals "sjf"
    then some sjf
    else if name equals "srtf"
    then some srtf
    else if name equals "rr"
    then some rr
    else none

-- How the program ends: with the usage text and status 1, with status 1 as the input file cannot be
-- opened, with status 1 and the usage text for the name of a scheduler, or with its results.
pub data Ended : Type 0 where
  usage no_input unknown_scheduler : Ended
  finished : State → Totals → Ended

module _ {Token : Type 0} (atoi : Token → ℤ) (contents : String → Option (List (List Token) × Bool))
    (clock : ℕ → Timespec) (fuel : ℕ) (passes : List (List Turn)) where
  -- The file is read before the name of the scheduler is looked at.
  unfoldable pub start_scheduler : String → List (List Token) → Bool → Run Ended
  start_scheduler name lines newline = do
    data_read ← read_burstfile atoi lines newline
    elim (init_scheduler name) [
      | none ↦ ok unknown_scheduler
      | some s ↦ do
        t ← simulate s.policy s.prepare clock fuel data_read passes
        result ← write_result t
        ok (finished t result)
    ]

  -- The arguments, with the name of the program first.
  unfoldable pub main : List String → Run Ended
  main (prog_name ∷ name ∷ file ∷ []) = elim (contents file) [
    | none ↦ ok no_input
    | some (lines, newline) ↦ start_scheduler name lines newline
  ]
  main _ = ok usage
