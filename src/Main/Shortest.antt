-- ===== src/Main/Shortest.antt =====
-- The queues of sjf are in order at all times: whatever rounds the two threads have made, the jobs
-- that are left stand in them with the shortest in front.
use cpu_schedular.Arrival.{rounds_needed, add_arrival_process}
use cpu_schedular.Arrival.Loop.{add_arrival_process-Arrived}
use cpu_schedular.Base.{ℕ, ◌≤◌, ◌≡◌, ◌∙◌, pos, List, ◌∷◌, ok, length, Returns}
use cpu_schedular.Batch.Outcome.{whole_bursts}
use cpu_schedular.Main.{simulate}
use cpu_schedular.Main.Correct.{simulate-run}
use cpu_schedular.Main.Served.{AllBusy, sjf_accepted}
use cpu_schedular.Main.Start.{init-Inv, init-IsListed}
use cpu_schedular.Process.{BurstLine}
use cpu_schedular.Sched.Lifecycle.{AllWellFormed}
use cpu_schedular.Simulation.{Turn, join}
use cpu_schedular.Sjf.{ops, policy, prepare_sjf}
use cpu_schedular.Sjf.Order.{IsShortestFirst}
use cpu_schedular.Sjf.Order.Arrival.{arrivals-IsShortestFirst}
use cpu_schedular.Sjf.Order.Rounds.{run-IsShortestFirst}
use cpu_schedular.Threads.{State, init}
use cpu_schedular.Time.{Timespec}

module _ (clock : ℕ → Timespec) (fuel : ℕ) (d : BurstLine) (ds : List BurstLine) where
  init-IsShortestFirst : IsShortestFirst (init (length (d ∷ ds)) clock)
  unfolding init
  init-IsShortestFirst = record {
    ready = (tt, tt);
    wait = (tt, tt);
    lengths = λ r p stored. absurd cc;
  }

  arrived-IsShortestFirst :
      AllWellFormed (d ∷ ds)
      → AllBusy (d ∷ ds)
      → (s : State)
      → add_arrival_process ops prepare_sjf fuel (d ∷ ds) (init (length (d ∷ ds)) clock) ≡ ok s
      → IsShortestFirst s
  unfolding init add_arrival_process
  arrived-IsShortestFirst lines busy s is =
      let total = length (d ∷ ds) in
      arrivals-IsShortestFirst fuel (d ∷ ds) (init total clock) s (sjf_accepted (d ∷ ds) lines busy)
        (init-Inv total clock whole_bursts) (init-IsListed total clock) init-IsShortestFirst is

  -- Shortest job first, of a list of lines that is not empty and well formed, each with a burst of
  -- the CPU: with fuel for the arrivals, and after any sequence of rounds of the two threads, the
  -- simulation has returned without a fault, and its queues are in order: both are sorted by the
  -- priorities of their processes, the shortest in front, and the priority of every process is the
  -- length of its first CPU burst.
  pub sjf-IsShortestFirst :
      (passes : List (List Turn))
      → rounds_needed (pos 0) (d ∷ ds) ≤ fuel
      → AllWellFormed (d ∷ ds)
      → AllBusy (d ∷ ds)
      → Returns IsShortestFirst (simulate policy prepare_sjf clock fuel (d ∷ ds) passes)
  unfolding init
  sjf-IsShortestFirst passes enough lines busy =
      let total = length (d ∷ ds) in
      let (s, is, a) =
        add_arrival_process-Arrived whole_bursts ops prepare_sjf fuel d ds (init total clock) enough
          (sjf_accepted (d ∷ ds) lines busy) (init-Inv total clock whole_bursts)
          (init-IsListed total clock) in
      let (t, are, o) =
        run-IsShortestFirst (join passes) s a.inv (arrived-IsShortestFirst lines busy s is) in
      (t, simulate-run policy prepare_sjf clock fuel (d ∷ ds) passes s is ∙ are, o)
