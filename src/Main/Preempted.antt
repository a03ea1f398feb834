-- ===== src/Main/Preempted.antt =====
-- What the shortest remaining time first gives each process, whatever the order of the turns.
use cpu_schedular.Arrival.Arrived.{Accepts, AllAccepted}
use cpu_schedular.Arrival.{rounds_needed}
use cpu_schedular.Base.{
  ℕ, ◌<◌, ◌≤◌, refl, subst, ℤ, ◌≤ℤ◌, pos, sum, take-all, map, List, [], ◌∷◌, length, arith,
  length-map, get_elem?-lt, Returns,
}
use cpu_schedular.Main.{simulate}
use cpu_schedular.Main.Correct.{simulate-Simulated}
use cpu_schedular.Main.Served.{AllBusy, AllTimed, AllDone-AllTimed, fresh-IsReady}
use cpu_schedular.Main.Start.{input_work}
use cpu_schedular.Process.{BurstLine, create_process}
use cpu_schedular.Sched.Lifecycle.{AllWellFormed, IsWellFormed}
use cpu_schedular.Simulation.{Turn}
use cpu_schedular.Simulation.Finish.{IsFair}
use cpu_schedular.Srtf.{prepare_srtf}
use cpu_schedular.Srtf.Depth.{policy}
use cpu_schedular.Srtf.Steps.{runs, whole}
use cpu_schedular.Time.{Timespec}

srtf-Accepts :
    (d : BurstLine) → IsWellFormed d → 0 < length d.cpu_burst → Accepts runs prepare_srtf 50 d
unfolding create_process
srtf-Accepts d w busy n =
    let (burst, found) = get_elem?-lt d.cpu_burst 0 busy in
    (_, rw found, (fresh-IsReady runs d n burst burst w (omega arith) tt, refl, refl))

pub srtf_accepted :
    (ds : List BurstLine) → AllWellFormed ds → AllBusy ds → AllAccepted runs prepare_srtf 50 ds
srtf_accepted [] w b = tt
srtf_accepted (d ∷ ds) (w, ws) (b, bs) = (srtf-Accepts d w b, srtf_accepted ds ws bs)

-- A CPU time of all the bursts of a line, and of what was run more than once.
abbrev pub HasRun : BurstLine → ℤ → Type 0
HasRun d time = sum (map whole d.cpu_burst) ≤ℤ time

runs_full :
    (quantum : ℕ) (d : BurstLine) (n : ℕ) (time : ℤ)
    → IsWellFormed d
    → d.cpu_burst_size ≤ n
    → runs.Served quantum d n time
    → HasRun d time
runs_full quantum d n time w h served =
    subst (λ xs. sum xs ≤ℤ time)
      (take-all (map whole d.cpu_burst) n
        (omega (arith, length-map d.cpu_burst whole, w.cpu_size, h)))
      served

-- The shortest remaining time first, of a list of lines that is not empty and well formed, each with
-- a burst of the CPU: with fuel for the arrivals, and as many fair passes as the input has work, in
-- whatever order the two threads take their turns in a pass, the simulation returns without a fault,
-- and the process of each line has terminated. Its CPU time is at least the sum of the CPU bursts
-- of its line, a negative burst counted as none; its I/O time is the sum of the I/O bursts, and its
-- turnaround time the sum of its CPU time and its I/O time.
pub srtf-AllServed :
    (clock : ℕ → Timespec) (fuel : ℕ) (d : BurstLine) (ds : List BurstLine)
    (passes : List (List Turn))
    → rounds_needed (pos 0) (d ∷ ds) ≤ fuel
    → IsFair passes
    → input_work (d ∷ ds) ≤ length passes
    → AllWellFormed (d ∷ ds)
    → AllBusy (d ∷ ds)
    → Returns (AllTimed HasRun 0 (d ∷ ds)) (simulate policy prepare_srtf clock fuel (d ∷ ds) passes)
srtf-AllServed clock fuel d ds passes enough fair long lines busy =
    let (t, is, end) =
      simulate-Simulated policy prepare_srtf clock fuel d ds passes enough
        (srtf_accepted (d ∷ ds) lines busy) fair long in
    (t, is, AllDone-AllTimed runs HasRun t (runs_full t.quantum) 0 (d ∷ ds) end.done)
