-- ===== src/Main/Served.antt =====
-- What the policies give each process, whatever the order of the turns.
use cpu_schedular.Arrival.Arrived.{Accepts, AllAccepted}
use cpu_schedular.Arrival.{rounds_needed}
use cpu_schedular.Batch.Outcome.{whole_bursts}
use cpu_schedular.Base.{
  ℕ, suc, ◌<◌, ◌≤◌, ◌≡◌, refl, subst, ap, ◌∙◌, ℤ, pos, ◌+ℤ◌, sum, take-all, map, List, [], ◌∷◌,
  some, inl, length, arith, int_laws, length-map, get_elem?-lt, Returns,
}
use cpu_schedular.Fifo
use cpu_schedular.Main.{simulate}
use cpu_schedular.Main.Correct.{AllDone, simulate-Simulated}
use cpu_schedular.Main.Start.{input_work}
use cpu_schedular.Process.{BurstLine, Process, terminated, create_process}
use cpu_schedular.Rr
use cpu_schedular.Rr.Loop.{ticks}
use cpu_schedular.Rr.Outcome.{slices, policy}
use cpu_schedular.Sched.Lifecycle.{AllWellFormed, Accounting, IsReady, IsWellFormed}
use cpu_schedular.Sjf
use cpu_schedular.Simulation.{Turn}
use cpu_schedular.Simulation.Finish.{IsFair}
use cpu_schedular.Threads.{State}
use cpu_schedular.Time.{Timespec}

-- Every line has a burst of the CPU.
abbrev pub AllBusy : List BurstLine → Type 0
AllBusy [] = Unit {0}
AllBusy (d ∷ ds) = (0 < length d.cpu_burst) × AllBusy ds

-- A new process with its line is ready, in the accounts of a scheduler that starts them at zero.
pub fresh-IsReady :
    (acc : Accounting) (d : BurstLine) (n : ℕ) (priority remaining : ℤ)
    → IsWellFormed d
    → acc.Served 50 d 0 (pos 0)
    → acc.Prepared d 0 remaining
    → IsReady acc 50 (record (create_process n) {
      process_d = d;
      priority = priority;
      remaining_time = remaining;
    })
unfolding create_process
fresh-IsReady acc d n priority remaining w z p = record {
  accounts = record { well_formed = w; cpu = z; io = refl; total = omega int_laws; prepared = p };
  status = inl (refl, refl);
  indices = refl;
}

fifo-Accepts : (d : BurstLine) → IsWellFormed d → Accepts whole_bursts Fifo.prepare_fifo 50 d
unfolding create_process
fifo-Accepts d w n =
    (_, refl, (fresh-IsReady whole_bursts d n (pos 0) (pos 0) w refl tt, refl, refl))

sjf-Accepts :
    (d : BurstLine)
    → IsWellFormed d
    → 0 < length d.cpu_burst
    → Accepts whole_bursts Sjf.prepare_sjf 50 d
unfolding create_process
sjf-Accepts d w busy n =
    let (burst, found) = get_elem?-lt d.cpu_burst 0 busy in
    (_, rw found, (fresh-IsReady whole_bursts d n burst (pos 0) w refl tt, refl, refl))

rr-Accepts :
    (d : BurstLine) → IsWellFormed d → 0 < length d.cpu_burst → Accepts slices Rr.prepare_rr 50 d
unfolding create_process
rr-Accepts d w busy n =
    let (burst, found) = get_elem?-lt d.cpu_burst 0 busy in
    (_, rw found, (fresh-IsReady slices d n (pos 0) burst w refl (λ b e. cc), refl, refl))

-- The process of each line, in its place, has terminated with a CPU time as it should be, with its
-- I/O time, and with their sum for a turnaround time.
abbrev pub AllTimed : (BurstLine → ℤ → Type 0) → ℕ → List BurstLine → State → Type 0
AllTimed Fits n [] s = Unit {0}
AllTimed Fits n (d ∷ ds) s =
    ((p : Process) × (s.store n ≡ some p)
      × (p.status ≡ terminated)
      × Fits d p.cpu_time
      × (p.io_time ≡ sum d.io_burst)
      × (p.turnaround_time ≡ p.cpu_time +ℤ sum d.io_burst))
    × AllTimed Fits (suc n) ds s

-- The CPU time is this one.
abbrev pub AllServed : (BurstLine → ℤ) → ℕ → List BurstLine → State → Type 0
AllServed cpu = AllTimed (λ d time. time ≡ cpu d)

pub AllDone-AllTimed :
    (acc : Accounting) (Fits : BurstLine → ℤ → Type 0) (s : State)
    → ((d : BurstLine) (n : ℕ) (time : ℤ)
        → IsWellFormed d
        → d.cpu_burst_size ≤ n
        → acc.Served s.quantum d n time
        → Fits d time)
    → (n : ℕ) (ds : List BurstLine) → AllDone acc n ds s
    → AllTimed Fits n ds s
AllDone-AllTimed acc Fits s full n [] h = tt
AllDone-AllTimed acc Fits s full n (d ∷ ds) ((p, stored, pid, line, done), hs) =
    let a = done.accounts in
    let w = a.well_formed in
    let i : p.io_time ≡ sum d.io_burst =
      a.io
      ∙ ap sum (take-all p.process_d.io_burst p.io_index (omega (arith, done.io_over, w.io_size)))
      ∙ ap (λ (x : BurstLine). sum x.io_burst) line in
    (
      (
        p,
        stored,
        done.status,
        subst (λ (x : BurstLine). Fits x p.cpu_time) line
            (full p.process_d p.cpu_index p.cpu_time w done.cpu_over a.cpu),
        i,
        done.turnaround ∙ a.total ∙ (rw i),
      ),
      AllDone-AllTimed acc Fits s full (suc n) ds hs,
    )

-- The whole CPU bursts of a line, and what round robin leaves of them.
abbrev pub cpu_total : BurstLine → ℤ
cpu_total d = sum d.cpu_burst

abbrev pub slice_total : BurstLine → ℤ
slice_total d = sum (map (λ b. pos (ticks 50 b)) d.cpu_burst)

pub fifo_accepted :
    (ds : List BurstLine) → AllWellFormed ds → AllAccepted whole_bursts Fifo.prepare_fifo 50 ds
fifo_accepted [] w = tt
fifo_accepted (d ∷ ds) (w, ws) = (fifo-Accepts d w, fifo_accepted ds ws)

pub sjf_accepted :
    (ds : List BurstLine)
    → AllWellFormed ds
    → AllBusy ds
    → AllAccepted whole_bursts Sjf.prepare_sjf 50 ds
sjf_accepted [] w b = tt
sjf_accepted (d ∷ ds) (w, ws) (b, bs) = (sjf-Accepts d w b, sjf_accepted ds ws bs)

pub rr_accepted :
    (ds : List BurstLine) → AllWellFormed ds → AllBusy ds → AllAccepted slices Rr.prepare_rr 50 ds
rr_accepted [] w b = tt
rr_accepted (d ∷ ds) (w, ws) (b, bs) = (rr-Accepts d w b, rr_accepted ds ws bs)

pub whole_full :
    (quantum : ℕ) (d : BurstLine) (n : ℕ) (time : ℤ)
    → IsWellFormed d
    → d.cpu_burst_size ≤ n
    → whole_bursts.Served quantum d n time
    → time ≡ cpu_total d
whole_full quantum d n time w h e =
    e ∙ ap sum (take-all d.cpu_burst n (omega (arith, w.cpu_size, h)))

pub slices_full :
    (d : BurstLine) (n : ℕ) (time : ℤ)
    → IsWellFormed d
    → d.cpu_burst_size ≤ n
    → slices.Served 50 d n time
    → time ≡ slice_total d
slices_full d n time w h e =
    let f : ℤ → ℤ = λ b. pos (ticks 50 b) in
    e
    ∙ ap sum
        (take-all (map f d.cpu_burst) n (omega (arith, length-map d.cpu_burst f, w.cpu_size, h)))

module _ (clock : ℕ → Timespec) (fuel : ℕ) (d : BurstLine) (ds : List BurstLine)
    (passes : List (List Turn)) (enough : rounds_needed (pos 0) (d ∷ ds) ≤ fuel)
    (fair : IsFair passes) (long : input_work (d ∷ ds) ≤ length passes)
    (lines : AllWellFormed (d ∷ ds)) where
  -- First come, first served, of a list of lines that is not empty and well formed: with fuel for
  -- the arrivals, and as many fair passes as the input has work, in whatever order the two threads
  -- take their turns in a pass, the simulation returns without a fault, and the process of each line
  -- has terminated with the sum of the CPU bursts of its line, the sum of the I/O bursts, and the
  -- sum of both as its turnaround time.
  pub fifo-AllServed :
      Returns
        (AllServed cpu_total 0 (d ∷ ds))
        (simulate Fifo.policy Fifo.prepare_fifo clock fuel (d ∷ ds) passes)
  fifo-AllServed =
      let (t, is, end) =
        simulate-Simulated Fifo.policy Fifo.prepare_fifo clock fuel d ds passes enough
          (fifo_accepted (d ∷ ds) lines) fair long in
      (
        t,
        is,
        AllDone-AllTimed whole_bursts (λ d time. time ≡ cpu_total d) t (whole_full t.quantum) 0
            (d ∷ ds) end.done,
      )

  -- Shortest job first, of a list of lines that is not empty and well formed, each with a burst of
  -- the CPU: with fuel for the arrivals, and as many fair passes as the input has work, the
  -- simulation returns without a fault, and the process of each line has terminated with the sum of
  -- the CPU bursts of its line, the sum of the I/O bursts, and the sum of both as its turnaround
  -- time.
  pub sjf-AllServed :
      AllBusy (d ∷ ds)
      → Returns
          (AllServed cpu_total 0 (d ∷ ds))
          (simulate Sjf.policy Sjf.prepare_sjf clock fuel (d ∷ ds) passes)
  sjf-AllServed busy =
      let (t, is, end) =
        simulate-Simulated Sjf.policy Sjf.prepare_sjf clock fuel d ds passes enough
          (sjf_accepted (d ∷ ds) lines busy) fair long in
      (
        t,
        is,
        AllDone-AllTimed whole_bursts (λ d time. time ≡ cpu_total d) t (whole_full t.quantum) 0
            (d ∷ ds) end.done,
      )

  -- Round robin, of a list of lines that is not empty and well formed, each with a burst of the CPU:
  -- with fuel for the arrivals, and as many fair passes as the input has work, the simulation
  -- returns without a fault, and the process of each line has terminated, but of each CPU burst only
  -- 50 ticks, the quantum, are counted at most: the rest of a longer burst is dropped. The I/O time
  -- is the sum of the I/O bursts, and the turnaround time the sum of both.
  pub rr-AllServed :
      AllBusy (d ∷ ds)
      → Returns
          (AllServed slice_total 0 (d ∷ ds))
          (simulate policy Rr.prepare_rr clock fuel (d ∷ ds) passes)
  rr-AllServed busy =
      let (t, is, end) =
        simulate-Simulated policy Rr.prepare_rr clock fuel d ds passes enough
          (rr_accepted (d ∷ ds) lines busy) fair long in
      (
        t,
        is,
        AllDone-AllTimed slices (λ d time. time ≡ slice_total d) t
            (λ e n time w h served.
              slices_full e n time w h (subst (λ q. slices.Served q e n time) end.quantum served))
            0 (d ∷ ds) end.done,
      )
