-- ===== src/Main/Steps.antt =====
-- fcfs, sjf and rr from the input to the end, with the two threads cut at every point where one can see
-- what the other does.
use cpu_schedular.Arrival.{add_arrival_process, rounds_needed}
use cpu_schedular.Arrival.Arrived.{AllAccepted}
use cpu_schedular.Arrival.Loop.{add_arrival_process-Arrived}
use cpu_schedular.Base.{
  subst, ℤ, ℕ, ◌+◌, ◌*◌, ◌≤◌, ◌≡◌, refl, sym, ◌∙◌, pos, List, ◌∷◌, Run, ok, ◌>>=◌, length, arith,
  Returns,
}
use cpu_schedular.Fifo
use cpu_schedular.Interleaved.{System, steps, left}
use cpu_schedular.Interleaved.Batch.{policy}
use cpu_schedular.Interleaved.Rr
use cpu_schedular.Rr.{prepare_rr}
use cpu_schedular.Rr.Accounts.{slices}
use cpu_schedular.Interleaved.Policy.{StepPolicy}
use cpu_schedular.Interleaved.Finish.{IsFair, steps-Finished}
use cpu_schedular.Interleaved.Safety.{started}
use cpu_schedular.Main.Correct.{Simulated, assemble}
use cpu_schedular.Main.Served.{
  slice_total, slices_full, rr_accepted, AllTimed, AllServed, AllDone-AllTimed, AllBusy, cpu_total,
  whole_full, fifo_accepted, sjf_accepted,
}
use cpu_schedular.Main.Start.{init-Inv, init-IsListed, input_work, state_work-le}
use cpu_schedular.Process.{BurstLine, Process}
use cpu_schedular.Sched.Lifecycle.{IsWellFormed, AllWellFormed}
use cpu_schedular.Simulation.{Turn, join}
use cpu_schedular.Sjf
use cpu_schedular.Threads.{State, init}
use cpu_schedular.Time.{Timespec}

-- The arrival thread to its end, and then the steps of the two threads.
unfoldable pub simulate_steps :
    StepPolicy
    → (Process → Run Process)
    → (ℕ → Timespec)
    → ℕ
    → List BurstLine
    → List (List Turn)
    → Run System
simulate_steps pol prepare clock fuel lines passes = do
  s ← add_arrival_process pol.ops prepare fuel lines (init (length lines) clock)
  steps pol.ops pol.hold (join passes) (started s)

module _ (pol : StepPolicy) (prepare : Process → Run Process) (clock : ℕ → Timespec) where
  simulate_steps-steps :
      (fuel : ℕ) (lines : List BurstLine) (passes : List (List Turn)) (s : State)
      → add_arrival_process pol.ops prepare fuel lines (init (length lines) clock) ≡ ok s
      → simulate_steps pol prepare clock fuel lines passes
        ≡ steps pol.ops pol.hold (join passes) (started s)
  unfolding simulate_steps
  simulate_steps-steps fuel lines passes s e = rw e

  simulate_steps-Simulated :
      (fuel : ℕ) (d : BurstLine) (ds : List BurstLine) (passes : List (List Turn))
      → rounds_needed (pos 0) (d ∷ ds) ≤ fuel
      → AllAccepted pol.acc prepare 50 (d ∷ ds)
      → IsFair passes
      → 12 * input_work (d ∷ ds) + 16 ≤ length passes
      → Returns
          (λ y. (y.cpu ≡ left) × (y.io ≡ left) × Simulated pol.acc (d ∷ ds) y.shared)
          (simulate_steps pol prepare clock fuel (d ∷ ds) passes)
  unfolding init
  simulate_steps-Simulated fuel d ds passes enough good fair le =
      let lines = d ∷ ds in
      let start = init (length lines) clock in
      let (s, is, a) =
        add_arrival_process-Arrived pol.acc pol.ops prepare fuel d ds start enough good
          (init-Inv (length lines) clock pol.acc) (init-IsListed (length lines) clock) in
      let n : s.t_process ≡ length lines = omega (arith, a.t_process) in
      let total : s.total_process ≡ s.t_process = a.total_process ∙ sym n in
      let work = state_work-le lines s n a.newer in
      let (y, are, (c, i, round, f)) =
        steps-Finished pol passes s a.inv total fair (omega (arith, work)) in
      (
        y,
        simulate_steps-steps fuel lines passes s is ∙ are,
        (c, i, assemble pol.acc lines start s y.shared refl refl refl a round f),
      )

  -- Each line with its times, once both threads have left.
  steps-AllTimed :
      (full : BurstLine → ℤ → Type 0) (fuel : ℕ) (d : BurstLine) (ds : List BurstLine)
      (passes : List (List Turn))
      → ((t : State)
          → t.quantum ≡ 50
          → (e : BurstLine) (n : ℕ) (time : ℤ) → IsWellFormed e
          → e.cpu_burst_size ≤ n
          → pol.acc.Served t.quantum e n time
          → full e time)
      → rounds_needed (pos 0) (d ∷ ds) ≤ fuel
      → AllAccepted pol.acc prepare 50 (d ∷ ds)
      → IsFair passes
      → 12 * input_work (d ∷ ds) + 16 ≤ length passes
      → Returns
          (λ y. (y.cpu ≡ left) × (y.io ≡ left) × AllTimed full 0 (d ∷ ds) y.shared)
          (simulate_steps pol prepare clock fuel (d ∷ ds) passes)
  steps-AllTimed full fuel d ds passes h enough good fair le =
      let (y, is, (c, i, end)) = simulate_steps-Simulated fuel d ds passes enough good fair le in
      (
        y,
        is,
        (c, i, AllDone-AllTimed pol.acc full y.shared (h y.shared end.quantum) 0 (d ∷ ds) end.done),
      )

module _ (clock : ℕ → Timespec) (fuel : ℕ) (d : BurstLine) (ds : List BurstLine)
    (passes : List (List Turn)) (enough : rounds_needed (pos 0) (d ∷ ds) ≤ fuel)
    (fair : IsFair passes) (long : 12 * input_work (d ∷ ds) + 16 ≤ length passes)
    (lines : AllWellFormed (d ∷ ds)) where
  -- First come, first served, of a list of lines that is not empty and well formed, with the two
  -- threads interleaved step by step: with fuel for the arrivals, and as many passes in which each
  -- thread makes three steps or more as twelve times the work of the input and sixteen, in whatever
  -- order the steps come, the simulation returns without a fault, both threads have left their
  -- loops, and the process of each line has terminated with the sum of the CPU bursts of its line,
  -- the sum of the I/O bursts, and the sum of both as its turnaround time.
  pub fifo_steps-AllServed :
      Returns
        (λ y. (y.cpu ≡ left) × (y.io ≡ left) × AllServed cpu_total 0 (d ∷ ds) y.shared)
        (simulate_steps (policy Fifo.ops) Fifo.prepare_fifo clock fuel (d ∷ ds) passes)
  fifo_steps-AllServed =
      steps-AllTimed (policy Fifo.ops) Fifo.prepare_fifo clock (λ e time. time ≡ cpu_total e) fuel d
        ds passes (λ t q. whole_full t.quantum) enough (fifo_accepted (d ∷ ds) lines) fair long

  -- Shortest job first, of a list of lines that is not empty and well formed, each with a burst of
  -- the CPU, with the two threads interleaved step by step: with fuel for the arrivals, and as many
  -- passes in which each thread makes three steps or more as twelve times the work of the input and
  -- sixteen, in whatever order the steps come, the simulation returns without a fault, both threads
  -- have left their loops, and the process of each line has terminated with the sum of the CPU
  -- bursts of its line, the sum of the I/O bursts, and the sum of both as its turnaround time.
  pub sjf_steps-AllServed :
      AllBusy (d ∷ ds)
      → Returns
          (λ y. (y.cpu ≡ left) × (y.io ≡ left) × AllServed cpu_total 0 (d ∷ ds) y.shared)
          (simulate_steps (policy Sjf.ops) Sjf.prepare_sjf clock fuel (d ∷ ds) passes)
  sjf_steps-AllServed busy =
      steps-AllTimed (policy Sjf.ops) Sjf.prepare_sjf clock (λ e time. time ≡ cpu_total e) fuel d ds
        passes (λ t q. whole_full t.quantum) enough (sjf_accepted (d ∷ ds) lines busy) fair long

  -- Round robin, of a list of lines that is not empty and well formed, each with a burst of the CPU,
  -- with the two threads interleaved step by step: with fuel for the arrivals, and as many passes in
  -- which each thread makes three steps or more as twelve times the work of the input and sixteen, in
  -- whatever order the steps come, the simulation returns without a fault, both threads have left
  -- their loops, and the process of each line has terminated, but of each CPU burst only 50 ticks,
  -- the quantum, are counted at most. The I/O time is the sum of the I/O bursts, and the turnaround
  -- time the sum of both.
  pub rr_steps-AllServed :
      AllBusy (d ∷ ds)
      → Returns
          (λ y. (y.cpu ≡ left) × (y.io ≡ left) × AllServed slice_total 0 (d ∷ ds) y.shared)
          (simulate_steps Rr.policy prepare_rr clock fuel (d ∷ ds) passes)
  rr_steps-AllServed busy =
      steps-AllTimed Rr.policy prepare_rr clock (λ e time. time ≡ slice_total e) fuel d ds passes
        (λ t is e n time w h served.
          slices_full e n time w h (subst (λ q. slices.Served q e n time) is served))
        enough (rr_accepted (d ∷ ds) lines busy) fair long
