-- ===== src/Program/Correct.antt =====
-- The program from its arguments to its results.
use Prim.Native.String.{String}
use text.Mathlib.Text.{◌==◌ as ◌equals◌}
use cpu_schedular.Arrival.{rounds_needed}
use cpu_schedular.Arrival.Arrived.{AllAccepted}
use cpu_schedular.Base.{
  ℕ, ◌-◌, ◌≤◌, ◌≡◌, refl, subst, ◌∙◌, ℤ, pos, Bool, List, [], ◌∷◌, Option, some, length, take, Run,
  ok, Bool-cases, inl, inr, ltb, Returns,
}
use cpu_schedular.File.{read_burstfile, reads, capacity}
use cpu_schedular.File.Lines.{Fits, AllParsed, process_burst_line_s-AllParsed}
use cpu_schedular.Main.{simulate}
use cpu_schedular.Main.Correct.{Simulated, simulate-Simulated}
use cpu_schedular.Main.Preempted.{srtf_accepted}
use cpu_schedular.Main.Served.{AllBusy, fifo_accepted, sjf_accepted, rr_accepted}
use cpu_schedular.Main.Start.{input_work}
use cpu_schedular.Process.{BurstLine}
use cpu_schedular.Program.{
  Scheduler, fcfs, sjf, srtf, rr, init_scheduler, Ended, finished, start_scheduler, main,
}
use cpu_schedular.Result.{Totals, write_result}
use cpu_schedular.Sched.Lifecycle.{AllWellFormed}
use cpu_schedular.Simulation.{Turn}
use cpu_schedular.Simulation.Finish.{IsFair}
use cpu_schedular.Threads.{State}
use cpu_schedular.Time.{Timespec}
use cpu_schedular.Program.Report.{Reported, Simulated-Reported}

-- Each scheduler accepts the lines that are well formed and have a burst of the CPU.
init_scheduler-AllAccepted :
    (name : String) (s : Scheduler) (ds : List BurstLine)
    → init_scheduler name ≡ some s
    → AllWellFormed ds
    → AllBusy ds
    → AllAccepted s.policy.acc s.prepare 50 ds
unfolding init_scheduler
init_scheduler-AllAccepted name s ds e w b =
    let Fine : Scheduler → Type 0 = λ s. AllAccepted s.policy.acc s.prepare 50 ds in
    elim (Bool-cases (name equals "fcfs")) [
      | inl is ↦
          let e1 = rw is at e in let same : fcfs ≡ s = cc in subst Fine same (fifo_accepted ds w)
      | inr no1 ↦ elim (Bool-cases (name equals "sjf")) [
        | inl is ↦
            let e2 = rw (no1, is) at e in
            let same : sjf ≡ s = cc in subst Fine same (sjf_accepted ds w b)
        | inr no2 ↦ elim (Bool-cases (name equals "srtf")) [
          | inl is ↦
              let e3 = rw (no1, no2, is) at e in
              let same : srtf ≡ s = cc in subst Fine same (srtf_accepted ds w b)
          | inr no3 ↦ elim (Bool-cases (name equals "rr")) [
            | inl is ↦
                let e4 = rw (no1, no2, no3, is) at e in
                let same : rr ≡ s = cc in subst Fine same (rr_accepted ds w b)
            | inr no4 ↦ let e5 = rw (no1, no2, no3, no4) at e in absurd cc
          ]
        ]
      ]
    ]

module _ {Token : Type 0} (atoi : Token → ℤ) where
  -- The lines that are used of a file.
  abbrev pub used : List (List Token) → Bool → List (List Token)
  used lines newline = take (reads atoi lines newline - 2) lines

  read_burstfile-AllParsed :
      (lines : List (List Token)) (newline : Bool) (ds : List BurstLine)
      → read_burstfile atoi lines newline ≡ ok ds
      → Fits atoi (used lines newline)
      → AllParsed atoi (used lines newline) ds × AllWellFormed ds
  unfolding read_burstfile
  read_burstfile-AllParsed lines newline ds e fits =
      let (ds', is, parsed) = process_burst_line_s-AllParsed atoi (used lines newline) fits in
      let n = reads atoi lines newline in
      let Fine : List BurstLine → Type 0 =
        λ ds. AllParsed atoi (used lines newline) ds × AllWellFormed ds in
      elim (Bool-cases (ltb capacity n)) [
        | inl long ↦ let e1 = rw long at e in absurd cc
        | inr fit ↦ elim (Bool-cases (ltb 2 n)) [
          | inr short ↦ let e2 = rw (fit, short) at e in absurd cc
          | inl more ↦
              let e3 = rw (fit, more, is) at e in let same : ds' ≡ ds = cc in subst Fine same parsed
        ]
      ]

module _ {Token : Type 0} (atoi : Token → ℤ) (contents : String → Option (List (List Token) × Bool))
    (clock : ℕ → Timespec) (fuel : ℕ) (passes : List (List Turn)) where
  abbrev run_main : List String → Run Ended
  run_main = main atoi contents clock fuel passes

  pub main-three :
      (prog_name name file : String) (lines : List (List Token)) (newline : Bool)
      → contents file ≡ some (lines, newline)
      → run_main (prog_name ∷ name ∷ file ∷ [])
        ≡ start_scheduler atoi contents clock fuel passes name lines newline
  unfolding main
  main-three prog_name name file lines newline e = rw (e, main)

  start_scheduler-finished :
      (name : String) (lines : List (List Token)) (newline : Bool) (ds : List BurstLine)
      (s : Scheduler) (t : State) (result : Totals)
      → read_burstfile atoi lines newline ≡ ok ds
      → init_scheduler name ≡ some s
      → simulate s.policy s.prepare clock fuel ds passes ≡ ok t
      → write_result t ≡ ok result
      → start_scheduler atoi contents clock fuel passes name lines newline ≡ ok (finished t result)
  unfolding start_scheduler
  start_scheduler-finished name lines newline ds s t result e known is are = rw (e, known, is, are)

  -- The program has come to the end of a simulation of these lines, and has printed its results.
  abbrev pub Finishes : Scheduler → List (List Token) → List BurstLine → Ended → Type 0
  Finishes s lines ds e =
      (t : State) × (result : Totals) × (e ≡ finished t result)
      × AllParsed atoi lines ds
      × Simulated s.policy.acc ds t
      × Reported (length ds) t result

  -- The program, run with the name of one of the four schedulers and a file that can be opened and
  -- from which at least one line is used, with no blank line and none too long for its buffers among
  -- those used, and a burst of the CPU in each: with fuel for the arrivals, and as many fair passes
  -- as the input has work, it ends without a fault. The lines were read as their tokens say, the
  -- process of each line has terminated with the accounts of all its bursts, and the results that
  -- are printed are those of the processes in the task list, one for each line.
  pub main-Finishes :
      (prog_name name file : String) (lines : List (List Token)) (newline : Bool) (s : Scheduler)
      (d : BurstLine) (ds : List BurstLine)
      → init_scheduler name ≡ some s
      → contents file ≡ some (lines, newline)
      → read_burstfile atoi lines newline ≡ ok (d ∷ ds)
      → Fits atoi (used atoi lines newline)
      → AllBusy (d ∷ ds)
      → rounds_needed (pos 0) (d ∷ ds) ≤ fuel
      → IsFair passes
      → input_work (d ∷ ds) ≤ length passes
      → Returns
          (Finishes s (used atoi lines newline) (d ∷ ds))
          (main atoi contents clock fuel passes (prog_name ∷ name ∷ file ∷ []))
  main-Finishes prog_name name file lines newline s d ds known opened e fits busy enough fair long =
      let (parsed, well) = read_burstfile-AllParsed atoi lines newline (d ∷ ds) e fits in
      let accepted = init_scheduler-AllAccepted name s (d ∷ ds) known well busy in
      let (t, is, end) =
        simulate-Simulated s.policy s.prepare clock fuel d ds passes enough accepted fair long in
      let (result, are, reported) = Simulated-Reported s.policy.acc d ds t end in
      (
        finished t result,
        main-three prog_name name file lines newline opened
            ∙ start_scheduler-finished name lines newline (d ∷ ds) s t result e known is are,
        (t, result, refl, parsed, end, reported),
      )
