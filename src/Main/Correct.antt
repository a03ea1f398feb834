-- ===== src/Main/Correct.antt =====
-- The simulation from the input to the end.
use cpu_schedular.Arrival.{add_arrival_process, rounds_needed}
use cpu_schedular.Arrival.Invariant.{IsListed}
use cpu_schedular.Arrival.Arrived.{HasLines, HasLines-mono, AllAccepted, Arrived}
use cpu_schedular.Arrival.Loop.{add_arrival_process-Arrived}
use cpu_schedular.Base.{
  ℕ, suc, ◌+◌, ◌≤◌, ◌≡◌, refl, ◌∙◌, subst, sym, pos, some, List, [], ◌∷◌, Run, ok, length, arith,
  Returns,
}
use cpu_schedular.Main.{simulate}
use cpu_schedular.Main.Start.{init-Inv, init-IsListed, input_work, state_work-le}
use cpu_schedular.Process.{BurstLine, Process}
use cpu_schedular.Sched.Lifecycle.{Accounting, IsDone}
use cpu_schedular.Sched.Policy.{Policy}
use cpu_schedular.Simulation.{Turn, run, join}
use cpu_schedular.Sched.Progress.{Round}
use cpu_schedular.Simulation.Finish.{Finished, IsFair, run-Finished}
use cpu_schedular.Threads.{State, init}
use cpu_schedular.Time.{Timespec}

-- The process of each line has terminated, with the accounts of all its bursts.
abbrev pub AllDone : Accounting → ℕ → List BurstLine → State → Type 0
AllDone acc n [] s = Unit {0}
AllDone acc n (d ∷ ds) s =
    ((p : Process) × (s.store n ≡ some p)
      × (p.pid ≡ n)
      × (p.process_d ≡ d)
      × IsDone acc s.quantum p)
    × AllDone acc (suc n) ds s

AllDone-Finished :
    (acc : Accounting) (n : ℕ) (ds : List BurstLine) (s : State)
    → HasLines n ds s
    → n + length ds ≤ s.t_process
    → Finished acc s
    → AllDone acc n ds s
AllDone-Finished acc n [] s h le f = tt
AllDone-Finished acc n (d ∷ ds) s (h, hs) le f =
    let (p, stored, done) = f.each n (omega arith) in
    let same : some (p.pid, p.process_d) ≡ some (n, d) = rw stored at h in
    ((p, stored, cc, cc, done), AllDone-Finished acc (suc n) ds s hs (omega arith) f)

-- The end of a simulation of the lines `ds`.
pub record Simulated (acc : Accounting) (ds : List BurstLine) (t : State) : Type 0 where
  pub quantum : t.quantum ≡ 50
  pub t_process : t.t_process ≡ length ds
  pub total_process : t.total_process ≡ length ds
  pub terminated : t.terminated_process ≡ length ds
  pub ready_queue : t.ready_queue ≡ []
  pub wait_queue : t.wait_queue ≡ []
  pub listed : IsListed t
  pub done : AllDone acc 0 ds t

IsListed-keep :
    (s t : State) → t.task_list ≡ s.task_list → t.t_process ≡ s.t_process → IsListed s → IsListed t
IsListed-keep s t e n l = record {
  once = λ r lt. rw e (l.once r (rw n at lt));
  no_other = λ r le. rw e (l.no_other r (rw n at le));
  size = rw (e, n) l.size;
}

-- What the arrivals left, and what the turns made of it.
pub assemble :
    (acc : Accounting) (ds : List BurstLine) (start s t : State)
    → start.t_process ≡ 0
    → start.quantum ≡ 50
    → start.total_process ≡ length ds
    → Arrived acc ds start s
    → Round acc s t
    → Finished acc t
    → Simulated acc ds t
assemble acc ds start s t z q total a round f =
    let n : t.t_process ≡ length ds = omega (arith, a.t_process, round.t_process) in
    let lines = subst (λ m. HasLines m ds s) z a.newer in
    record {
      quantum = round.quantum ∙ a.quantum ∙ q;
      t_process = n;
      total_process = round.total_process ∙ a.total_process ∙ total;
      terminated = f.all ∙ n;
      ready_queue = f.ready_queue;
      wait_queue = f.wait_queue;
      listed = IsListed-keep s t round.task_list round.t_process a.listed;
      done =
          AllDone-Finished acc 0 ds t (HasLines-mono 0 ds s t (λ r le lt. round.identity r) lines)
            (omega arith) f;
    }

module _ (pol : Policy) (prepare : Process → Run Process) (clock : ℕ → Timespec) where
  pub simulate-run :
      (fuel : ℕ) (lines : List BurstLine) (passes : List (List Turn)) (s : State)
      → add_arrival_process pol.ops prepare fuel lines (init (length lines) clock) ≡ ok s
      → simulate pol prepare clock fuel lines passes ≡ run pol (join passes) s
  unfolding simulate
  simulate-run fuel lines passes s e = rw e

  -- Under any policy, for at least one line, if `prepare` makes of each line a process that the
  -- policy accepts: with fuel for the arrivals, and as many fair passes as the input has work, the
  -- simulation returns without a fault. Then the queues are empty, all processes are counted as
  -- terminated, the task list holds each once, and the process of each line has terminated with the
  -- accounts of all its bursts.
  pub simulate-Simulated :
      (fuel : ℕ) (d : BurstLine) (ds : List BurstLine) (passes : List (List Turn))
      → rounds_needed (pos 0) (d ∷ ds) ≤ fuel
      → AllAccepted pol.acc prepare 50 (d ∷ ds)
      → IsFair passes
      → input_work (d ∷ ds) ≤ length passes
      → Returns (Simulated pol.acc (d ∷ ds)) (simulate pol prepare clock fuel (d ∷ ds) passes)
  unfolding init
  simulate-Simulated fuel d ds passes enough good fair le =
      let lines = d ∷ ds in
      let start = init (length lines) clock in
      let (s, is, a) =
        add_arrival_process-Arrived pol.acc pol.ops prepare fuel d ds start enough good
          (init-Inv (length lines) clock pol.acc) (init-IsListed (length lines) clock) in
      let n : s.t_process ≡ length lines = omega (arith, a.t_process) in
      let total : s.total_process ≡ s.t_process = a.total_process ∙ sym n in
      let (t, are, (round, f)) =
        run-Finished pol passes s a.inv total fair
          (omega (arith, state_work-le lines s n a.newer)) in
      (
        t,
        simulate-run fuel lines passes s is ∙ are,
        assemble pol.acc lines start s t refl refl refl a round f,
      )
