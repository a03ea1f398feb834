-- ===== src/Sjf/Order/Tests.antt =====
-- Two jobs in the ready queue of sjf, and the theorems on their order.
use cpu_schedular.Base.{
  ◌≡◌, refl, ◌≤ℤ◌, pos, none, some, inl, inr, [], ◌∷◌, arith, int_laws, ◌==◌, Bool-cases, subst,
  get_elem?, Returns,
}
use cpu_schedular.Main.{simulate}
use cpu_schedular.Main.Shortest.{sjf-IsShortestFirst}
use cpu_schedular.Main.Tests.{
  short_line, long_line, two_lines, still_clock, four_rounds, two_lines-AllWellFormed,
}
use cpu_schedular.Process.{Process, create_process}
use cpu_schedular.Queue.{dequeue}
use cpu_schedular.Sched.{take_ready}
use cpu_schedular.Simulation.{scheduler}
use cpu_schedular.Sjf.{policy, prepare_sjf}
use cpu_schedular.Sjf.Order.{IsShortestFirst}
use cpu_schedular.Sjf.Order.Front.{take_ready-le}
use cpu_schedular.Threads.{State, update, init}

-- The job of 5 came first, and the job of 3 stands in front of it.
abbrev long_job : Process
unfolding create_process
long_job = record (create_process 0) { process_d = short_line; priority = pos 5 }

abbrev short_job : Process
unfolding create_process
short_job = record (create_process 1) { process_d = long_line; priority = pos 3 }

abbrev two_jobs : State
unfolding init
two_jobs = record (init 2 still_clock) {
  store = update (update (λ r. none) 0 long_job) 1 short_job;
  ready_queue = record { task = 1; priority = pos 3 } ∷ record { task = 0; priority = pos 5 } ∷ [];
  ready_count = 2;
  t_process = 2;
}

two_jobs-IsShortestFirst : IsShortestFirst two_jobs
unfolding two_jobs long_job short_job
two_jobs-IsShortestFirst = record {
  ready = (((omega int_laws, tt), (tt, tt)), (refl, (refl, tt)));
  wait = (tt, tt);
  lengths = λ r p stored. elim (Bool-cases (r == 1)) [
    | inl one ↦
        let new : short_job ≡ p = ground arith in
        subst (λ (x : Process). get_elem? x.process_d.cpu_burst 0 ≡ some x.priority) new refl
    | inr other ↦ elim (Bool-cases (r == 0)) [
      | inl nought ↦
          let new : long_job ≡ p = ground arith in
          subst (λ (x : Process). get_elem? x.process_d.cpu_burst 0 ≡ some x.priority) new refl
      | inr neither ↦ absurd (ground arith)
    ]
  ];
}

take_ready-le_example : pos 3 ≤ℤ pos 5
unfolding take_ready dequeue two_jobs long_job short_job
take_ready-le_example =
    take_ready-le two_jobs 1 0 short_job long_job (pos 3) (pos 5) two_jobs-IsShortestFirst refl
      (λ none_left. omega (arith, none_left)) refl refl refl refl

-- The scheduler thread has made a round of its loop, the wake-up thread none.
sjf-IsShortestFirst_example :
    Returns IsShortestFirst
      (simulate policy prepare_sjf still_clock 4 two_lines ((scheduler ∷ []) ∷ []))
sjf-IsShortestFirst_example =
    sjf-IsShortestFirst still_clock 4 short_line (long_line ∷ []) ((scheduler ∷ []) ∷ [])
      four_rounds two_lines-AllWellFormed (omega arith, (omega arith, tt))
