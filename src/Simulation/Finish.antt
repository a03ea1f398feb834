-- ===== src/Simulation/Finish.antt =====
-- With fair turns the simulation finishes: all processes have terminated, and each has had all of
-- its bursts.
use cpu_schedular.Base.{
  ◌<◌, ◌≤◌, ◌≡◌, refl, sym, ap, ◌≢◌, ◌⊎◌, inl, inr, ◌∙◌, List, [], ◌∷◌, ◌++◌, arith, Returns, ok,
  >>=-eq-ok, length, some, ltb, tests, Bool-cases,
}
use cpu_schedular.Process.{Process}
use cpu_schedular.Queue.{Ref, Queue}
use cpu_schedular.Queue.Laws.{occurs}
use cpu_schedular.Sched.Invariant.{Inv}
use cpu_schedular.Sched.Lifecycle.{Accounting, IsDone, work}
use cpu_schedular.Sched.Policy.{Policy}
use cpu_schedular.Sched.Progress.{Round-trans, Round, Round-refl}
use cpu_schedular.Sched.Rounds.{CanSchedule, CanWake}
use cpu_schedular.Sched.Work.{state_work, total_work-zero, work_at-le, work_at}
use cpu_schedular.Simulation.{Turn, scheduler, wakeup, turn, run, join}
use cpu_schedular.Simulation.Progress.{Has, Progresses, run-Progresses}
use cpu_schedular.Threads.{State}

-- All processes have terminated.
pub record Finished (acc : Accounting) (s : State) : Type 0 where
  pub ready_queue : s.ready_queue ≡ []
  pub wait_queue : s.wait_queue ≡ []
  pub all : s.terminated_process ≡ s.t_process
  pub each :
      (r : Ref) → r < s.t_process → (p : Process) × (s.store r ≡ some p) × IsDone acc s.quantum p

empty_of_length : (q : Queue) → length q ≡ 0 → q ≡ []
empty_of_length [] e = refl
empty_of_length (x ∷ q) e = absurd (omega arith)

empty_of_occurs : (q : Queue) → ((r : Ref) → occurs r q ≡ 0) → q ≡ []
empty_of_occurs [] h = refl
empty_of_occurs (x ∷ q) h = absurd (ground (arith, h x.task))

empty_unless : (q : Queue) → ¬ (q ≢ []) → q ≡ []
empty_unless [] h = refl
empty_unless (x ∷ q) h = absurd (h (λ e. cc))

module _ (acc : Accounting) (s : State) (v : Inv acc s) where
  -- With all processes counted as terminated nothing is left in the queues.
  pub counted-Finished : s.t_process ≤ s.terminated_process → Finished acc s
  counted-Finished h =
      let er = empty_of_length s.ready_queue (omega (arith, v.counted)) in
      let ew = empty_of_length s.wait_queue (omega (arith, v.counted)) in
      record {
        ready_queue = er;
        wait_queue = ew;
        all = omega (arith, v.counted);
        each = λ r lt.
            let (p, stored, place) = v.placed r lt in
            let gone : occurs r s.ready_queue ≡ 0 = rw er in
            let away : occurs r s.wait_queue ≡ 0 = rw ew in
            elim place [
              | inl (one, _, _) ↦ absurd (omega (arith, gone))
              | inr (inl (_, one, _)) ↦ absurd (omega (arith, away))
              | inr (inr (_, _, done)) ↦ (p, stored, done)
            ];
      }

  -- If neither thread has anything to do, all have terminated.
  idle-Finished : s.total_process ≡ s.t_process → ¬ CanSchedule s → ¬ CanWake s → Finished acc s
  idle-Finished n no_ready no_wait = elim (Bool-cases (ltb s.terminated_process s.t_process)) [
    | inl e ↦
        let less : s.terminated_process < s.total_process = omega (tests, n) in
        let er = empty_unless s.ready_queue (λ ne. no_ready (ne, less)) in
        let ew = empty_unless s.wait_queue (λ ne. no_wait (ne, less)) in
        counted-Finished (omega (arith, v.counted, ap length er, ap length ew))
    | inr e ↦ counted-Finished (omega tests)
  ]

  pub Finished-work : Finished acc s → state_work s ≡ 0
  Finished-work f =
      total_work-zero s.t_process s.store
        λ r lt. let (p, stored, done) = f.each r lt in rw (stored, done.status)

  module _ (e : state_work s ≡ 0) (r : Ref) where
    idle_at : r < s.t_process → (p : Process) → s.store r ≡ some p → work p.status p ≡ 0
    idle_at lt p stored =
        let le = work_at-le s.t_process s.store r lt in
        let at : work_at (s.store r) ≡ work p.status p = rw stored in omega arith

    absent-queues : (occurs r s.ready_queue ≡ 0) × (occurs r s.wait_queue ≡ 0)
    absent-queues = elim (Bool-cases (ltb r s.t_process)) [
      | inr out ↦ v.absent r (omega tests)
      | inl created ↦
          let (p, stored, place) = v.placed r (omega tests) in
          let idle = idle_at (omega tests) p stored in
          elim place [
            | inl (_, _, is) ↦ elim is.status [
              | inl (st, _) ↦ absurd (omega (arith, rw st at idle))
              | inr st ↦ absurd (omega (arith, rw st at idle))
            ]
            | inr (inl (_, _, is)) ↦ absurd (omega (arith, rw is.status at idle))
            | inr (inr (a, b, _)) ↦ (a, b)
          ]
    ]

  -- A process in a queue has work before it, so that with no work left all have terminated.
  work-Finished : state_work s ≡ 0 → Finished acc s
  work-Finished e =
      let er = empty_of_occurs s.ready_queue (λ r. (absent-queues e r).0) in
      let ew = empty_of_occurs s.wait_queue (λ r. (absent-queues e r).1) in
      counted-Finished (omega (arith, v.counted, ap length er, ap length ew))

-- In each pass both threads have a turn.
abbrev pub IsFair : List (List Turn) → Type 0
IsFair [] = Unit {0}
IsFair (xs ∷ ps) = Has scheduler xs × Has wakeup xs × IsFair ps

module _ (pol : Policy) where
  run-append :
      (xs ys : List Turn) (s t : State) → run pol xs s ≡ ok t → run pol (xs ++ ys) s ≡ run pol ys t
  unfolding run
  run-append [] ys s t e = let same : s ≡ t = cc in rw same
  run-append (x ∷ xs) ys s t e =
      let (u, is, are) = >>=-eq-ok (turn pol x s) (run pol xs) e in rw is (run-append xs ys u t are)

  -- After a pass there is less to do, or nothing.
  pass_work :
      (xs : List Turn) (s t : State)
      → s.total_process ≡ s.t_process
      → Inv pol.acc s
      → Has scheduler xs
      → Has wakeup xs
      → Progresses s xs t
      → (state_work t < state_work s) ⊎ (state_work t ≡ 0)
  pass_work xs s t n v a b (inl less) = inl less
  pass_work xs s t n v a b (inr (same, cannot)) = inr (
      rw same (
        Finished-work pol.acc s v
          (idle-Finished pol.acc s v n (cannot scheduler a) (cannot wakeup b))))

  run-work :
      (ps : List (List Turn)) (s : State)
      → Inv pol.acc s
      → s.total_process ≡ s.t_process
      → IsFair ps
      → state_work s ≤ length ps
      → Returns (λ t. Round pol.acc s t × (state_work t ≡ 0)) (run pol (join ps) s)
  unfolding run join
  run-work [] s v n f le = (s, refl, (Round-refl pol.acc s v, omega arith))
  run-work (xs ∷ ps) s v n (a, b, f) le =
      let (t, is, (round, moved)) = run-Progresses pol xs s v in
      let le' : state_work t ≤ length ps = elim (pass_work xs s t n v a b moved) [
        | inl less ↦ omega arith
        | inr none_left ↦ omega arith
      ] in
      let (u, are, (rounds, done)) =
        run-work ps t round.inv (round.total_process ∙ n ∙ sym round.t_process) f le' in
      (u, run-append xs (join ps) s t is ∙ are, (Round-trans pol.acc s t u round rounds, done))

  -- From a state with the invariant in which all processes have arrived, as many fair passes as
  -- there is work, or more, return without a fault, and then the queues are empty and all processes
  -- have terminated with the accounts of all their bursts. The invariant, the task list and the
  -- identity of each process are kept.
  pub run-Finished :
      (ps : List (List Turn)) (s : State)
      → Inv pol.acc s
      → s.total_process ≡ s.t_process
      → IsFair ps
      → state_work s ≤ length ps
      → Returns (λ t. Round pol.acc s t × Finished pol.acc t) (run pol (join ps) s)
  run-Finished ps s v n f le =
      let (t, is, (round, done)) = run-work ps s v n f le in
      (t, is, (round, work-Finished pol.acc t round.inv done))
