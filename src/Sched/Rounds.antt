-- ===== src/Sched/Rounds.antt =====
-- The loops of the scheduler thread and of the wake-up thread, a round at a time.
use cpu_schedular.Base.{
  suc, ◌<◌, ◌≤◌, ◌≡◌, ◌≢◌, ◌⊎◌, refl, some, true, false, [], ◌∷◌, Run, ok, length, arith, tests,
  leb, ◌==◌, Bool-cases, inl, inr, Returns,
}
use cpu_schedular.Process.{Status}
use cpu_schedular.Queue.{Ref, Item, Queue}
use cpu_schedular.Sched.{
  Flow, leaves, stays, take_ready, take_wait, handle, schedular, wake_up, process_io,
}
use cpu_schedular.Sched.Invariant.{Inv}
use cpu_schedular.Sched.Bursts.{IoOutcome-Outcome}
use cpu_schedular.Sched.Io.{process_io-IoOutcome}
use cpu_schedular.Sched.Lifecycle.{Accounting}
use cpu_schedular.Sched.Policy.{Policy}
use cpu_schedular.Sched.Take.{take_ready-Takes, take_wait-Takes}
use cpu_schedular.Sched.Work.{state_work}
use cpu_schedular.Threads.{State, all_processes_done}
use cpu_schedular.Sched.Progress.{
  Round, Round-refl, Progress, Outcome-Progress, Keeps, Keeps-Progress,
}

module _ (s : State) (x : Item) (q : Queue) (process : Ref → State → Run (Status × State)) where
  pub take_ready-front : s.ready_queue ≡ x ∷ q → (take_ready s).running_pd ≡ some x.task
  unfolding take_ready
  take_ready-front e = ground arith

  take_wait-front : s.wait_queue ≡ x ∷ q → (take_wait s).sleeping_pd ≡ some x.task
  unfolding take_wait
  take_wait-front e = ground arith

  pub schedular-take :
      s.ready_queue ≡ x ∷ q
      → leb s.total_process s.terminated_process ≡ false
      → (s.ready_count == 0) ≡ false
      → schedular process s ≡ handle (some x.task) process (take_ready s)
  unfolding schedular all_processes_done
  schedular-take e more up = rw (more, up, take_ready-front e)

  pub wake_up-take :
      s.wait_queue ≡ x ∷ q
      → leb s.total_process s.terminated_process ≡ false
      → (s.wait_count == 0) ≡ false
      → wake_up process s ≡ handle (some x.task) process (take_wait s)
  unfolding wake_up
  wake_up-take e more up = rw (more, up, take_wait-front e)

module _ (s : State) (process : Ref → State → Run (Status × State)) where
  -- Where a thread has nothing to take, or nothing to do any more, its round changes nothing.
  pub schedular-idle :
      (s.ready_count ≡ 0) ⊎ (s.total_process ≤ s.terminated_process)
      → (flow : Flow) × (schedular process s ≡ ok (flow, s))
  unfolding schedular
  schedular-idle h = elim (Bool-cases (leb s.total_process s.terminated_process)) [
    | inl e ↦ (leaves, rw e)
    | inr e ↦ elim (Bool-cases (all_processes_done s)) [
      | inl d ↦ (leaves, rw (e, d))
      | inr d ↦
          let none_up : (s.ready_count == 0) ≡ true = ground arith in (stays, rw (e, d, none_up))
    ]
  ]

  pub wake_up-idle :
      (s.wait_count ≡ 0) ⊎ (s.total_process ≤ s.terminated_process)
      → (flow : Flow) × (wake_up process s ≡ ok (flow, s))
  unfolding wake_up
  wake_up-idle h = elim (Bool-cases (leb s.total_process s.terminated_process)) [
    | inl e ↦ (leaves, rw e)
    | inr e ↦ let none_up : (s.wait_count == 0) ≡ true = ground arith in (stays, rw (e, none_up))
  ]

-- The scheduler thread has a process to take, and more to do.
abbrev pub CanSchedule : State → Type 0
CanSchedule s = (s.ready_queue ≢ []) × (s.terminated_process < s.total_process)

abbrev pub CanWake : State → Type 0
CanWake s = (s.wait_queue ≢ []) × (s.terminated_process < s.total_process)

-- A round returns and keeps what `Round` says. It makes progress, or it changes nothing, and then
-- there was nothing to do.
abbrev pub Rounds : Accounting → State → Type 0 → Run (Flow × State) → Type 0
Rounds acc s can =
    Returns λ (flow, t). Round acc s t × ((state_work t < state_work s) ⊎ ((t ≡ s) × ¬ can))

-- Taking a process from its queue leaves the store alone.
pub take_ready-Keeps : (s : State) → Keeps s (take_ready s)
unfolding take_ready
take_ready-Keeps s = record {
  t_process = refl;
  total_process = refl;
  quantum = refl;
  task_list = refl;
  identity = λ r. refl;
  work = refl;
}

pub take_wait-Keeps : (s : State) → Keeps s (take_wait s)
unfolding take_wait
take_wait-Keeps s = record {
  t_process = refl;
  total_process = refl;
  quantum = refl;
  task_list = refl;
  identity = λ r. refl;
  work = refl;
}

module _ (acc : Accounting) (s u : State) (k : Keeps s u)
    (process : Ref → State → Run (Status × State)) where
  -- The round of a thread that has taken the process `r`.
  handle-Rounds :
      (r : Ref) (can : Type 0)
      → Returns (λ (status, t). Progress acc u t) (process r u)
      → Rounds acc s can (handle (some r) process u)
  handle-Rounds r can ((status, t), is, o) =
      let (round, less) = Keeps-Progress acc s u t k o in ((stays, t), rw is, (round, inl less))

module _ (pol : Policy) (s : State) (v : Inv pol.acc s) where
  schedular_at :
      (q : Queue)
      → s.ready_queue ≡ q
      → Rounds pol.acc s (CanSchedule s) (schedular pol.process_cpu s)
  schedular_at [] e =
      let z : length s.ready_queue ≡ 0 = rw e in
      let (flow, is) = schedular-idle s pol.process_cpu (inl (omega (arith, z, v.ready_count))) in
      ((flow, s), is, (Round-refl pol.acc s v, inr (refl, λ can. can.0 e)))
  schedular_at (x ∷ q) e = elim (Bool-cases (leb s.total_process s.terminated_process)) [
    | inl over ↦
        let (flow, is) = schedular-idle s pol.process_cpu (inr (omega tests)) in
        ((flow, s), is, (Round-refl pol.acc s v, inr (refl, λ can. omega (tests, can.1))))
    | inr more ↦
        let n : length s.ready_queue ≡ suc (length q) = rw e in
        let up : (s.ready_count == 0) ≡ false = ground (arith, n, v.ready_count) in
        let (held, (p, stored, ready)) = take_ready-Takes pol.acc s x q v e in
        let k = take_ready-Keeps s in
        let running = take_ready-front s x q pol.process_cpu e in
        let o =
          pol.process_cpu-Progress x.task (take_ready s) p held running stored
            (rw k.quantum ready) in
        rw (schedular-take s x q pol.process_cpu e more up)
          (handle-Rounds pol.acc s (take_ready s) k pol.process_cpu x.task (CanSchedule s) o)
  ]

  wake_up_at :
      (q : Queue) → s.wait_queue ≡ q → Rounds pol.acc s (CanWake s) (wake_up (process_io pol.ops) s)
  wake_up_at [] e =
      let z : length s.wait_queue ≡ 0 = rw e in
      let (flow, is) = wake_up-idle s (process_io pol.ops) (inl (omega (arith, z, v.wait_count))) in
      ((flow, s), is, (Round-refl pol.acc s v, inr (refl, λ can. can.0 e)))
  wake_up_at (x ∷ q) e = elim (Bool-cases (leb s.total_process s.terminated_process)) [
    | inl over ↦
        let (flow, is) = wake_up-idle s (process_io pol.ops) (inr (omega tests)) in
        ((flow, s), is, (Round-refl pol.acc s v, inr (refl, λ can. omega (tests, can.1))))
    | inr more ↦
        let n : length s.wait_queue ≡ suc (length q) = rw e in
        let up : (s.wait_count == 0) ≡ false = ground (arith, n, v.wait_count) in
        let (held, (p, stored, asleep)) = take_wait-Takes pol.acc s x q v e in
        let k = take_wait-Keeps s in
        let ((status, t), is, o) =
          process_io-IoOutcome pol.acc pol.ops x.task (take_wait s) p stored
            (rw k.quantum asleep) in
        let had =
          IoOutcome-Outcome pol.acc pol.ops x.task p (take_wait s) (status, t) (rw k.quantum asleep)
            o in
        let progress = Outcome-Progress pol.acc pol.ops x.task p (take_wait s) t held stored had in
        rw (wake_up-take s x q (process_io pol.ops) e more up) (
          handle-Rounds pol.acc s (take_wait s) k (process_io pol.ops) x.task (CanWake s)
            ((status, t), is, progress))
  ]

  -- From a state with the invariant, a round of the scheduler thread returns without a fault and
  -- keeps the invariant. It makes the work less, or it changes nothing, and then the ready queue was
  -- empty or all processes had terminated.
  pub schedular-Rounds : Rounds pol.acc s (CanSchedule s) (schedular pol.process_cpu s)
  schedular-Rounds = schedular_at s.ready_queue refl

  -- From a state with the invariant, a round of the wake-up thread returns without a fault and keeps
  -- the invariant. It makes the work less, or it changes nothing, and then the wait queue was empty
  -- or all processes had terminated.
  pub wake_up-Rounds : Rounds pol.acc s (CanWake s) (wake_up (process_io pol.ops) s)
  wake_up-Rounds = wake_up_at s.wait_queue refl
