-- ===== src/Simulation/Progress.antt =====
-- Every sequence of turns runs without a fault and keeps the invariant, and a pass in which both
-- threads have a turn brings the simulation forward.
use cpu_schedular.Base.{◌<◌, ◌≡◌, refl, ◌⊎◌, inl, inr, ◌∙◌, List, [], ◌∷◌, arith, Returns, subst}
use cpu_schedular.Sched.Invariant.{Inv}
use cpu_schedular.Sched.Policy.{Policy}
use cpu_schedular.Sched.Progress.{Round, Round-refl, Round-trans}
use cpu_schedular.Sched.Rounds.{CanSchedule, CanWake, schedular-Rounds, wake_up-Rounds}
use cpu_schedular.Sched.Work.{state_work}
use cpu_schedular.Simulation.{Turn, scheduler, wakeup, turn, run}
use cpu_schedular.Threads.{State}

-- There is something to do for the thread whose turn it is.
abbrev pub Can : Turn → State → Type 0
Can scheduler s = CanSchedule s
Can wakeup s = CanWake s

-- The thread has a turn in the sequence.
abbrev pub Has : Turn → List Turn → Type 0
Has x [] = ⊥
Has x (y ∷ ys) = (x ≡ y) ⊎ Has x ys

-- Work was done, or nothing changed since no thread with a turn had anything to do.
abbrev pub Progresses : State → List Turn → State → Type 0
Progresses s xs t = (state_work t < state_work s) ⊎ ((t ≡ s) × ((x : Turn) → Has x xs → ¬ Can x s))

module _ (pol : Policy) where
  turn-Round :
      (x : Turn) (s : State)
      → Inv pol.acc s
      → Returns
          (λ t. Round pol.acc s t × ((state_work t < state_work s) ⊎ ((t ≡ s) × ¬ Can x s)))
          (turn pol x s)
  unfolding turn
  turn-Round scheduler s v = let ((flow, t), is, h) = schedular-Rounds pol s v in (t, rw is, h)
  turn-Round wakeup s v = let ((flow, t), is, h) = wake_up-Rounds pol s v in (t, rw is, h)

  -- From a state with the invariant, every sequence of turns returns without a fault and keeps the
  -- invariant, the number of processes, the task list and the identity of each process. Either the
  -- work has become less, or nothing has changed and no thread with a turn had anything to do.
  pub run-Progresses :
      (xs : List Turn) (s : State)
      → Inv pol.acc s
      → Returns (λ t. Round pol.acc s t × Progresses s xs t) (run pol xs s)
  unfolding run
  run-Progresses [] s v = (s, refl, (Round-refl pol.acc s v, inr (refl, λ x h. absurd h)))
  run-Progresses (x ∷ xs) s v =
      let (t, is, (round, first)) = turn-Round x s v in
      let (u, are, (rounds, others)) = run-Progresses xs t round.inv in
      let later : Progresses s (x ∷ xs) u = elim first [
        | inl less ↦ inl (omega (arith, rounds.work))
        | inr (same, cannot) ↦ elim others [
          | inl less ↦ inl (rw same at less)
          | inr (still, cannots) ↦ inr (
            still ∙ same,
            λ y h. elim h [
              | inl e ↦ rw e cannot
              | inr k ↦ subst (λ z. ¬ Can y z) same (cannots y k)
            ],
          )
        ]
      ] in
      (u, rw is are, (Round-trans pol.acc s t u round rounds, later))
