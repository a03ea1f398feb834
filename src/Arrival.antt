-- ===== src/Arrival.antt =====
-- `add_arrival_process_*` of the four schedulers: the arrival thread, which runs to its end before
-- the other threads start. The schedulers differ in what they set in a new process, `prepare`.
pub mod Invariant
pub mod Arrived
pub mod Loop
use cpu_schedular.Base.{
  ℕ, zero, suc, ◌+◌, ◌-◌, ℤ, pos, pos_part, neg_part, true, false, List, [], ◌∷◌, Run, ok, fault,
  out_of_fuel, ◌>>=◌, leb_ℤ,
}
use cpu_schedular.Process.{BurstLine, Process}
use cpu_schedular.Queue.{Ref}
use cpu_schedular.Sched.{ThreadOps, add_to_ready_queue, add_to_task_list}
use cpu_schedular.Threads.{
  State, put, create, post_ready, update_global_counter, read_global_counter,
}

-- The new process goes into the store, the ready queue and the task list, and the scheduler thread
-- is told.
unfoldable pub admit : ThreadOps → Ref → Process → State → State
unfolding put add_to_ready_queue add_to_task_list post_ready
admit ops r p s = post_ready (add_to_task_list ops r p (add_to_ready_queue ops r p (put r p s)))

module _ (ops : ThreadOps) (prepare : Process → Run Process) where
  -- The process of a line is created and queued. Its reference is the counter of processes.
  unfoldable pub arrive : BurstLine → State → Run State
  arrive d s =
      let (fresh, counted) = create d s in
      do p ← prepare fresh; ok (admit ops s.t_process p counted)

  -- The loop over the lines that are left: a line whose time has come arrives, and the counter
  -- moves on after every round but the last.
  unfoldable pub arrivals : ℕ → List BurstLine → State → Run State
  arrivals zero ds s = out_of_fuel
  arrivals (suc f) [] s = ok s
  arrivals (suc f) (d ∷ ds) s = elim (leb_ℤ d.a_time (read_global_counter s)) [
    | true ↦ do
      t ← arrive d s
      elim ds [ [] ↦ ok t | e ∷ es ↦ arrivals f (e ∷ es) (update_global_counter (pos 1) t) ]
    | false ↦ arrivals f (d ∷ ds) (update_global_counter (pos 1) s)
  ]

  -- The time of the last line is read first, which is out of bounds if there is none.
  unfoldable pub add_arrival_process : ℕ → List BurstLine → State → Run State
  add_arrival_process f [] s = fault
  add_arrival_process f (d ∷ ds) s = arrivals f (d ∷ ds) s

-- How far a time lies ahead of the counter, and the rounds that the loop makes at most.
abbrev pub gap : ℤ → ℤ → ℕ
gap time counter = pos_part time + neg_part counter - (pos_part counter + neg_part time)

unfoldable pub rounds_needed : ℤ → List BurstLine → ℕ
rounds_needed counter [] = 1
rounds_needed counter (d ∷ ds) = suc (gap d.a_time counter + rounds_needed counter ds)
