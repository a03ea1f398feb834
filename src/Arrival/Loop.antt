-- ===== src/Arrival/Loop.antt =====
-- The arrival thread returns, and then all processes are ready and listed.
use cpu_schedular.Base.{
  ℕ, zero, suc, ◌≤◌, ◌≡◌, refl, ap, sym, subst, ◌∙◌, ℤ, pos, ◌+ℤ◌, true, false, List, [], ◌∷◌, Run,
  ok, arith, int_laws, tests, leb_ℤ, Bool-cases, inl, inr, Returns,
}
use cpu_schedular.Arrival.{admit, arrive, arrivals, add_arrival_process, gap, rounds_needed}
use cpu_schedular.Arrival.Arrived.{
  Accepts, AllAccepted, Arrived, tick-Arrived, Arrived-refl, Arrived-trans,
}
use cpu_schedular.Arrival.Invariant.{IsListed, Arrives, Arrives-IsListed, Arrives-Inv}
use cpu_schedular.Process.{BurstLine, Process, create_process}
use cpu_schedular.Sched.{ThreadOps}
use cpu_schedular.Sched.Invariant.{Inv}
use cpu_schedular.Sched.Lifecycle.{Accounting}
use cpu_schedular.Sched.Cpu.{tick_counter}
use cpu_schedular.Threads.{State, create, update_global_counter}

-- As the counter moves on, times do not get further ahead of it.
module _ (c : ℤ) where
  gap-next : (a : ℤ) → leb_ℤ a c ≡ false → gap a c ≡ suc (gap a (c +ℤ pos 1))
  gap-next a h = omega (tests, int_laws)

  gap_mono : (a : ℤ) → gap a (c +ℤ pos 1) ≤ gap a c
  gap_mono a = omega int_laws

  rounds_needed_mono : (ds : List BurstLine) → rounds_needed (c +ℤ pos 1) ds ≤ rounds_needed c ds
  unfolding rounds_needed
  rounds_needed_mono [] = omega arith
  rounds_needed_mono (d ∷ ds) = omega (arith, gap_mono d.a_time, rounds_needed_mono ds)

pub admit-Arrives :
    (ops : ThreadOps) (d : BurstLine) (p : Process) (s : State)
    → Arrives ops p s (admit ops s.t_process p (create d s).1)
unfolding admit create
admit-Arrives ops d p s = record {
  store = refl;
  ready_queue = refl;
  task_list = refl;
  wait_queue = refl;
  t_process = refl;
  total_process = refl;
  terminated_process = refl;
  ready_count = refl;
  wait_count = refl;
  quantum = refl;
  global_counter = refl;
}

fuel_wait :
    (f : ℕ) (d : BurstLine) (ds : List BurstLine) (s : State)
    → leb_ℤ d.a_time s.global_counter ≡ false
    → rounds_needed s.global_counter (d ∷ ds) ≤ suc f
    → rounds_needed (update_global_counter (pos 1) s).global_counter (d ∷ ds) ≤ f
unfolding rounds_needed
fuel_wait f d ds s e fuel =
    subst (λ c. rounds_needed c (d ∷ ds) ≤ f) (sym (tick_counter s))
      (omega (arith, gap-next s.global_counter d.a_time e, rounds_needed_mono s.global_counter ds))

fuel_next :
    (f : ℕ) (d : BurstLine) (ds : List BurstLine) (s t : State)
    → t.global_counter ≡ s.global_counter
    → rounds_needed s.global_counter (d ∷ ds) ≤ suc f
    → rounds_needed (update_global_counter (pos 1) t).global_counter ds ≤ f
unfolding rounds_needed
fuel_next f d ds s t e fuel =
    subst (λ c. rounds_needed c ds ≤ f) (sym (tick_counter t ∙ ap (λ c. c +ℤ pos 1) e))
      (omega (arith, rounds_needed_mono s.global_counter ds))

module _ (acc : Accounting) (ops : ThreadOps) (prepare : Process → Run Process) where
  pub arrive-admit :
      (d : BurstLine) (s : State) (p : Process)
      → prepare (record (create_process s.t_process) { process_d = d }) ≡ ok p
      → arrive ops prepare d s ≡ ok (admit ops s.t_process p (create d s).1)
  unfolding arrive create
  arrive-admit d s p e = rw e

  pub arrive-Arrived :
      (d : BurstLine) (s : State)
      → Accepts acc prepare s.quantum d
      → Inv acc s
      → IsListed s
      → Returns
          (λ t. Arrived acc (d ∷ []) s t × (t.global_counter ≡ s.global_counter))
          (arrive ops prepare d s)
  arrive-Arrived d s accepts v l =
      let (p, made, (ready, pid, line)) = accepts s.t_process in
      let t = admit ops s.t_process p (create d s).1 in
      let a = admit-Arrives ops d p s in
      (
        t,
        arrive-admit d s p made,
        (
          record {
            inv = Arrives-Inv acc ops p s t a ready v;
            listed = Arrives-IsListed acc ops p s t a l;
            t_process = omega (arith, a.t_process);
            total_process = a.total_process;
            quantum = a.quantum;
            older = λ r lt. rw a.store (ground arith);
            newer = (rw a.store (ground (arith, pid, line)), tt);
          },
          a.global_counter,
        ),
      )

  pub arrivals-nil : (f : ℕ) (s : State) → arrivals ops prepare (suc f) [] s ≡ ok s
  unfolding arrivals
  arrivals-nil f s = refl

  -- The loop waits for the time of the line.
  pub arrivals-wait :
      (f : ℕ) (d : BurstLine) (ds : List BurstLine) (s : State)
      → leb_ℤ d.a_time s.global_counter ≡ false
      → arrivals ops prepare (suc f) (d ∷ ds) s
        ≡ arrivals ops prepare f (d ∷ ds) (update_global_counter (pos 1) s)
  unfolding arrivals
  arrivals-wait f d ds s e = rw (e, arrivals)

  pub arrivals-last :
      (f : ℕ) (d : BurstLine) (s t : State)
      → leb_ℤ d.a_time s.global_counter ≡ true
      → arrive ops prepare d s ≡ ok t
      → arrivals ops prepare (suc f) (d ∷ []) s ≡ ok t
  unfolding arrivals
  arrivals-last f d s t e is = rw (e, is, arrivals)

  pub arrivals-next :
      (f : ℕ) (d e : BurstLine) (es : List BurstLine) (s t : State)
      → leb_ℤ d.a_time s.global_counter ≡ true
      → arrive ops prepare d s ≡ ok t
      → arrivals ops prepare (suc f) (d ∷ e ∷ es) s
        ≡ arrivals ops prepare f (e ∷ es) (update_global_counter (pos 1) t)
  unfolding arrivals
  arrivals-next f d e es s t h is = rw (h, is, arrivals)

  -- The rest of the loop, once a process has arrived.
  after_arrival :
      (f : ℕ) (d : BurstLine) (ds : List BurstLine) (s t : State)
      → leb_ℤ d.a_time s.global_counter ≡ true
      → arrive ops prepare d s ≡ ok t
      → Arrived acc (d ∷ []) s t
      → Arrived acc [] t (update_global_counter (pos 1) t)
      → Returns
          (Arrived acc ds (update_global_counter (pos 1) t))
          (arrivals ops prepare f ds (update_global_counter (pos 1) t))
      → Returns (Arrived acc (d ∷ ds) s) (arrivals ops prepare (suc f) (d ∷ ds) s)
  after_arrival f d [] s t e is one tick rest = (t, arrivals-last f d s t e is, one)
  after_arrival f d (e ∷ es) s t h is one tick (u, are, arrived) =
      let begun = Arrived-trans acc (d ∷ []) [] s t _ one tick in
      (
        u,
        arrivals-next f d e es s t h is ∙ are,
        Arrived-trans acc (d ∷ []) (e ∷ es) s _ u begun arrived,
      )

  -- With fuel for the rounds that it makes, the arrival thread returns. If every line is accepted,
  -- the invariant holds then, and as many processes as there are lines have been created.
  pub arrivals-Arrived :
      (f : ℕ) (ds : List BurstLine) (s : State)
      → rounds_needed s.global_counter ds ≤ f
      → AllAccepted acc prepare s.quantum ds
      → Inv acc s
      → IsListed s
      → Returns (Arrived acc ds s) (arrivals ops prepare f ds s)
  unfolding rounds_needed
  arrivals-Arrived zero [] s fuel good v l = absurd (omega arith)
  arrivals-Arrived zero (d ∷ ds) s fuel good v l = absurd (omega arith)
  arrivals-Arrived (suc f) [] s fuel good v l = (s, arrivals-nil f s, Arrived-refl acc s v l)
  arrivals-Arrived (suc f) (d ∷ ds) s fuel good v l =
      elim (Bool-cases (leb_ℤ d.a_time s.global_counter)) [
        | inr e ↦
            let tick = tick-Arrived acc s v l in
            let (u, is, arrived) =
              arrivals-Arrived f (d ∷ ds) (update_global_counter (pos 1) s)
                (fuel_wait f d ds s e fuel)
                (subst (λ q. AllAccepted acc prepare q (d ∷ ds)) (sym tick.quantum) good) tick.inv
                tick.listed in
            (u, arrivals-wait f d ds s e ∙ is, Arrived-trans acc [] (d ∷ ds) s _ u tick arrived)
        | inl e ↦
            let (t, is, (one, clock)) = arrive-Arrived d s good.0 v l in
            let quantum = one.quantum in
            let tick = tick-Arrived acc t one.inv one.listed in
            let rest =
              arrivals-Arrived f ds (update_global_counter (pos 1) t)
                (fuel_next f d ds s t clock fuel)
                (subst (λ q. AllAccepted acc prepare q ds) (sym (tick.quantum ∙ quantum)) good.1)
                tick.inv tick.listed in
            after_arrival f d ds s t e is one tick rest
      ]

  -- From a state with the invariant and a task list that holds each process once, and for at least
  -- one line, each of which `prepare` makes a ready process of: with fuel for its rounds the arrival
  -- thread returns without a fault. The invariant and the task list's property hold then, a process
  -- has been created for each line, in their order, with that line, and the older ones are kept.
  pub add_arrival_process-Arrived :
      (f : ℕ) (d : BurstLine) (ds : List BurstLine) (s : State)
      → rounds_needed s.global_counter (d ∷ ds) ≤ f
      → AllAccepted acc prepare s.quantum (d ∷ ds)
      → Inv acc s
      → IsListed s
      → Returns (Arrived acc (d ∷ ds) s) (add_arrival_process ops prepare f (d ∷ ds) s)
  unfolding add_arrival_process
  add_arrival_process-Arrived f d ds = arrivals-Arrived f (d ∷ ds)
