-- ===== src/Srtf/Steps.antt =====
-- A process that runs stays in its accounts, whether its burst is over or not.
use cpu_schedular.Base.{
  ==_iff, ◌==◌, Bool-cases, ℕ, suc, ◌<◌, ◌≡◌, refl, sym, ap, ◌∙◌, ℤ, pos, pos_part, ◌≤ℤ◌, sum,
  sum-append, take, take-suc, map, false, some, inl, inr, arith, int_laws, get_elem?, get_elem?-map,
}
use cpu_schedular.Process.{Process, sleep}
use cpu_schedular.Queue.{Ref}
use cpu_schedular.Sched.{should_terminate}
use cpu_schedular.Sched.Bounds.{cpu_index-lt}
use cpu_schedular.Sched.Invariant.{Held}
use cpu_schedular.Sched.Lifecycle.{Accounting, Accounts, IsReady, IsAsleep, work}
use cpu_schedular.Sched.Progress.{Keeps}
use cpu_schedular.Sched.Work.{total_work-same, work_at, work-same}
use cpu_schedular.Srtf.{preempted}
use cpu_schedular.Srtf.Ticks.{Ticked}
use cpu_schedular.Threads.{State}

-- The ticks of a burst; none if it is negative.
abbrev pub whole : ℤ → ℤ
whole burst = pos (pos_part burst)

-- The CPU time is at least that of the bursts that are over: a burst that was interrupted has been
-- started again. The remaining time is not used.
abbrev pub runs : Accounting
runs = record {
  Served = λ quantum d n time. sum (take n (map whole d.cpu_burst)) ≤ℤ time;
  Prepared = λ d n remaining. Unit {0};
}

module _ {n : ℕ} {r : Ref} {p p' : Process} {s t : State} (k : Ticked n r p p' s t) where
  Ticked-Accounts : (quantum : ℕ) → Accounts runs quantum p → Accounts runs quantum p'
  Ticked-Accounts quantum a =
      let ran = k.ran in
      record {
        well_formed = rw ran.process_d a.well_formed;
        cpu = rw (ran.process_d, ran.cpu_index, ran.cpu_time) (omega (int_laws, a.cpu));
        io = rw (ran.io_time, ran.io_index, ran.process_d) a.io;
        total = rw (ran.process_time, ran.cpu_time, ran.io_time, a.total) (omega int_laws);
        prepared = tt;
      }

  -- In the middle of a burst the process could go back to the ready queue.
  pub Ticked-IsReady : (quantum : ℕ) → IsReady runs quantum p → IsReady runs quantum p'
  Ticked-IsReady quantum a =
      let ran = k.ran in
      record {
        accounts = Ticked-Accounts quantum a.accounts;
        status = rw (ran.status, ran.cpu_index) a.status;
        indices = ran.io_index ∙ a.indices ∙ (rw ran.cpu_index);
      }

  pub Ticked-Held : Held runs r s → Held runs r t
  Ticked-Held h = record {
    created = rw k.t_process h.created;
    placed = λ q lt ne.
        let (x, stored, place) = h.placed q (rw (← k.t_process) lt) ne in
        (x, k.elsewhere q ne ∙ stored, rw (k.ready_queue, k.wait_queue, k.quantum) place);
    absent = λ q le. rw (k.ready_queue, k.wait_queue) (h.absent q (rw (← k.t_process) le));
    held = rw (k.ready_queue, k.wait_queue) h.held;
    counted = rw (k.terminated_process, k.ready_queue, k.wait_queue, k.t_process) h.counted;
    ready_count = rw (k.ready_count, k.ready_queue) h.ready_count;
    wait_count = rw (k.wait_count, k.wait_queue) h.wait_count;
  }

  pub Ticked-goes : should_terminate p ≡ false → should_terminate p' ≡ false
  unfolding should_terminate
  Ticked-goes goes = rw (k.ran.process_d, k.ran.cpu_index, k.ran.io_index) goes

  Ticked-work_at : s.store r ≡ some p → (q : Ref) → work_at (t.store q) ≡ work_at (s.store q)
  Ticked-work_at e q = elim (Bool-cases (q == r)) [
    | inl same ↦
        let at : q ≡ r = (==_iff q r).0 same in
        let ran = k.ran in
        let here = k.here in
        rw (at, here, e)
          (ap (λ status. work status p') ran.status
            ∙ work-same p.status p p' ran.process_d ran.cpu_index ran.io_index)
    | inr ne ↦ rw (k.elsewhere q (λ same. ground arith))
  ]

  pub Ticked-Keeps : s.store r ≡ some p → Keeps s t
  Ticked-Keeps e =
      let ran = k.ran in
      let here = k.here in
      record {
        t_process = k.t_process;
        total_process = k.total_process;
        quantum = k.quantum;
        task_list = k.task_list;
        identity = λ q. elim (Bool-cases (q == r)) [
          | inl same ↦
              let at : q ≡ r = (==_iff q r).0 same in rw (at, here, e, ran.pid, ran.process_d)
          | inr ne ↦ rw (k.elsewhere q (λ same. ground arith))
        ];
        work = rw k.t_process (total_work-same s.t_process s.store t.store (Ticked-work_at e));
      }

-- On its way back to the ready queue a process keeps its accounts.
pub preempted-IsReady :
    (quantum : ℕ) (p : Process) → IsReady runs quantum p → IsReady runs quantum (preempted p)
preempted-IsReady quantum p a = record {
  accounts = record {
    well_formed = a.accounts.well_formed;
    cpu = a.accounts.cpu;
    io = a.accounts.io;
    total = a.accounts.total;
    prepared = tt;
  };
  status = inr refl;
  indices = a.indices;
}

-- The process whose burst is over, with the priority and the remaining time of the next one.
abbrev pub over_burst : Process → ℤ → ℤ → Process
over_burst p priority remaining = record p {
  cpu_index = suc p.cpu_index;
  priority = priority;
  remaining_time = remaining;
  status = sleep;
}

module _ {r : Ref} {p p' : Process} {s t : State} {burst : ℤ} (quantum : ℕ)
    (a : IsReady runs quantum p) (k : Ticked (pos_part burst) r p p' s t)
    (found : get_elem? p.process_d.cpu_burst p.cpu_index ≡ some burst) where
  over_burst-cpu : sum (take (suc p'.cpu_index) (map whole p'.process_d.cpu_burst)) ≤ℤ p'.cpu_time
  over_burst-cpu =
      let ran = k.ran in
      let more =
        take-suc (map whole p.process_d.cpu_burst) p.cpu_index
          (get_elem?-map whole p.process_d.cpu_burst p.cpu_index burst found) in
      rw (ran.process_d, ran.cpu_index, ran.cpu_time, more, sum-append)
        (omega (int_laws, a.accounts.cpu))

  pub over_burst-IsAsleep :
      (priority remaining : ℤ) → IsAsleep runs quantum (over_burst p' priority remaining)
  over_burst-IsAsleep priority remaining =
      let ready = Ticked-IsReady k quantum a in
      record {
        accounts = record {
          well_formed = ready.accounts.well_formed;
          cpu = over_burst-cpu;
          io = ready.accounts.io;
          total = ready.accounts.total;
          prepared = tt;
        };
        status = refl;
        indices = ap suc (sym ready.indices);
      }

-- A burst that is over is one less.
pub over_burst-work :
    (quantum : ℕ) (p : Process) (priority remaining : ℤ)
    → IsReady runs quantum p
    → should_terminate p ≡ false
    → work sleep (over_burst p priority remaining) < work p.status p
over_burst-work quantum p priority remaining a goes =
    let lt = cpu_index-lt p a.accounts.well_formed a.indices goes in
    let w = a.accounts.well_formed.cpu_size in
    elim a.status [
      | inl (e, _) ↦ rw e (omega (arith, lt, w, a.indices))
      | inr e ↦ rw e (omega (arith, lt, w, a.indices))
    ]
