-- ===== src/Sched/Final.antt =====
-- The code at the label `final` of `_process_cpu`: it writes the wall time of a process and the log,
-- and nothing else changes.
use cpu_schedular.Base.{
  ==_iff, ◌==◌, Bool-cases, subst, sym, some, ℕ, List, ◌≡◌, refl, inl, inr, arith, ◌∙◌,
}
use cpu_schedular.Process.{Process, Status, terminated}
use cpu_schedular.Queue.{Ref}
use cpu_schedular.Sched.{ThreadOps, final}
use cpu_schedular.Sched.Lifecycle.{
  Accounting, Accounts, IsAsleep, IsDone, IsReady, Writes, Ends, Sleeps,
}
use cpu_schedular.Threads.{identity, State, update, LogLine}
use cpu_schedular.Time.{Timespec, Timer}
use cpu_schedular.Sched.Invariant.{Inv, IsPlaced, Placed}
use cpu_schedular.Sched.Progress.{Round}
use cpu_schedular.Sched.Work.{total_work-same, work_at, work-same}

-- What the code at `final` leaves alone, and the time stamp that it writes.
pub record Finishes (r : Ref) (p : Process) (s t : State) (w : Timespec) : Type 0 where
  pub store : t.store ≡ update s.store r (record p { wall_time = w })
  pub ready_queue : t.ready_queue ≡ s.ready_queue
  pub wait_queue : t.wait_queue ≡ s.wait_queue
  pub task_list : t.task_list ≡ s.task_list
  pub t_process : t.t_process ≡ s.t_process
  pub total_process : t.total_process ≡ s.total_process
  pub terminated_process : t.terminated_process ≡ s.terminated_process
  pub ready_count : t.ready_count ≡ s.ready_count
  pub wait_count : t.wait_count ≡ s.wait_count
  pub quantum : t.quantum ≡ s.quantum

Finishes-refl :
    (r : Ref) (p : Process) (s : State) (line : List LogLine) (timer : Timer) (n : ℕ) (w : Timespec)
    → Finishes r p s
        (record s {
          store = update s.store r (record p { wall_time = w });
          task_log = line;
          wall_timer = timer;
          clock_reads = n;
        })
        w
Finishes-refl r p s line timer n w = record {
  store = refl;
  ready_queue = refl;
  wait_queue = refl;
  task_list = refl;
  t_process = refl;
  total_process = refl;
  terminated_process = refl;
  ready_count = refl;
  wait_count = refl;
  quantum = refl;
}

pub final-Finishes :
    (r : Ref) (p : Process) (status : Status) (s : State)
    → (w : Timespec) × Finishes r p s (final r p status s) w
unfolding final
final-Finishes r p terminated s = (_, Finishes-refl r p s _ _ _ _)
final-Finishes r p _ s = (_, Finishes-refl r p s _ _ _ _)

abbrev pub stopped : Process → Timespec → Process
stopped p w = record p { wall_time = w }

module _ {r : Ref} {p : Process} {s t u : State} {w : Timespec} (f : Finishes r p t u w) where
  Writes-finish : Writes r p s t → Writes r (stopped p w) s u
  Writes-finish h = record {
    here = rw f.store (ground arith);
    elsewhere = λ x ne. rw f.store (ground (arith, h.elsewhere x ne));
    t_process = f.t_process ∙ h.t_process;
    total_process = f.total_process ∙ h.total_process;
    quantum = f.quantum ∙ h.quantum;
    task_list = f.task_list ∙ h.task_list;
  }

  pub Ends-finish : Ends r p s t → Ends r (stopped p w) s u
  Ends-finish h = record {
    writes = Writes-finish h.writes;
    ready_queue = f.ready_queue ∙ h.ready_queue;
    ready_count = f.ready_count ∙ h.ready_count;
    wait_queue = f.wait_queue ∙ h.wait_queue;
    wait_count = f.wait_count ∙ h.wait_count;
    terminated_process = f.terminated_process ∙ h.terminated_process;
  }

  pub Sleeps-finish : {ops : ThreadOps} → Sleeps ops r p s t → Sleeps ops r (stopped p w) s u
  Sleeps-finish h = record {
    writes = Writes-finish h.writes;
    ready_queue = f.ready_queue ∙ h.ready_queue;
    ready_count = f.ready_count ∙ h.ready_count;
    wait_queue = (h.wait_queue.0, f.wait_queue ∙ h.wait_queue.1);
    wait_count = f.wait_count ∙ h.wait_count;
    terminated_process = f.terminated_process ∙ h.terminated_process;
  }

-- The accounts do not depend on the wall time.
module _ (acc : Accounting) (quantum : ℕ) (p : Process) (w : Timespec) where
  timed-Accounts : Accounts acc quantum p → Accounts acc quantum (record p { wall_time = w })
  timed-Accounts a = record {
    well_formed = a.well_formed;
    cpu = a.cpu;
    io = a.io;
    total = a.total;
    prepared = a.prepared;
  }

  pub timed-IsAsleep : IsAsleep acc quantum p → IsAsleep acc quantum (record p { wall_time = w })
  timed-IsAsleep a = record {
    accounts = timed-Accounts a.accounts;
    status = a.status;
    indices = a.indices;
  }

  pub timed-IsDone : IsDone acc quantum p → IsDone acc quantum (record p { wall_time = w })
  timed-IsDone a = record {
    accounts = timed-Accounts a.accounts;
    status = a.status;
    cpu_over = a.cpu_over;
    io_over = a.io_over;
    turnaround = a.turnaround;
  }

  timed-IsReady : IsReady acc quantum p → IsReady acc quantum (record p { wall_time = w })
  timed-IsReady a = record {
    accounts = timed-Accounts a.accounts;
    status = a.status;
    indices = a.indices;
  }

-- The process keeps its place.
module _ (acc : Accounting) (r : Ref) (p : Process) (s t : State) (w : Timespec)
    (f : Finishes r p s t w) where
  finished_here : t.store r ≡ some (stopped p w)
  finished_here = rw f.store (ground arith)

  timed-Placed : (q : Ref) (x : Process) → Placed acc s q x → Placed acc t q x
  timed-Placed q x place = rw (f.ready_queue, f.wait_queue, f.quantum) place

  timed_place : Placed acc s r p → Placed acc s r (stopped p w)
  timed_place (inl (a, b, is)) = inl (a, b, timed-IsReady acc s.quantum p w is)
  timed_place (inr (inl (a, b, is))) = inr (inl (a, b, timed-IsAsleep acc s.quantum p w is))
  timed_place (inr (inr (a, b, is))) = inr (inr (a, b, timed-IsDone acc s.quantum p w is))

  timed-IsPlaced : s.store r ≡ some p → (q : Ref) → IsPlaced acc s q → IsPlaced acc t q
  timed-IsPlaced e q (x, stored, place) = elim (Bool-cases (q == r)) [
    | inl same ↦
        let at : q ≡ r = (==_iff q r).0 same in
        let is : x ≡ p = cc in
        let old =
          subst (λ (y : Process). Placed acc s r y) is (subst (λ c. Placed acc s c x) at place) in
        subst (IsPlaced acc t) (sym at)
          (stopped p w, rw f.store (ground arith), timed-Placed r (stopped p w) (timed_place old))
    | inr ne ↦ (x, rw f.store (ground arith), timed-Placed q x place)
  ]

  timed_work : s.store r ≡ some p → (q : Ref) → work_at (t.store q) ≡ work_at (s.store q)
  timed_work e q = elim (Bool-cases (q == r)) [
    | inl same ↦
        let at : q ≡ r = (==_iff q r).0 same in
        rw (at, finished_here, e) (work-same p.status p (stopped p w) refl refl refl)
    | inr ne ↦ rw (f.store, ne)
  ]

  timed_identity : s.store r ≡ some p → (q : Ref) → identity (t.store q) ≡ identity (s.store q)
  timed_identity e q = elim (Bool-cases (q == r)) [
    | inl same ↦ let at : q ≡ r = (==_iff q r).0 same in rw (at, finished_here, e)
    | inr ne ↦ rw (f.store, ne)
  ]

  pub finished-Round : s.store r ≡ some p → Inv acc s → Round acc s t
  finished-Round e v = record {
    inv = record {
      placed = λ q lt. timed-IsPlaced e q (v.placed q (rw (← f.t_process) lt));
      absent = λ q le. rw (f.ready_queue, f.wait_queue) (v.absent q (rw (← f.t_process) le));
      counted = rw (f.terminated_process, f.ready_queue, f.wait_queue, f.t_process) v.counted;
      ready_count = rw (f.ready_count, f.ready_queue) v.ready_count;
      wait_count = rw (f.wait_count, f.wait_queue) v.wait_count;
    };
    t_process = f.t_process;
    total_process = f.total_process;
    quantum = f.quantum;
    task_list = f.task_list;
    identity = timed_identity e;
    work =
        let same = total_work-same s.t_process s.store t.store (timed_work e) in
        rw f.t_process (omega (arith, same));
  }

-- `final` on a process of the store is a round that changes nothing of note.
pub final-Round :
    (acc : Accounting) (r : Ref) (p : Process) (status : Status) (s : State)
    → s.store r ≡ some p
    → Inv acc s
    → Round acc s (final r p status s)
final-Round acc r p status s e v =
    let (w, f) = final-Finishes r p status s in
    finished-Round acc r p s (final r p status s) w f e v

pub final-running_pd :
    (r : Ref) (p : Process) (status : Status) (s : State)
    → (final r p status s).running_pd ≡ s.running_pd
unfolding final
final-running_pd r p terminated s = refl
final-running_pd r p _ s = refl
