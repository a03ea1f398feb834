-- ===== src/Sched/Progress.antt =====
-- What a thread does to the processes, and that it brings them forward.
use cpu_schedular.Base.{==_iff, ◌<◌, ◌≤◌, ◌≡◌, refl, ◌∙◌, some, arith, ◌==◌, Bool-cases, inl, inr}
use cpu_schedular.Process.{Process}
use cpu_schedular.Queue.{Ref}
use cpu_schedular.Sched.{ThreadOps}
use cpu_schedular.Sched.Invariant.{Inv, Held, Sleeps-Inv, Wakes-Inv, Ends-Inv}
use cpu_schedular.Sched.Lifecycle.{Accounting, Writes, Forward, Outcome, sleeps, wakes, ends}
use cpu_schedular.Sched.Work.{state_work, Writes-work}
use cpu_schedular.Threads.{identity, State}

pub Writes-identity :
    (r : Ref) (p p' : Process) (s t : State)
    → Writes r p' s t
    → s.store r ≡ some p
    → Forward p p'
    → (q : Ref) → identity (t.store q) ≡ identity (s.store q)
Writes-identity r p p' s t w e f q = elim (Bool-cases (q == r)) [
  | inl k ↦ let same : q ≡ r = (==_iff q r).0 k in rw (same, w.here, e, f.pid, f.process_d)
  | inr k ↦ rw (w.elsewhere q (λ same. ground arith))
]

-- A round keeps the invariant and the number of processes, and undoes no work.
pub record Round (acc : Accounting) (s t : State) : Type 0 where
  pub inv : Inv acc t
  pub t_process : t.t_process ≡ s.t_process
  pub total_process : t.total_process ≡ s.total_process
  pub quantum : t.quantum ≡ s.quantum
  pub task_list : t.task_list ≡ s.task_list
  pub identity : (r : Ref) → identity (t.store r) ≡ identity (s.store r)
  pub work : state_work t ≤ state_work s

pub Round-refl : (acc : Accounting) (s : State) → Inv acc s → Round acc s s
Round-refl acc s v = record {
  inv = v;
  t_process = refl;
  total_process = refl;
  quantum = refl;
  task_list = refl;
  identity = λ r. refl;
  work = omega arith;
}

pub Round-trans : (acc : Accounting) (s t u : State) → Round acc s t → Round acc t u → Round acc s u
Round-trans acc s t u h k = record {
  inv = k.inv;
  t_process = k.t_process ∙ h.t_process;
  total_process = k.total_process ∙ h.total_process;
  quantum = k.quantum ∙ h.quantum;
  task_list = k.task_list ∙ h.task_list;
  identity = λ r. k.identity r ∙ h.identity r;
  work = omega (arith, h.work, k.work);
}

-- The processing of a process that was taken from its queue.
module _ (acc : Accounting) (ops : ThreadOps) (r : Ref) (p : Process) (s t : State) where
  Outcome-Inv : Held acc r s → Outcome acc ops r p s t → Inv acc t
  Outcome-Inv h (sleeps p' o a less) = Sleeps-Inv acc ops r p' s t h o (rw o.writes.quantum a)
  Outcome-Inv h (wakes p' o a less) = Wakes-Inv acc ops r p' s t h o (rw o.writes.quantum a)
  Outcome-Inv h (ends p' o a less) = Ends-Inv acc r p' s t h o (rw o.writes.quantum a)

  Outcome-Writes : Outcome acc ops r p s t → (p' : Process) × Writes r p' s t × Forward p p'
  Outcome-Writes (sleeps p' o a less) = (p', o.writes, less)
  Outcome-Writes (wakes p' o a less) = (p', o.writes, less)
  Outcome-Writes (ends p' o a less) = (p', o.writes, less)

-- With less work before the processes than there was.
abbrev pub Progress : Accounting → State → State → Type 0
Progress acc s t = Round acc s t × (state_work t < state_work s)

pub Outcome-Progress :
    (acc : Accounting) (ops : ThreadOps) (r : Ref) (p : Process) (s t : State)
    → Held acc r s
    → s.store r ≡ some p
    → Outcome acc ops r p s t
    → Progress acc s t
Outcome-Progress acc ops r p s t h e o =
    let (p', writes, less) = Outcome-Writes acc ops r p s t o in
    let lt = Writes-work r p p' s t writes e h.created less.less in
    (
      record {
        inv = Outcome-Inv acc ops r p s t h o;
        t_process = writes.t_process;
        total_process = writes.total_process;
        quantum = writes.quantum;
        task_list = writes.task_list;
        identity = Writes-identity r p p' s t writes e less;
        work = omega (arith, lt);
      },
      lt,
    )

-- What a thread leaves alone while it holds a process.
pub record Keeps (s t : State) : Type 0 where
  pub t_process : t.t_process ≡ s.t_process
  pub total_process : t.total_process ≡ s.total_process
  pub quantum : t.quantum ≡ s.quantum
  pub task_list : t.task_list ≡ s.task_list
  pub identity : (r : Ref) → identity (t.store r) ≡ identity (s.store r)
  pub work : state_work t ≡ state_work s

pub Keeps-Progress :
    (acc : Accounting) (s t u : State) → Keeps s t → Progress acc t u → Progress acc s u
Keeps-Progress acc s t u k (h, less) = (
  record {
    inv = h.inv;
    t_process = h.t_process ∙ k.t_process;
    total_process = h.total_process ∙ k.total_process;
    quantum = h.quantum ∙ k.quantum;
    task_list = h.task_list ∙ k.task_list;
    identity = λ r. h.identity r ∙ k.identity r;
    work = omega (arith, k.work, less);
  },
  omega (arith, k.work, less),
)

pub Progress-Round :
    (acc : Accounting) (s t u : State) → Progress acc s t → Round acc t u → Progress acc s u
Progress-Round acc s t u (h, less) k = (Round-trans acc s t u h k, omega (arith, k.work))
