-- ===== src/Interleaved/Settled/Places.antt =====
-- What the invariant says of a process that a thread holds, and the two kinds of steps that keep it.
use cpu_schedular.Base.{
  ◌+◌, ◌≤◌, ◌<◌, ◌≡◌, ◌≢◌, ◌∙◌, some, arith, inl, inr, ltb, tests, Bool-cases, ◌==◌, ==_iff, subst,
  sym,
}
use cpu_schedular.Process.{Process}
use cpu_schedular.Queue.{Ref}
use cpu_schedular.Queue.Laws.{occurs}
use cpu_schedular.Sched.Invariant.{Inv, Placed, IsPlaced}
use cpu_schedular.Sched.Lifecycle.{Accounting, IsReady, IsAsleep, Writes, Forward}
use cpu_schedular.Sched.Progress.{Round, Progress, Writes-identity}
use cpu_schedular.Sched.Work.{Writes-work}
use cpu_schedular.Threads.{State}
use cpu_schedular.Interleaved.Settled.{Same, Changes}

module _ (acc : Accounting) (s : State) (v : Inv acc s) where
  pub Same-Round : (t : State) → Same s t → Round acc s t
  Same-Round t h = record {
    inv = record {
      placed = λ r lt.
          let (p, stored, place) = v.placed r (rw h.t_process at lt) in
          (p, rw h.store stored, rw (h.ready r, h.wait r, h.quantum) place);
      absent = λ r le.
          let old = v.absent r (rw h.t_process at le) in (h.ready r ∙ old.0, h.wait r ∙ old.1);
      counted =
          omega
            (arith, h.terminated_process, h.t_process, h.length_ready, h.length_wait, v.counted);
      ready_count = h.ready_count;
      wait_count = h.wait_count;
    };
    t_process = h.t_process;
    total_process = h.total_process;
    quantum = h.quantum;
    task_list = h.task_list;
    identity = λ r. rw h.store;
    work = rw (h.t_process, h.store) (omega arith);
  }

  module _ (r : Ref) (lt : r < s.t_process) (t : State) (p' : Process) (w : Writes r p' s t)
      (c : Changes r s t) (place : Placed acc t r p') where
    Changes-Inv : Inv acc t
    Changes-Inv = record {
      placed = λ q lt'. elim (Bool-cases (q == r)) [
        | inl e ↦
            let same : q ≡ r = (==_iff q r).0 e in
            subst (IsPlaced acc t) (sym same) (p', w.here, place)
        | inr e ↦
            let ne : q ≢ r = λ same. ground arith in
            let (x, stored, old) = v.placed q (rw w.t_process at lt') in
            (x, w.elsewhere q ne ∙ stored, rw (c.ready q ne, c.wait q ne, w.quantum) old)
      ];
      absent = λ q le.
          let ne : q ≢ r = λ same. ground (arith, w.t_process) in
          let old = v.absent q (rw w.t_process at le) in
          (c.ready q ne ∙ old.0, c.wait q ne ∙ old.1);
      counted = omega (arith, c.counted, v.counted, w.t_process);
      ready_count = c.ready_count;
      wait_count = c.wait_count;
    }

    -- A process that is brought forward and changes its queue makes the whole progress.
    pub Changes-Progress : (p : Process) → s.store r ≡ some p → Forward p p' → Progress acc s t
    Changes-Progress p e f =
        let less = Writes-work r p p' s t w e lt f.less in
        (
          record {
            inv = Changes-Inv;
            t_process = w.t_process;
            total_process = w.total_process;
            quantum = w.quantum;
            task_list = w.task_list;
            identity = Writes-identity r p p' s t w e f;
            work = omega (arith, less);
          },
          less,
        )

  created : (r : Ref) → 1 ≤ occurs r s.ready_queue + occurs r s.wait_queue → r < s.t_process
  created r some_in = elim (Bool-cases (ltb r s.t_process)) [
    | inl e ↦ omega tests
    | inr e ↦ let none_in = v.absent r (omega tests) in absurd (omega (arith, none_in.0, none_in.1))
  ]

  -- What is known of a process that counts in the ready queue, and of one that counts in the wait
  -- queue: it has been created, it counts there alone and once, and it is ready or asleep.
  pub ready_place :
      (r : Ref)
      → 1 ≤ occurs r s.ready_queue
      → (r < s.t_process)
        × (occurs r s.ready_queue ≡ 1)
        × (occurs r s.wait_queue ≡ 0)
        × ((p : Process) × (s.store r ≡ some p) × IsReady acc s.quantum p)
  ready_place r h =
      let lt = created r (omega arith) in
      let (p, stored, place) = v.placed r lt in
      elim place [
        | inl (a, b, is) ↦ (lt, a, b, (p, stored, is))
        | inr (inl (a, _, _)) ↦ absurd (omega arith)
        | inr (inr (a, _, _)) ↦ absurd (omega arith)
      ]

  pub wait_place :
      (r : Ref)
      → 1 ≤ occurs r s.wait_queue
      → (r < s.t_process)
        × (occurs r s.ready_queue ≡ 0)
        × (occurs r s.wait_queue ≡ 1)
        × ((p : Process) × (s.store r ≡ some p) × IsAsleep acc s.quantum p)
  wait_place r h =
      let lt = created r (omega arith) in
      let (p, stored, place) = v.placed r lt in
      elim place [
        | inl (_, b, _) ↦ absurd (omega arith)
        | inr (inl (a, b, is)) ↦ (lt, a, b, (p, stored, is))
        | inr (inr (_, b, _)) ↦ absurd (omega arith)
      ]
