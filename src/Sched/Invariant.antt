-- ===== src/Sched/Invariant.antt =====
-- The invariant of the queues, the semaphores and the store between two rounds of the threads.
use cpu_schedular.Base.{
  suc, ◌+◌, ◌≤◌, ◌<◌, ◌≡◌, ◌≢◌, ◌⊎◌, inl, inr, sym, subst, ◌∙◌, some, length, arith, ==_iff, ◌==◌,
  Bool-cases,
}
use cpu_schedular.Process.{Process}
use cpu_schedular.Queue.{Ref}
use cpu_schedular.Queue.Laws.{occurs}
use cpu_schedular.Sched.{ThreadOps}
use cpu_schedular.Sched.Lifecycle.{
  Accounting, IsReady, IsAsleep, IsDone, Writes, Sleeps, Wakes, Ends,
}
use cpu_schedular.Threads.{State}

module _ (acc : Accounting) where
  -- A process is in one of the queues, once, or terminated.
  abbrev pub Placed : State → Ref → Process → Type 0
  Placed s r p =
      ((occurs r s.ready_queue ≡ 1) × (occurs r s.wait_queue ≡ 0) × IsReady acc s.quantum p)
      ⊎ ((occurs r s.ready_queue ≡ 0) × (occurs r s.wait_queue ≡ 1) × IsAsleep acc s.quantum p)
      ⊎ ((occurs r s.ready_queue ≡ 0) × (occurs r s.wait_queue ≡ 0) × IsDone acc s.quantum p)

  abbrev pub IsPlaced : State → Ref → Type 0
  IsPlaced s r = (p : Process) × (s.store r ≡ some p) × Placed s r p

  abbrev pub IsAbsent : State → Ref → Type 0
  IsAbsent s r = (occurs r s.ready_queue ≡ 0) × (occurs r s.wait_queue ≡ 0)

  -- Every process has its place, no other reference is queued, the processes are counted, and
  -- each semaphore has the length of its queue.
  pub record Inv (s : State) : Type 0 where
    pub placed : (r : Ref) → r < s.t_process → IsPlaced s r
    pub absent : (r : Ref) → s.t_process ≤ r → IsAbsent s r
    pub counted : s.terminated_process + length s.ready_queue + length s.wait_queue ≡ s.t_process
    pub ready_count : s.ready_count ≡ length s.ready_queue
    pub wait_count : s.wait_count ≡ length s.wait_queue

  -- The same while a thread holds the process `r`.
  pub record Held (r : Ref) (s : State) : Type 0 where
    pub created : r < s.t_process
    pub placed : (q : Ref) → q < s.t_process → q ≢ r → IsPlaced s q
    pub absent : (q : Ref) → s.t_process ≤ q → IsAbsent s q
    pub held : IsAbsent s r
    pub counted :
        suc (s.terminated_process + length s.ready_queue + length s.wait_queue) ≡ s.t_process
    pub ready_count : s.ready_count ≡ length s.ready_queue
    pub wait_count : s.wait_count ≡ length s.wait_queue

  -- A step that keeps a process's place in the queues keeps the process placed.
  Placed-transfer :
      (s t : State) (q : Ref) (p : Process)
      → occurs q t.ready_queue ≡ occurs q s.ready_queue
      → occurs q t.wait_queue ≡ occurs q s.wait_queue
      → t.quantum ≡ s.quantum
      → Placed s q p
      → Placed t q p
  Placed-transfer s t q p e f g h = rw (e, f, g) h

  -- The thread gives its process back, and so restores the invariant.
  give_back :
      (s t : State) (r : Ref) (p : Process)
      → Held r s
      → Writes r p s t
      → ((q : Ref) → q ≢ r → occurs q t.ready_queue ≡ occurs q s.ready_queue)
      → ((q : Ref) → q ≢ r → occurs q t.wait_queue ≡ occurs q s.wait_queue)
      → Placed t r p
      → t.terminated_process + length t.ready_queue + length t.wait_queue ≡ t.t_process
      → t.ready_count ≡ length t.ready_queue
      → t.wait_count ≡ length t.wait_queue
      → Inv t
  give_back s t r p v w er ew place n cr cw = record {
    placed = λ q lt. elim (Bool-cases (q == r)) [
      | inl e ↦
          let same : q ≡ r = (==_iff q r).0 e in subst (IsPlaced t) (sym same) (p, w.here, place)
      | inr e ↦
          let ne : q ≢ r = λ same. ground arith in
          let (x, stored, old) = v.placed q (rw (← w.t_process) lt) ne in
          (x, w.elsewhere q ne ∙ stored, Placed-transfer s t q x (er q ne) (ew q ne) w.quantum old)
    ];
    absent = λ q le.
        let ne : q ≢ r = λ same. ground (arith, v.created, w.t_process) in
        let old = v.absent q (rw (← w.t_process) le) in (er q ne ∙ old.0, ew q ne ∙ old.1);
    counted = n;
    ready_count = cr;
    wait_count = cw;
  }

  module _ (ops : ThreadOps) (r : Ref) (p : Process) (s t : State) (v : Held r s) where
    pub Sleeps-Inv : Sleeps ops r p s t → IsAsleep acc t.quantum p → Inv t
    Sleeps-Inv h a =
        let (w, e) = h.wait_queue in
        let p' : Process = record p { wall_time = w } in
        give_back s t r p v h.writes (λ q ne. rw h.ready_queue)
          (λ q ne. rw e (ground (arith, ops.occurs-insert q r p' s.wait_queue)))
          (inr (
            inl (
              rw h.ready_queue v.held.0,
              rw e (ground (arith, ops.occurs-insert r r p' s.wait_queue)),
              a,
            )))
          (rw (e, h.ready_queue)
            (omega (arith, ops.length-insert r p' s.wait_queue, h.writes.t_process)))
          (rw h.ready_queue (omega arith))
          (rw e (omega (arith, ops.length-insert r p' s.wait_queue)))

    pub Wakes-Inv : Wakes ops r p s t → IsReady acc t.quantum p → Inv t
    Wakes-Inv h a =
        let (w, e) = h.ready_queue in
        let p' : Process = record p { wall_time = w } in
        give_back s t r p v h.writes
          (λ q ne. rw e (ground (arith, ops.occurs-insert q r p' s.ready_queue)))
          (λ q ne. rw h.wait_queue)
          (inl (
            rw e (ground (arith, ops.occurs-insert r r p' s.ready_queue)),
            rw h.wait_queue v.held.1,
            a,
          ))
          (rw (e, h.wait_queue)
            (omega (arith, ops.length-insert r p' s.ready_queue, h.writes.t_process)))
          (rw e (omega (arith, ops.length-insert r p' s.ready_queue)))
          (rw h.wait_queue (omega arith))

  pub Ends-Inv :
      (r : Ref) (p : Process) (s t : State)
      → Held r s
      → Ends r p s t
      → IsDone acc t.quantum p
      → Inv t
  Ends-Inv r p s t v h a =
      give_back s t r p v h.writes (λ q ne. rw h.ready_queue) (λ q ne. rw h.wait_queue)
        (inr (inr (rw h.ready_queue v.held.0, rw h.wait_queue v.held.1, a)))
        (rw (h.ready_queue, h.wait_queue) (omega (arith, h.writes.t_process)))
        (rw h.ready_queue (omega arith)) (rw h.wait_queue (omega arith))
