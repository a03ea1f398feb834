-- ===== src/Sjf/Order.antt =====
-- The order of the two queues of sjf: shorter jobs stand in front, where the length of a job is that
-- of its first CPU burst.
pub mod Arrival
pub mod Front
pub mod Rounds
pub mod Tests
use cpu_schedular.Base.{
  ℕ, ℤ, ◌≡◌, refl, sym, subst, ◌∙◌, ap, Option, none, some, inl, inr, [], ◌∷◌, arith, ◌==◌, ==_iff,
  Bool-cases, get_elem?, List,
}
use cpu_schedular.Batch.Outcome.{whole_bursts}
use cpu_schedular.Process.{Process, Status}
use cpu_schedular.Queue.{Ref, Item, Queue, p_enqueue, dequeue}
use cpu_schedular.Queue.Sorted.{
  AllItems, IsSorted, AllItems-mono, AllItems-p_enqueue, p_enqueue-IsSorted,
}
use cpu_schedular.Sched.{take_ready, take_wait}
use cpu_schedular.Sched.Bursts.{CpuOutcome, IoOutcome}
use cpu_schedular.Sched.Lifecycle.{Writes, Sleeps, Wakes, Ends}
use cpu_schedular.Sjf.{ops}
use cpu_schedular.Threads.{State}

abbrev pub priority_of : Option Process → Option ℤ
priority_of none = none
priority_of (some p) = some p.priority

-- The node has the priority of its process.
abbrev pub HasPriority : State → Item → Type 0
HasPriority s x = priority_of (s.store x.task) ≡ some x.priority

abbrev pub InOrder : State → Queue → Type 0
InOrder s q = IsSorted q × AllItems (HasPriority s) q

-- Both queues are sorted by the priorities of their processes, and the priority of every process is
-- the length of its first CPU burst.
pub record IsShortestFirst (s : State) : Type 0 where
  pub ready : InOrder s s.ready_queue
  pub wait : InOrder s s.wait_queue
  pub lengths :
      (r : Ref) (p : Process)
      → s.store r ≡ some p
      → get_elem? p.process_d.cpu_burst 0 ≡ some p.priority

-- A step that writes to one process, and leaves its priority and its line alone.
module _ (r : Ref) (p p' : Process) (s t : State) (w : Writes r p' s t)
    (stored : s.store r ≡ some p) (priority : p'.priority ≡ p.priority)
    (line : p'.process_d ≡ p.process_d) (o : IsShortestFirst s) where
  same_priority : (q : Ref) → priority_of (t.store q) ≡ priority_of (s.store q)
  same_priority q = elim (Bool-cases (q == r)) [
    | inl same ↦ let at : q ≡ r = (==_iff q r).0 same in rw (at, w.here, stored) (ap some priority)
    | inr ne ↦ rw (w.elsewhere q (λ same. ground arith))
  ]

  same_lengths :
      (q : Ref) (x : Process)
      → t.store q ≡ some x
      → get_elem? x.process_d.cpu_burst 0 ≡ some x.priority
  same_lengths q x is = elim (Bool-cases (q == r)) [
    | inl same ↦
        let at : q ≡ r = (==_iff q r).0 same in
        let here : t.store q ≡ some p' = rw at w.here in
        let new : x ≡ p' = cc in rw (new, line, priority) (o.lengths r p stored)
    | inr ne ↦ o.lengths q x (sym (w.elsewhere q (λ same. ground arith)) ∙ is)
  ]

  InOrder-kept : (q : Queue) → InOrder s q → InOrder t q
  InOrder-kept q (sorted, keys) = (sorted, AllItems-mono q (λ x h. same_priority x.task ∙ h) keys)

  InOrder-inserted : (q : Queue) → InOrder s q → InOrder t (p_enqueue r p'.priority q)
  InOrder-inserted q h =
      let (sorted, keys) = InOrder-kept q h in
      let here : priority_of (t.store r) ≡ some p'.priority = rw w.here in
      (
        p_enqueue-IsSorted r p'.priority q sorted,
        AllItems-p_enqueue (HasPriority t) r p'.priority q here keys,
      )

  Sleeps-IsShortestFirst : Sleeps ops r p' s t → IsShortestFirst t
  Sleeps-IsShortestFirst h = record {
    ready = rw h.ready_queue (InOrder-kept s.ready_queue o.ready);
    wait = rw h.wait_queue.1 (InOrder-inserted s.wait_queue o.wait);
    lengths = same_lengths;
  }

  Wakes-IsShortestFirst : Wakes ops r p' s t → IsShortestFirst t
  Wakes-IsShortestFirst h = record {
    ready = rw h.ready_queue.1 (InOrder-inserted s.ready_queue o.ready);
    wait = rw h.wait_queue (InOrder-kept s.wait_queue o.wait);
    lengths = same_lengths;
  }

  Ends-IsShortestFirst : Ends r p' s t → IsShortestFirst t
  Ends-IsShortestFirst h = record {
    ready = rw h.ready_queue (InOrder-kept s.ready_queue o.ready);
    wait = rw h.wait_queue (InOrder-kept s.wait_queue o.wait);
    lengths = same_lengths;
  }

-- What `_process_cpu` and `_process_io` do keeps the order.
module _ (r : Ref) (p : Process) (s : State) (stored : s.store r ≡ some p)
    (o : IsShortestFirst s) where
  pub CpuOutcome-IsShortestFirst :
      (v : Status × State)
      → CpuOutcome whole_bursts ops (λ burst. burst) r p s v
      → IsShortestFirst v.1
  CpuOutcome-IsShortestFirst (status, t) (inl (_, _, p', h, _, had)) =
      Ends-IsShortestFirst r p p' s t h.writes stored had.priority had.process_d o h
  CpuOutcome-IsShortestFirst (status, t) (inr (_, _, _, p', _, h, _, had)) =
      Sleeps-IsShortestFirst r p p' s t h.writes stored had.priority had.process_d o h

  pub IoOutcome-IsShortestFirst :
      (v : Status × State) → IoOutcome whole_bursts ops r p s v → IsShortestFirst v.1
  IoOutcome-IsShortestFirst (status, t) (inl (_, _, p', h, _, had)) =
      Ends-IsShortestFirst r p p' s t h.writes stored had.priority had.process_d o h
  IoOutcome-IsShortestFirst (status, t) (inr (_, _, _, p', _, h, _, had)) =
      Wakes-IsShortestFirst r p p' s t h.writes stored had.priority had.process_d o h

InOrder-dequeue : (s : State) (q : Queue) → InOrder s q → InOrder s (dequeue q).1
unfolding dequeue
InOrder-dequeue s [] h = h
InOrder-dequeue s (x ∷ q) (sorted, keys) = (sorted.1, keys.1)

-- So does taking a process from the front of a queue.
module _ (s : State) (o : IsShortestFirst s) where
  pub take_ready-IsShortestFirst : IsShortestFirst (take_ready s)
  unfolding take_ready
  take_ready-IsShortestFirst = record {
    ready = InOrder-dequeue s s.ready_queue o.ready;
    wait = o.wait;
    lengths = o.lengths;
  }

  pub take_wait-IsShortestFirst : IsShortestFirst (take_wait s)
  unfolding take_wait
  take_wait-IsShortestFirst = record {
    ready = o.ready;
    wait = InOrder-dequeue s s.wait_queue o.wait;
    lengths = o.lengths;
  }
