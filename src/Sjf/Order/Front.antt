-- ===== src/Sjf/Order/Front.antt =====
-- The process that the scheduler thread of sjf takes from the ready queue is a shortest job.
use cpu_schedular.Base.{
  ℤ, ◌≡◌, ◌≢◌, ◌≤ℤ◌, refl, subst, ap, some, inl, inr, [], ◌∷◌, ◌==◌, ==_iff, Bool-cases, get_elem?,
}
use cpu_schedular.Process.{Process}
use cpu_schedular.Queue.{Ref, Queue, dequeue}
use cpu_schedular.Queue.Laws.{occurs}
use cpu_schedular.Queue.Sorted.{AllItems}
use cpu_schedular.Sched.{take_ready}
use cpu_schedular.Sjf.Order.{IsShortestFirst, InOrder, HasPriority, priority_of}
use cpu_schedular.Threads.{State}

module _ (s : State) (y : Ref) (n : ℤ) (key : priority_of (s.store y) ≡ some n) where
  -- All nodes have at least this priority, and so has every process among them.
  behind-le :
      (m : ℤ) (q : Queue)
      → AllItems (λ z. m ≤ℤ z.priority) q
      → AllItems (HasPriority s) q
      → occurs y q ≢ 0
      → m ≤ℤ n
  behind-le m [] low keys among = absurd (among refl)
  behind-le m (z ∷ q) (le, les) (is, are) among = elim (Bool-cases (z.task == y)) [
    | inl same ↦
        let at : z.task ≡ y = (==_iff z.task y).0 same in
        let found : priority_of (s.store y) ≡ some z.priority = rw at at is in
        let new : z.priority ≡ n = cc in subst (λ k. m ≤ℤ k) new le
    | inr other ↦ behind-le m q les are (λ none_left. among (rw (other, none_left)))
  ]

  front-le :
      (m : ℤ) (r : Ref) (q : Queue)
      → InOrder s q
      → (dequeue q).0 ≡ some r
      → priority_of (s.store r) ≡ some m
      → occurs y (dequeue q).1 ≢ 0
      → m ≤ℤ n
  unfolding dequeue
  front-le m r [] h taken is among = absurd cc
  front-le m r (x ∷ q) ((low, _), (first, keys)) taken is among =
      let at : x.task ≡ r = cc in
      let found : priority_of (s.store r) ≡ some x.priority = rw at at first in
      let same : x.priority ≡ m = cc in
      subst (λ k. k ≤ℤ n) same (behind-le x.priority q low keys among)

-- In a state of sjf with its queues in order, the first CPU burst of the process that the scheduler
-- thread takes from the ready queue is no longer than the first CPU burst of any process that stays
-- in the ready queue.
pub take_ready-le :
    (s : State) (r y : Ref) (p x : Process) (a b : ℤ)
    → IsShortestFirst s
    → (take_ready s).running_pd ≡ some r
    → occurs y (take_ready s).ready_queue ≢ 0
    → s.store r ≡ some p
    → s.store y ≡ some x
    → get_elem? p.process_d.cpu_burst 0 ≡ some a
    → get_elem? x.process_d.cpu_burst 0 ≡ some b
    → a ≤ℤ b
unfolding take_ready
take_ready-le s r y p x a b o taken among here there first other =
    let from : p.priority ≡ a = let found = o.lengths r p here in cc in
    let to : x.priority ≡ b = let found = o.lengths y x there in cc in
    front-le s y b (rw there (ap some to)) a r s.ready_queue o.ready taken (rw here (ap some from))
      among
