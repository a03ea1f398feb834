-- ===== src/Sjf/Order/Arrival.antt =====
-- The arrival thread of sjf puts the processes into a queue in order.
use cpu_schedular.Arrival.{arrive, arrivals, admit}
use cpu_schedular.Arrival.Arrived.{Accepts, AllAccepted, tick-Arrived}
use cpu_schedular.Arrival.Invariant.{IsListed, Arrives}
use cpu_schedular.Arrival.Loop.{
  admit-Arrives, arrive-admit, arrive-Arrived, arrivals-wait, arrivals-last, arrivals-next,
  arrivals-nil,
}
use cpu_schedular.Base.{
  ℕ, zero, suc, ◌≡◌, ◌≢◌, sym, subst, ◌∙◌, some, true, Option-cases, inl, inr, List, [], ◌∷◌, ok,
  arith, pos, Bool-cases, ◌==◌, ==_iff, leb_ℤ, get_elem?,
}
use cpu_schedular.Batch.Outcome.{whole_bursts}
use cpu_schedular.Process.{BurstLine, Process, create_process}
use cpu_schedular.Queue.{Queue}
use cpu_schedular.Queue.Laws.{occurs}
use cpu_schedular.Queue.Sorted.{AllItems, AllItems-p_enqueue, p_enqueue-IsSorted}
use cpu_schedular.Sched.Invariant.{Inv}
use cpu_schedular.Sjf.{ops, prepare_sjf}
use cpu_schedular.Sjf.Order.{IsShortestFirst, HasPriority, priority_of}
use cpu_schedular.Threads.{State, create, update_global_counter}

-- The priority that sjf gives a process is the length of its first CPU burst.
prepare_sjf-first :
    (x p : Process) → prepare_sjf x ≡ ok p → get_elem? p.process_d.cpu_burst 0 ≡ some p.priority
prepare_sjf-first x p e = elim (Option-cases (get_elem? x.process_d.cpu_burst zero)) [
  | inl out ↦ absurd (ground arith)
  | inr (burst, found) ↦
      let made : p ≡ record x { priority = burst } = ground arith in
      subst (λ (y : Process). get_elem? y.process_d.cpu_burst 0 ≡ some y.priority) (sym made) found
]

-- A process arrives at a reference that is in no queue.
module _ (p : Process) (s t : State) (a : Arrives ops p s t) where
  HasPriority-kept :
      (q : Queue)
      → occurs s.t_process q ≡ 0
      → AllItems (HasPriority s) q
      → AllItems (HasPriority t) q
  HasPriority-kept [] z h = tt
  HasPriority-kept (x ∷ q) z (h, hs) =
      let other : x.task ≢ s.t_process = λ same. ground arith in
      let kept : t.store x.task ≡ s.store x.task = rw a.store (ground arith) in
      (rw kept h, HasPriority-kept q (ground arith) hs)

  Arrives-IsShortestFirst :
      Inv whole_bursts s
      → get_elem? p.process_d.cpu_burst 0 ≡ some p.priority
      → IsShortestFirst s
      → IsShortestFirst t
  Arrives-IsShortestFirst v first o =
      let (no_ready, no_wait) = v.absent s.t_process (omega arith) in
      let here : t.store s.t_process ≡ some p = rw a.store (ground arith) in
      let key : priority_of (t.store s.t_process) ≡ some p.priority = rw here in
      record {
        ready = rw a.ready_queue (
          p_enqueue-IsSorted s.t_process p.priority s.ready_queue o.ready.0,
          AllItems-p_enqueue (HasPriority t) s.t_process p.priority s.ready_queue key
              (HasPriority-kept s.ready_queue no_ready o.ready.1),
        );
        wait = rw a.wait_queue (o.wait.0, HasPriority-kept s.wait_queue no_wait o.wait.1);
        lengths = λ r x is. elim (Bool-cases (r == s.t_process)) [
          | inl same ↦
              let at : r ≡ s.t_process = (==_iff r s.t_process).0 same in
              let found : t.store r ≡ some p = rw at here in let new : x ≡ p = cc in rw new first
          | inr ne ↦
              let kept : t.store r ≡ s.store r = rw a.store (ground arith) in
              o.lengths r x (sym kept ∙ is)
        ];
      }

tick-IsShortestFirst :
    (s : State) → IsShortestFirst s → IsShortestFirst (update_global_counter (pos 1) s)
unfolding update_global_counter
tick-IsShortestFirst s o = record { ready = o.ready; wait = o.wait; lengths = o.lengths }

arrive-IsShortestFirst :
    (d : BurstLine) (s t : State)
    → Accepts whole_bursts prepare_sjf s.quantum d
    → Inv whole_bursts s
    → IsShortestFirst s
    → arrive ops prepare_sjf d s ≡ ok t
    → IsShortestFirst t
arrive-IsShortestFirst d s t accepts v o e =
    let (p, made, _) = accepts s.t_process in
    let fresh : Process = record (create_process s.t_process) { process_d = d } in
    let u = admit ops s.t_process p (create d s).1 in
    let is = arrive-admit whole_bursts ops prepare_sjf d s p made in
    let same : u ≡ t = cc in
    subst IsShortestFirst same
      (Arrives-IsShortestFirst p s u (admit-Arrives ops d p s) v (prepare_sjf-first fresh p made) o)

arrivals-zero : (ds : List BurstLine) (s u : State) → arrivals ops prepare_sjf zero ds s ≢ ok u
unfolding arrivals
arrivals-zero [] s u e = cc
arrivals-zero (d ∷ ds) s u e = cc

-- The rest of the loop, once a process has arrived.
after_arrival-IsShortestFirst :
    (f : ℕ) (d : BurstLine) (ds : List BurstLine) (s t u : State)
    → leb_ℤ d.a_time s.global_counter ≡ true
    → arrive ops prepare_sjf d s ≡ ok t
    → IsShortestFirst t
    → (arrivals ops prepare_sjf f ds (update_global_counter (pos 1) t) ≡ ok u → IsShortestFirst u)
    → arrivals ops prepare_sjf (suc f) (d ∷ ds) s ≡ ok u
    → IsShortestFirst u
after_arrival-IsShortestFirst f d [] s t u due is o rest e =
    let last = arrivals-last whole_bursts ops prepare_sjf f d s t due is in
    let same : t ≡ u = cc in subst IsShortestFirst same o
after_arrival-IsShortestFirst f d (d' ∷ ds) s t u due is o rest e =
    rest (sym (arrivals-next whole_bursts ops prepare_sjf f d d' ds s t due is) ∙ e)

-- Whatever the arrival thread returns, the queues are in order.
pub arrivals-IsShortestFirst :
    (f : ℕ) (ds : List BurstLine) (s u : State)
    → AllAccepted whole_bursts prepare_sjf s.quantum ds
    → Inv whole_bursts s
    → IsListed s
    → IsShortestFirst s
    → arrivals ops prepare_sjf f ds s ≡ ok u
    → IsShortestFirst u
arrivals-IsShortestFirst zero ds s u good v l o e = absurd (arrivals-zero ds s u e)
arrivals-IsShortestFirst (suc f) [] s u good v l o e =
    let done = arrivals-nil whole_bursts ops prepare_sjf f s in
    let same : s ≡ u = cc in subst IsShortestFirst same o
arrivals-IsShortestFirst (suc f) (d ∷ ds) s u good v l o e =
    elim (Bool-cases (leb_ℤ d.a_time s.global_counter)) [
      | inr early ↦
          let tick = tick-Arrived whole_bursts s v l in
          arrivals-IsShortestFirst f (d ∷ ds) (update_global_counter (pos 1) s) u
            (subst (λ q. AllAccepted whole_bursts prepare_sjf q (d ∷ ds)) (sym tick.quantum) good)
            tick.inv tick.listed (tick-IsShortestFirst s o)
            (sym (arrivals-wait whole_bursts ops prepare_sjf f d ds s early) ∙ e)
      | inl due ↦
          let (t, is, (one, _)) = arrive-Arrived whole_bursts ops prepare_sjf d s good.0 v l in
          let o' = arrive-IsShortestFirst d s t good.0 v o is in
          let tick = tick-Arrived whole_bursts t one.inv one.listed in
          let rest =
            arrivals-IsShortestFirst f ds (update_global_counter (pos 1) t) u
              (subst (λ q. AllAccepted whole_bursts prepare_sjf q ds)
                (sym (tick.quantum ∙ one.quantum)) good.1)
              tick.inv tick.listed (tick-IsShortestFirst t o') in
          after_arrival-IsShortestFirst f d ds s t u due is o' rest e
    ]
