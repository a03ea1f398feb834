-- ===== src/Srtf/Swap.antt =====
-- The way of a process back to the ready queue, and the process that runs in its place.
use cpu_schedular.Base.{
  ◌==◌, ==_iff, Bool-cases, suc, ◌-◌, ◌<◌, ◌≡◌, ◌≢◌, refl, sym, ap, ◌∙◌, ◌⊎◌, ℤ, ◌≤ℤ◌, some, [],
  ◌∷◌, Run, ok, ◌>>=◌, read, inl, inr, arith, ltb_ℤ,
}
use cpu_schedular.Process.{Status, ready, Process}
use cpu_schedular.Queue.{Ref, Item, Queue, p_enqueue}
use cpu_schedular.Queue.Laws.{occurs, occurs-p_enqueue}
use cpu_schedular.Sched.{take_ready, final}
use cpu_schedular.Sched.Invariant.{Inv, Held, Wakes-Inv}
use cpu_schedular.Sched.Lifecycle.{IsReady, Wakes, work}
use cpu_schedular.Sched.Progress.{Keeps}
use cpu_schedular.Sched.Work.{total_work-same}
use cpu_schedular.Srtf.{ops, preempted, give_way, swap}
use cpu_schedular.Srtf.Steps.{runs, preempted-IsReady}
use cpu_schedular.Srtf.Ticks.{Beats}
use cpu_schedular.Threads.{State, post_ready}

-- The state in which the process is back in the ready queue, with a semaphore to match.
abbrev pub back : Ref → Process → State → State
back r p s = post_ready (give_way r p s)

module _ (r : Ref) (p : Process) (s : State) where
  back-Wakes : Wakes ops r (preempted p) s (back r p s)
  unfolding give_way post_ready
  back-Wakes = record {
    writes = record {
      here = ground arith;
      elsewhere = λ q ne. ground arith;
      t_process = refl;
      total_process = refl;
      quantum = refl;
      task_list = refl;
    };
    ready_queue = ((preempted p).wall_time, refl);
    ready_count = refl;
    wait_queue = refl;
    wait_count = refl;
    terminated_process = refl;
  }

  pub back-Inv : Held runs r s → IsReady runs s.quantum p → Inv runs (back r p s)
  unfolding give_way post_ready
  back-Inv h a =
      Wakes-Inv runs ops r (preempted p) s (back r p s) h back-Wakes
        (preempted-IsReady s.quantum p a)

  -- The queue that the process is in again.
  abbrev pub queue : Queue
  queue = p_enqueue r p.remaining_time s.ready_queue

  -- Giving way and taking the front is what a thread does that posts and waits.
  pub swap-step :
      (again : Ref → State → Run (Status × State)) (x : Item) (q : Queue)
      → queue ≡ x ∷ q
      → swap again r p s ≡ (do
        (status, t) ← again x.task (take_ready (back r p s))
        current ← read t.running_pd
        p' ← read (t.store current)
        ok (status, final current p' status t))
  unfolding swap give_way post_ready take_ready
  swap-step again x q e =
      let same : suc s.ready_count - 1 ≡ s.ready_count = omega arith in rw (e, same)

  pub back-queue : (back r p s).ready_queue ≡ queue
  unfolding give_way post_ready
  back-queue = refl

  back_here : (back r p s).store r ≡ some (preempted p)
  back_here = back-Wakes.writes.here

  back_elsewhere : (q : Ref) → q ≢ r → (back r p s).store q ≡ s.store q
  back_elsewhere = back-Wakes.writes.elsewhere

  back_work : IsReady runs s.quantum p → work ready (preempted p) ≡ work p.status p
  back_work a = elim a.status [ inl (e, _) ↦ rw e | inr e ↦ rw e ]

  pub back-Keeps : s.store r ≡ some p → IsReady runs s.quantum p → Keeps s (back r p s)
  back-Keeps e a =
      let w = back-Wakes.writes in
      let here = back_here in
      record {
        t_process = w.t_process;
        total_process = w.total_process;
        quantum = w.quantum;
        task_list = w.task_list;
        identity = λ q. elim (Bool-cases (q == r)) [
          | inl same ↦ let at : q ≡ r = (==_iff q r).0 same in rw (at, here, e)
          | inr ne ↦ rw (back_elsewhere q (λ same. ground arith))
        ];
        work = rw w.t_process (
            total_work-same s.t_process s.store (back r p s).store λ q. elim (Bool-cases (q == r)) [
              | inl same ↦ let at : q ≡ r = (==_iff q r).0 same in rw (at, here, e) (back_work a)
              | inr ne ↦ rw (back_elsewhere q (λ same. ground arith))
            ]);
      }

-- The processes of the ready queue have at least this much time left.
abbrev pub Above : ℤ → State → Type 0
Above least s =
    (r : Ref) (p : Process)
    → 0 < occurs r s.ready_queue
    → s.store r ≡ some p
    → least ≤ℤ p.remaining_time

-- The front of a queue that a process has joined is that process, or the front of before.
p_enqueue-front :
    (r : Ref) (n : ℤ) (q : Queue) (x : Item) (rest : Queue)
    → p_enqueue r n q ≡ x ∷ rest
    → (x.task ≡ r) ⊎ ((tail : Queue) × (q ≡ x ∷ tail))
unfolding p_enqueue
p_enqueue-front r n [] x rest e = inl (cc)
p_enqueue-front r n (y ∷ q) x rest e = elim (Bool-cases (ltb_ℤ n y.priority)) [
  | inl less ↦ let new = rw less at e in inl (cc)
  | inr more ↦ let old = rw more at e in inr (q, cc)
]

module _ (r : Ref) (p : Process) (s : State) (least : ℤ) (above : Above least s)
    (beats : Beats r p s) where
  front_above : least ≤ℤ beats.0.process.remaining_time
  front_above =
      let f = beats.0 in
      let front = f.front in
      let present : 0 < occurs f.item.task s.ready_queue = rw front (ground arith) in
      above f.item.task f.process present f.stored

  -- The process that runs in its place has no more time left than it, and not less than the least.
  pub next_remaining :
      (x : Item) (q : Queue) (p' : Process)
      → queue r p s ≡ x ∷ q
      → (back r p s).store x.task ≡ some p'
      → (least ≤ℤ p'.remaining_time) × (p'.remaining_time ≤ℤ p.remaining_time)
  next_remaining x q p' e stored =
      let store = (back r p s).store in
      elim (p_enqueue-front r p.remaining_time s.ready_queue x q e) [
        | inl same ↦
            let found : some p' ≡ some (preempted p) =
              sym stored ∙ ap store same ∙ back_here r p s in
            let is : p' ≡ preempted p = cc in
            rw is (omega (arith, front_above, beats.1), omega arith)
        | inr (tail, old) ↦
            let f = beats.0 in
            let front = f.front in
            let same : x.task ≡ f.item.task = cc in
            let found : some p' ≡ some f.process =
              sym stored ∙ ap store same ∙ back_elsewhere r p s f.item.task f.other ∙ f.stored in
            let is : p' ≡ f.process = cc in rw is (front_above, omega (arith, beats.1))
      ]

  -- A process behind it is the one that gave way, or one of before.
  back-above :
      (c : Ref) (p' : Process)
      → 0 < occurs c (queue r p s)
      → (back r p s).store c ≡ some p'
      → least ≤ℤ p'.remaining_time
  back-above c p' present stored = elim (Bool-cases (c == r)) [
    | inl same ↦
        let at : c ≡ r = (==_iff c r).0 same in
        let found : some p' ≡ some (preempted p) =
          sym stored ∙ ap (back r p s).store at ∙ back_here r p s in
        let is : p' ≡ preempted p = cc in rw is (omega (arith, front_above, beats.1))
    | inr other ↦
        let ne : c ≢ r = λ same. ground arith in
        let before : 0 < occurs c s.ready_queue =
          ground (arith, occurs-p_enqueue c r p.remaining_time s.ready_queue) in
        above c p' before (sym (back_elsewhere r p s c ne) ∙ stored)
  ]

  pub back-Above :
      (x : Item) (q : Queue) → queue r p s ≡ x ∷ q → Above least (take_ready (back r p s))
  unfolding take_ready give_way post_ready
  back-Above x q e c p' present stored =
      let behind : 0 < occurs c q = rw e at present in back-above c p' (rw e (omega arith)) stored
