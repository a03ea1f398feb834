-- ===== src/Srtf/Ticks.antt =====
-- The loop of a burst: how long it runs, and when it is left for another process.
use cpu_schedular.Base.{
  ℕ, zero, suc, ◌≡◌, ◌≢◌, refl, ap, ◌∙◌, ◌⊎◌, pos, ◌+ℤ◌, ◌<ℤ◌, Bool, true, false, some, [], ◌∷◌,
  arith, int_laws, tests, ltb_ℤ, ok, inl, inr, Bool-cases, Returns,
}
use cpu_schedular.Process.{Process}
use cpu_schedular.Queue.{Ref, Item, Queue}
use cpu_schedular.Rr.{tick}
use cpu_schedular.Rr.Loop.{Ran, Ran-refl, Ran-suc}
use cpu_schedular.Srtf.{simulate_srtf, tick_srtf, run_ticks}
use cpu_schedular.Threads.{State}

-- The process has run for `n` ticks, from `p` to `p'`, and nothing else has changed but the
-- counter.
pub record Ticked (n : ℕ) (r : Ref) (p p' : Process) (s t : State) : Type 0 where
  pub ran : Ran n p p'
  pub remaining : p'.remaining_time +ℤ pos n ≡ p.remaining_time
  pub here : t.store r ≡ some p'
  pub elsewhere : (q : Ref) → q ≢ r → t.store q ≡ s.store q
  pub ready_queue : t.ready_queue ≡ s.ready_queue
  pub wait_queue : t.wait_queue ≡ s.wait_queue
  pub task_list : t.task_list ≡ s.task_list
  pub t_process : t.t_process ≡ s.t_process
  pub total_process : t.total_process ≡ s.total_process
  pub terminated_process : t.terminated_process ≡ s.terminated_process
  pub ready_count : t.ready_count ≡ s.ready_count
  pub wait_count : t.wait_count ≡ s.wait_count
  pub quantum : t.quantum ≡ s.quantum
  pub running_pd : t.running_pd ≡ s.running_pd

Ticked-refl : (r : Ref) (p : Process) (s : State) → s.store r ≡ some p → Ticked 0 r p p s s
Ticked-refl r p s e = record {
  ran = Ran-refl p;
  remaining = omega int_laws;
  here = e;
  elsewhere = λ q ne. refl;
  ready_queue = refl;
  wait_queue = refl;
  task_list = refl;
  t_process = refl;
  total_process = refl;
  terminated_process = refl;
  ready_count = refl;
  wait_count = refl;
  quantum = refl;
  running_pd = refl;
}

tick-Ticked : (r : Ref) (p : Process) (s : State) → Ticked 1 r p (tick p) s (tick_srtf r p s)
unfolding tick_srtf
tick-Ticked r p s = record {
  ran = Ran-suc 0 p (tick p) (Ran-refl (tick p));
  remaining = omega int_laws;
  here = ground arith;
  elsewhere = λ q ne. ground arith;
  ready_queue = refl;
  wait_queue = refl;
  task_list = refl;
  t_process = refl;
  total_process = refl;
  terminated_process = refl;
  ready_count = refl;
  wait_count = refl;
  quantum = refl;
  running_pd = refl;
}

Ticked-suc :
    (n : ℕ) (r : Ref) (p p' : Process) (s t : State)
    → Ticked n r (tick p) p' (tick_srtf r p s) t
    → Ticked (suc n) r p p' s t
Ticked-suc n r p p' s t k =
    let h = tick-Ticked r p s in
    record {
      ran = Ran-suc n p p' k.ran;
      remaining = (omega int_laws) ∙ ap (λ time. time +ℤ pos 1) k.remaining ∙ (omega int_laws);
      here = k.here;
      elsewhere = λ q ne. k.elsewhere q ne ∙ h.elsewhere q ne;
      ready_queue = k.ready_queue ∙ h.ready_queue;
      wait_queue = k.wait_queue ∙ h.wait_queue;
      task_list = k.task_list ∙ h.task_list;
      t_process = k.t_process ∙ h.t_process;
      total_process = k.total_process ∙ h.total_process;
      terminated_process = k.terminated_process ∙ h.terminated_process;
      ready_count = k.ready_count ∙ h.ready_count;
      wait_count = k.wait_count ∙ h.wait_count;
      quantum = k.quantum ∙ h.quantum;
      running_pd = k.running_pd ∙ h.running_pd;
    }

-- The front of the ready queue is another process, which the store has.
pub record Front (r : Ref) (s : State) : Type 0 where
  pub item : Item
  pub rest : Queue
  pub process : Process
  pub front : s.ready_queue ≡ item ∷ rest
  pub other : item.task ≢ r
  pub stored : s.store item.task ≡ some process

-- What `simulate_srtf` may read: a running process, and a front if the ready queue is not empty.
abbrev pub CanTest : Ref → State → Type 0
CanTest r s = (s.running_pd ≡ some r) × ((s.ready_queue ≡ []) ⊎ Front r s)

tick-CanTest : (r : Ref) (p : Process) (s : State) → CanTest r s → CanTest r (tick_srtf r p s)
tick-CanTest r p s (run, inl e) =
    let h = tick-Ticked r p s in (h.running_pd ∙ run, inl (h.ready_queue ∙ e))
tick-CanTest r p s (run, inr f) =
    let h = tick-Ticked r p s in
    (
      h.running_pd ∙ run,
      inr (record {
        item = f.item;
        rest = f.rest;
        process = f.process;
        front = h.ready_queue ∙ f.front;
        other = f.other;
        stored = h.elsewhere f.item.task f.other ∙ f.stored;
      }),
    )

-- Another process is to run: the front has less time left.
abbrev pub Beats : Ref → Process → State → Type 0
Beats r p s = (f : Front r s) × (f.process.remaining_time <ℤ p.remaining_time)

simulate-cases :
    (r : Ref) (p : Process) (s : State)
    → CanTest r s
    → s.store r ≡ some p
    → (simulate_srtf s ≡ ok false) ⊎ ((simulate_srtf s ≡ ok true) × Beats r p s)
unfolding simulate_srtf
simulate-cases r p s (run, inl e) stored = inl (ground arith)
simulate-cases r p s (run, inr f) stored =
    let front = f.front in
    let found = f.stored in
    elim (Bool-cases (ltb_ℤ f.process.remaining_time p.remaining_time)) [
      | inl less ↦ inr (rw (run, front, found, stored, less), (f, omega tests))
      | inr more ↦ inl (rw (run, front, found, stored, more))
    ]

-- The loop runs for all of its rounds, or it is left after one of them for the front.
abbrev pub Stops : ℕ → Ref → Process → State → Bool × Process × State → Type 0
Stops n r p s (triggered, p', t) =
    ((triggered ≡ false) × Ticked n r p p' s t)
    ⊎ ((triggered ≡ true) × ((m : ℕ) × Ticked (suc m) r p p' s t × Beats r p' t))

module _ (n : ℕ) (r : Ref) (p : Process) (s : State) where
  run_ticks-swap :
      simulate_srtf (tick_srtf r p s) ≡ ok true
      → run_ticks (suc n) r p s ≡ ok (true, tick p, tick_srtf r p s)
  unfolding run_ticks
  run_ticks-swap e = rw e

  run_ticks-next :
      simulate_srtf (tick_srtf r p s) ≡ ok false
      → run_ticks (suc n) r p s ≡ run_ticks n r (tick p) (tick_srtf r p s)
  unfolding run_ticks
  run_ticks-next e = rw e

Stops-suc :
    (n : ℕ) (r : Ref) (p : Process) (s : State) (out : Bool × Process × State)
    → Stops n r (tick p) (tick_srtf r p s) out
    → Stops (suc n) r p s out
Stops-suc n r p s (b, p', t) (inl (e, k)) = inl (e, Ticked-suc n r p p' s t k)
Stops-suc n r p s (b, p', t) (inr (e, (m, k, f))) =
    inr (e, (suc m, Ticked-suc (suc m) r p p' s t k, f))

pub run_ticks-Stops :
    (n : ℕ) (r : Ref) (p : Process) (s : State)
    → CanTest r s
    → s.store r ≡ some p
    → Returns (Stops n r p s) (run_ticks n r p s)
unfolding run_ticks
run_ticks-Stops zero r p s can e = (_, refl, inl (refl, Ticked-refl r p s e))
run_ticks-Stops (suc n) r p s can e =
    let t = tick_srtf r p s in
    let h = tick-Ticked r p s in
    let later = tick-CanTest r p s can in
    elim (simulate-cases r (tick p) t later h.here) [
      | inr (is, beats) ↦ (_, run_ticks-swap n r p s is, inr (refl, (0, h, beats)))
      | inl is ↦
          let (out, are, stops) = run_ticks-Stops n r (tick p) t later h.here in
          (out, run_ticks-next n r p s is ∙ are, Stops-suc n r p s out stops)
    ]
