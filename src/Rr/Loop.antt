-- ===== src/Rr/Loop.antt =====
-- The loop of a time slice runs for as long as the burst or the quantum lasts, whichever is less.
use cpu_schedular.Base.{
  ℕ, zero, suc, ◌+◌, ◌<◌, ◌≡◌, refl, ◌∙◌, ℤ, pos, negsuc, pos_part, ◌+ℤ◌, ◌&&◌, true, false, min,
  arith, int_laws, ltb, ltb_ℤ, ok,
}
use cpu_schedular.Process.{Process}
use cpu_schedular.Rr.{tick, run_slice}
use cpu_schedular.Sched.Cpu.{Quiet, Quiet-refl, Quiet-trans, tick_counter}
use cpu_schedular.Threads.{State, update_global_counter}

-- The process has run for `n` ticks.
pub record Ran (n : ℕ) (p p' : Process) : Type 0 where
  pub cpu_time : p'.cpu_time ≡ p.cpu_time +ℤ pos n
  pub process_time : p'.process_time ≡ p.process_time +ℤ pos n
  pub io_time : p'.io_time ≡ p.io_time
  pub cpu_index : p'.cpu_index ≡ p.cpu_index
  pub io_index : p'.io_index ≡ p.io_index
  pub process_d : p'.process_d ≡ p.process_d
  pub priority : p'.priority ≡ p.priority
  pub pid : p'.pid ≡ p.pid
  pub status : p'.status ≡ p.status

-- The ticks of a burst under a quantum.
abbrev pub ticks : ℕ → ℤ → ℕ
ticks quantum burst = min (pos_part burst) quantum

tick-Quiet : (s : State) → Quiet s (update_global_counter (pos 1) s)
unfolding update_global_counter
tick-Quiet s = record {
  store = refl;
  ready_queue = refl;
  wait_queue = refl;
  task_list = refl;
  t_process = refl;
  total_process = refl;
  terminated_process = refl;
  ready_count = refl;
  wait_count = refl;
  quantum = refl;
}

pub Ran-refl : (p : Process) → Ran 0 p p
Ran-refl p = record {
  cpu_time = omega int_laws;
  process_time = omega int_laws;
  io_time = refl;
  cpu_index = refl;
  io_index = refl;
  process_d = refl;
  priority = refl;
  pid = refl;
  status = refl;
}

pub Ran-suc : (n : ℕ) (p p' : Process) → Ran n (tick p) p' → Ran (suc n) p p'
Ran-suc n p p' r = record {
  cpu_time = rw r.cpu_time (omega int_laws);
  process_time = rw r.process_time (omega int_laws);
  io_time = r.io_time;
  cpu_index = r.cpu_index;
  io_index = r.io_index;
  process_d = r.process_d;
  priority = r.priority;
  pid = r.pid;
  status = r.status;
}

test_passes :
    (time quantum : ℕ) (burst : ℤ)
    → time < ticks quantum burst
    → (ltb_ℤ (pos time) burst && ltb time quantum) ≡ true
test_passes time quantum (pos n) lt = ground arith
test_passes time quantum (negsuc n) lt = absurd (omega arith)

test_fails :
    (time quantum : ℕ) (burst : ℤ)
    → time ≡ ticks quantum burst
    → (ltb_ℤ (pos time) burst && ltb time quantum) ≡ false
test_fails time quantum (pos n) e = ground arith
test_fails time quantum (negsuc n) e = ground arith

module _ (f : ℕ) (burst : ℤ) (time : ℕ) (p : Process) (s : State) where
  stops :
      time ≡ ticks s.quantum burst
      → run_slice (suc f) burst time p s ≡ ok (ticks s.quantum burst, p, s)
  unfolding run_slice
  stops e = rw (test_fails time s.quantum burst e, run_slice) (rw e)

  goes :
      time < ticks s.quantum burst
      → run_slice (suc f) burst time p s
        ≡ run_slice f burst (suc time) (tick p) (update_global_counter (pos 1) s)
  unfolding run_slice
  goes lt = rw (test_passes time s.quantum burst lt, run_slice)

-- From a time at which `n` ticks are left, with more fuel than that, the loop of a slice ends at the
-- burst or at the quantum, whichever is less. The process has run for the `n` ticks, the counter has
-- moved on by them, and the store, the queues and the semaphores are as they were.
pub run_slice-Ran :
    (f : ℕ) (burst : ℤ) (time n : ℕ) (p : Process) (s : State)
    → time + n ≡ ticks s.quantum burst
    → n < f
    → (p' : Process) × (t : State) × (run_slice f burst time p s
        ≡ ok (ticks s.quantum burst, p', t))
      × Ran n p p'
      × Quiet s t
      × (t.global_counter ≡ s.global_counter +ℤ pos n)
run_slice-Ran zero burst time n p s e fuel = absurd (omega arith)
run_slice-Ran (suc f) burst time zero p s e fuel =
    (p, s, stops f burst time p s (omega arith), Ran-refl p, Quiet-refl s, omega int_laws)
run_slice-Ran (suc f) burst time (suc n) p s e fuel =
    let q = tick-Quiet s in
    let same : ticks (update_global_counter (pos 1) s).quantum burst ≡ ticks s.quantum burst =
      rw q.quantum in
    let (p', t, is, ran, quiet, clock) =
      run_slice-Ran f burst (suc time) n (tick p) (update_global_counter (pos 1) s)
        (omega (arith, same)) (omega arith) in
    (
      p',
      t,
      goes f burst time p s (omega arith) ∙ is ∙ (rw same),
      Ran-suc n p p' ran,
      Quiet-trans s _ t q quiet,
      clock ∙ (rw (tick_counter s) (omega int_laws)),
    )
