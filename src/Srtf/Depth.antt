-- ===== src/Srtf/Depth.antt =====
-- How deep the calls of `_process_cpu` of the shortest remaining time first get: the process that
-- runs in place of another has less time left.
use cpu_schedular.Base.{
  ℕ, zero, suc, ◌<◌, ◌≡◌, refl, sym, ap, ◌∙◌, Option, none, some, ℤ, pos, pos_part, ◌+ℤ◌, ◌-ℤ◌,
  ◌≤ℤ◌, ◌<ℤ◌, subst, true, false, [], ◌∷◌, ok, ◌==◌, ==_iff, inl, inr, arith, int_laws, Bool-cases,
  Returns,
}
use cpu_schedular.Process.{terminated, Process}
use cpu_schedular.Queue.{Ref, Queue}
use cpu_schedular.Queue.Laws.{occurs}
use cpu_schedular.Sched.{should_terminate, terminated_process, terminate, final}
use cpu_schedular.Sched.Cpu.{start-Quiet, cpu_ends}
use cpu_schedular.Sched.Final.{final-running_pd}
use cpu_schedular.Sched.Invariant.{Held}
use cpu_schedular.Sched.Lifecycle.{IsReady}
use cpu_schedular.Sched.Policy.{Policy}
use cpu_schedular.Sched.Progress.{Progress, Outcome-Progress}
use cpu_schedular.Srtf.{
  ops, run_burst, process_cpu, lesser, least_remaining, depth, process_cpu_srtf,
}
use cpu_schedular.Srtf.Nested.{Ends, Serves}
use cpu_schedular.Srtf.Outcome.{run_burst-Ends}
use cpu_schedular.Srtf.Steps.{runs}
use cpu_schedular.Srtf.Swap.{Above}
use cpu_schedular.Threads.{State, read_wall_start}

module _ (f : ℕ) (r : Ref) (s : State) (p : Process) (e : s.store r ≡ some p) where
  process_cpu-terminate :
      should_terminate p ≡ true
      → process_cpu (suc f) r s
        ≡ ok (
          terminated,
          final r (terminated_process p) terminated (terminate r p (read_wall_start s)),
        )
  unfolding process_cpu
  process_cpu-terminate over = rw (e, over, process_cpu)

  process_cpu-run_burst :
      should_terminate p ≡ false
      → process_cpu (suc f) r s ≡ run_burst (process_cpu f) r p (read_wall_start s)
  unfolding process_cpu
  process_cpu-run_burst goes = rw (e, goes, process_cpu)

terminate-running_pd :
    (r : Ref) (p : Process) (s : State)
    → (terminate r p (read_wall_start s)).running_pd ≡ s.running_pd
unfolding terminate read_wall_start
terminate-running_pd r p s = refl

-- A process that has been through its bursts terminates, and no other one runs.
terminate-Ends :
    (r : Ref) (s : State) (p : Process)
    → Held runs r s
    → s.running_pd ≡ some r
    → s.store r ≡ some p
    → IsReady runs s.quantum p
    → should_terminate p ≡ true
    → Ends s
        (terminated, final r (terminated_process p) terminated (terminate r p (read_wall_start s)))
terminate-Ends r s p h run e a over =
    let u = terminate r p (read_wall_start s) in
    let progress =
      Outcome-Progress runs ops r p s (final r (terminated_process p) terminated u) h e
        (cpu_ends runs ops r p s (read_wall_start s) (start-Quiet s) a over) in
    (
      progress,
      (
        r,
        final-running_pd r (terminated_process p) terminated u ∙ terminate-running_pd r p s ∙ run,
        omega (arith, progress.0.t_process, h.created),
      ),
    )

-- Calls as deep as the remaining time is above the least one do not run out of fuel.
process_cpu-Serves : (least : ℤ) (f : ℕ) → Serves least f (process_cpu f)
process_cpu-Serves least zero r s p h run e a above low high = absurd (omega (int_laws, low, high))
process_cpu-Serves least (suc f) r s p h run e a above low high =
    let deeper = process_cpu-Serves least f in
    elim (Bool-cases (should_terminate p)) [
      | inl over ↦ (_, process_cpu-terminate f r s p e over, terminate-Ends r s p h run e a over)
      | inr goes ↦
          rw (process_cpu-run_burst f r s p e goes)
            (run_burst-Ends r s p h run e a (process_cpu f) least f deeper above high goes)
    ]

lesser-low : (o : Option Process) (rest : ℤ) → lesser o rest ≤ℤ rest
lesser-low none rest = omega arith
lesser-low (some p) rest = ground arith

lesser_some : (p : Process) (rest : ℤ) → lesser (some p) rest ≤ℤ p.remaining_time
lesser_some p rest = ground arith

module _ (store : Ref → Option Process) (m : ℤ) where
  least_remaining-low : (q : Queue) → least_remaining store m q ≤ℤ m
  unfolding least_remaining
  least_remaining-low [] = omega arith
  least_remaining-low (x ∷ q) =
      omega (arith, least_remaining-low q, lesser-low (store x.task) (least_remaining store m q))

  least_remaining-Above :
      (q : Queue) (c : Ref) (p : Process)
      → 0 < occurs c q
      → store c ≡ some p
      → least_remaining store m q ≤ℤ p.remaining_time
  unfolding least_remaining
  least_remaining-Above [] c p present e = absurd (omega (arith, present))
  least_remaining-Above (x ∷ q) c p present e =
      let rest = least_remaining store m q in
      let h = least_remaining-Above q c p in
      elim (Bool-cases (x.task == c)) [
        | inl same ↦
            let at : some p ≡ store x.task = sym (ap store ((==_iff x.task c).0 same) ∙ e) in
            subst (λ o. lesser o rest ≤ℤ p.remaining_time) at (lesser_some p rest)
        | inr other ↦
            let before : 0 < occurs c q = ground arith in
            omega (arith, h before e, lesser-low (store x.task) rest)
      ]

depth-some :
    (r : Ref) (s : State) (p : Process)
    → s.store r ≡ some p
    → depth r s
      ≡ suc (pos_part (p.remaining_time -ℤ least_remaining s.store p.remaining_time s.ready_queue))
unfolding depth
depth-some r s p e = rw (e, depth)

-- The depth is enough.
depth-Above :
    (r : Ref) (s : State) (p : Process)
    → s.store r ≡ some p
    → (least : ℤ) × Above least s
      × (least ≤ℤ p.remaining_time)
      × (p.remaining_time <ℤ least +ℤ pos (depth r s))
depth-Above r s p e =
    let least = least_remaining s.store p.remaining_time s.ready_queue in
    (
      least,
      λ c x present stored.
          least_remaining-Above s.store p.remaining_time s.ready_queue c x present stored,
      least_remaining-low s.store p.remaining_time s.ready_queue,
      rw (depth-some r s p e) (omega int_laws),
    )

-- For a ready process that runs, in a state that is well formed, `_process_cpu` of the shortest
-- remaining time first returns without a fault, however many processes take the CPU from one
-- another: the state is well formed again, no process is lost or made, the lines of the processes
-- are the same, and less work is left than before.
pub process_cpu_srtf-Progress :
    (r : Ref) (s : State) (p : Process)
    → Held runs r s
    → s.running_pd ≡ some r
    → s.store r ≡ some p
    → IsReady runs s.quantum p
    → Returns (λ (status, t). Progress runs s t) (process_cpu_srtf r s)
unfolding process_cpu_srtf
process_cpu_srtf-Progress r s p h run e a =
    let (least, above, low, high) = depth-Above r s p e in
    let (out, is, (progress, running)) =
      process_cpu-Serves least (depth r s) r s p h run e a above low high in
    (out, is, progress)

abbrev pub policy : Policy
policy = record {
  acc = runs;
  ops = ops;
  process_cpu = process_cpu_srtf;
  process_cpu-Progress = process_cpu_srtf-Progress;
}
