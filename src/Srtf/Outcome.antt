-- ===== src/Srtf/Outcome.antt =====
-- What `_process_cpu` of the shortest remaining time first does with a ready process.
use cpu_schedular.Base.{
  ℕ, suc, ◌<◌, ◌≡◌, ◌≢◌, refl, sym, subst, ◌∙◌, ℤ, pos, pos_part, ◌+ℤ◌, ◌<ℤ◌, Bool, true, false,
  some, List, [], ◌∷◌, ◌++◌, Run, ok, inl, inr, arith, int_laws, Returns, get_elem?, get_elem?-lt,
}
use cpu_schedular.Process.{Status, sleep, Process}
use cpu_schedular.Queue.{Ref}
use cpu_schedular.Queue.Laws.{occurs}
use cpu_schedular.Sched.{should_terminate, final, to_wait}
use cpu_schedular.Sched.Bounds.{cpu_index-lt}
use cpu_schedular.Sched.Cpu.{Quiet-refl, cpu_sleeps}
use cpu_schedular.Sched.Final.{final-running_pd}
use cpu_schedular.Sched.Invariant.{Held}
use cpu_schedular.Sched.Lifecycle.{IsReady}
use cpu_schedular.Sched.Progress.{Outcome-Progress, Keeps-Progress}
use cpu_schedular.Srtf.{ops, next_burst, finish_burst, swap, run_burst, run_ticks}
use cpu_schedular.Srtf.Steps.{
  runs, Ticked-IsReady, Ticked-Held, Ticked-Keeps, Ticked-goes, over_burst, over_burst-IsAsleep,
  over_burst-work,
}
use cpu_schedular.Srtf.Swap.{Above}
use cpu_schedular.Srtf.Ticks.{Ticked, Beats, Stops, run_ticks-Stops}
use cpu_schedular.Threads.{State, LogLine, read_wall_start, write_cpu_process_data}
use cpu_schedular.Srtf.Burst.{
  held-CanTest, begun, begun-CanTest, begun_here, noted, Ticked-noted, Beats-noted, next_burst-ok,
}
use cpu_schedular.Srtf.Nested.{Ends, Serves, swap-Ends}

module _ (r : Ref) (p : Process) (u : State) where
  -- The burst is over.
  finish_burst-sleeps :
      (priority remaining : ℤ)
      → next_burst (record p { cpu_index = suc p.cpu_index })
        ≡ ok (record p {
          cpu_index = suc p.cpu_index;
          priority = priority;
          remaining_time = remaining;
        })
      → finish_burst r p u
        ≡ ok (
          sleep,
          final r
              (over_burst p priority remaining)
              sleep
              (to_wait ops r (over_burst p priority remaining) u),
        )
  unfolding finish_burst
  finish_burst-sleeps priority remaining e = rw e

to_wait-running_pd :
    (r : Ref) (p : Process) (s : State) → (to_wait ops r p s).running_pd ≡ s.running_pd
unfolding to_wait
to_wait-running_pd r p s = refl

-- The state after a burst, and after one that was interrupted.
abbrev ended : State → State
ended t = noted t t.global_counter t.task_log

abbrev log_of : Process → State → List LogLine
log_of p t =
    t.task_log
    ++ record { pid = p.pid; cpu_index = p.cpu_index; start = t.start_time; end = t.global_counter }
      ∷ []

abbrev interrupted : Process → State → State
interrupted p t = noted t t.global_counter (log_of p t)

module _ (again : Ref → State → Run (Status × State)) (r : Ref) (p : Process) (s : State)
    (burst : ℤ) (found : get_elem? p.process_d.cpu_burst p.cpu_index ≡ some burst) (p' : Process)
    (t : State) where
  run_burst-over :
      run_ticks (pos_part burst) r p (begun s) ≡ ok (false, p', t)
      → run_burst again r p (read_wall_start s) ≡ finish_burst r p' (ended t)
  unfolding run_burst begun
  run_burst-over e = rw (found, e)

  run_burst-swap :
      run_ticks (pos_part burst) r p (begun s) ≡ ok (true, p', t)
      → run_burst again r p (read_wall_start s) ≡ swap again r p' (interrupted p' t)
  unfolding run_burst begun write_cpu_process_data
  run_burst-swap e = rw (found, e)

module _ (r : Ref) (s : State) (p : Process) (h : Held runs r s) (run : s.running_pd ≡ some r)
    (e : s.store r ≡ some p) (a : IsReady runs s.quantum p) where
  -- A burst that is over makes progress.
  over-Ends :
      (burst : ℤ) (p' : Process) (u : State)
      → should_terminate p ≡ false
      → get_elem? p.process_d.cpu_burst p.cpu_index ≡ some burst
      → Ticked (pos_part burst) r p p' s u
      → Returns (Ends s) (finish_burst r p' u)
  over-Ends burst p' u goes found k =
      let ran = k.ran in
      let w = a.accounts.well_formed in
      let (priority, remaining, next) =
        next_burst-ok (record p' { cpu_index = suc p'.cpu_index }) (rw ran.process_d w.cpu_size) in
      let asleep = over_burst p' priority remaining in
      let is = finish_burst-sleeps r p' u priority remaining next in
      let out =
        cpu_sleeps runs ops r p' u u (Quiet-refl u) asleep
          (rw k.quantum (over_burst-IsAsleep s.quantum a k found priority remaining))
          (over_burst-work u.quantum p' priority remaining
            (rw k.quantum (Ticked-IsReady k s.quantum a)) (Ticked-goes k goes))
          refl refl in
      let v = final r asleep sleep (to_wait ops r asleep u) in
      let progress = Outcome-Progress runs ops r p' u v (Ticked-Held k h) k.here out in
      (
        (sleep, v),
        is,
        (
          Keeps-Progress runs s u v (Ticked-Keeps k e) progress,
          (
            r,
            final-running_pd r asleep sleep (to_wait ops r asleep u)
                ∙ to_wait-running_pd r asleep u
                ∙ k.running_pd
                ∙ run,
            omega (arith, progress.0.t_process, k.t_process, h.created),
          ),
        ),
      )

  -- The times of the processes in the ready queue have not changed.
  Ticked-Above :
      (least : ℤ) (n : ℕ) (p' : Process) (u : State)
      → Ticked n r p p' s u
      → Above least s
      → Above least u
  Ticked-Above least n p' u k above c q present stored =
      let before : 0 < occurs c s.ready_queue = rw k.ready_queue at present in
      let ne : c ≢ r = λ same. omega (arith, h.held.0, rw same at before) in
      above c q before (sym (k.elsewhere c ne) ∙ stored)

  -- A burst that another process interrupts makes progress all the same.
  interrupted-Ends :
      (again : Ref → State → Run (Status × State)) (least : ℤ) (depth n : ℕ) (p' : Process)
      (u : State)
      → Serves least depth again
      → Above least s
      → p.remaining_time <ℤ least +ℤ pos (suc depth)
      → Ticked (suc n) r p p' s u
      → Beats r p' u
      → Returns (Ends s) (swap again r p' u)
  interrupted-Ends again least depth n p' u serves above bound k beats =
      let ready : IsReady runs u.quantum p' = rw k.quantum (Ticked-IsReady k s.quantum a) in
      let less : p'.remaining_time <ℤ least +ℤ pos depth =
        let before = subst (λ time. time <ℤ least +ℤ pos (suc depth)) (sym k.remaining) bound in
        omega (int_laws, before) in
      let ((status, t), is, (progress, running)) =
        swap-Ends again r p' u least depth serves (Ticked-Held k h) k.here ready
          (Ticked-Above least (suc n) p' u k above) beats less in
      ((status, t), is, (Keeps-Progress runs s u t (Ticked-Keeps k e) progress, running))

  Stops-Ends :
      (again : Ref → State → Run (Status × State)) (least : ℤ) (depth : ℕ)
      → Serves least depth again
      → Above least s
      → p.remaining_time <ℤ least +ℤ pos (suc depth)
      → should_terminate p ≡ false
      → (burst : ℤ) → get_elem? p.process_d.cpu_burst p.cpu_index ≡ some burst
      → (b : Bool) (p' : Process) (t : State)
      → run_ticks (pos_part burst) r p (begun s) ≡ ok (b, p', t)
      → Stops (pos_part burst) r p (begun s) (b, p', t)
      → Returns (Ends s) (run_burst again r p (read_wall_start s))
  Stops-Ends again least depth serves above bound goes burst found b p' t is stops = elim stops [
    | inl (over, k) ↦
        rw
          (run_burst-over again r p s burst found p' t
            (subst (λ x. run_ticks (pos_part burst) r p (begun s) ≡ ok (x, p', t)) over is))
          (over-Ends burst p' (ended t) goes found
            (Ticked-noted (pos_part burst) r p p' s t t.global_counter t.task_log k))
    | inr (left, (m, k, beats)) ↦
        rw
          (run_burst-swap again r p s burst found p' t
            (subst (λ x. run_ticks (pos_part burst) r p (begun s) ≡ ok (x, p', t)) left is))
          (interrupted-Ends again least depth m p' (interrupted p' t) serves above bound
            (Ticked-noted (suc m) r p p' s t t.global_counter (log_of p' t) k)
            (Beats-noted r p' t t.global_counter (log_of p' t) beats))
  ]

  -- The burst runs to its end, or until another process has less time left.
  pub run_burst-Ends :
      (again : Ref → State → Run (Status × State)) (least : ℤ) (depth : ℕ)
      → Serves least depth again
      → Above least s
      → p.remaining_time <ℤ least +ℤ pos (suc depth)
      → should_terminate p ≡ false
      → Returns (Ends s) (run_burst again r p (read_wall_start s))
  run_burst-Ends again least depth serves above bound goes =
      let (burst, found) =
        get_elem?-lt p.process_d.cpu_burst p.cpu_index
          (cpu_index-lt p a.accounts.well_formed a.indices goes) in
      let (out, is, stops) =
        run_ticks-Stops (pos_part burst) r p (begun s) (begun-CanTest r s (held-CanTest r s h run))
          (begun_here r p s e) in
      Stops-Ends again least depth serves above bound goes burst found out.0 out.1 out.2 is stops
