-- ===== src/Interleaved/Cpu/Work.antt =====
-- The work of the scheduler thread on a process that it has taken: the process has terminated, or
-- it is asleep and on its way to the wait queue.
use cpu_schedular.Base.{◌≡◌, refl, ◌∙◌, some, arith, true, inl, inr}
use cpu_schedular.Interleaved.{Point, holding, putting, finishing, System, cpu_step}
use cpu_schedular.Interleaved.Cpu.{at_cpu, CpuMoves}
use cpu_schedular.Interleaved.Invariant.{Balanced, EndsWell-mono, Idle, Moves, Progress-Moves}
use cpu_schedular.Interleaved.Settled.{
  settled, settled-Writes, parts-Changes, occurs-ready, occurs-wait,
}
use cpu_schedular.Interleaved.Settled.Places.{ready_place, Changes-Progress}
use cpu_schedular.Process.{Process, terminated}
use cpu_schedular.Queue.{Ref}
use cpu_schedular.Sched.{should_terminate, terminated_process, terminate}
use cpu_schedular.Sched.Cpu.{
  Quiet, start-Quiet, put-Writes, terminate-Ends, ready-IsDone, terminated-Forward,
}
use cpu_schedular.Sched.Lifecycle.{IsReady, IsAsleep, Forward}
use cpu_schedular.Interleaved.Policy.{StepPolicy, Holds, ends, sleeps}
use cpu_schedular.Sched.Lifecycle.{Accounting}
use cpu_schedular.Threads.{State, put, read_wall_start}

module _ (acc : Accounting) (s : State) (io : Point) (r : Ref) (p : Process) where
  -- Before the work the process counts in the ready queue, where the thread has it from.
  abbrev before : System
  before = at_cpu s (holding r) io

  module _ (v : Balanced acc before) (e : s.store r ≡ some p) (a : IsReady acc s.quantum p) where
    cpu_terminates :
        should_terminate p ≡ true
        → Moves acc before
            (at_cpu (terminate r p (read_wall_start s)) (finishing r terminated) io)
            (Idle s s.ready_count (holding r) (finishing r terminated))
    cpu_terminates over =
        let t = terminate r p (read_wall_start s) in
        let after = at_cpu t (finishing r terminated) io in
        let over_by = terminate-Ends r p s (read_wall_start s) (start-Quiet s) in
        let w = over_by.writes in
        let (lt, one, none_in, _) =
          ready_place acc (settled before) v.inv r (ground (arith, occurs-ready before r)) in
        Progress-Moves acc before after v
          (record {
            ready = rw (over_by.ready_count, over_by.ready_queue) v.counts.ready;
            wait = rw (over_by.wait_count, over_by.wait_queue) v.counts.wait;
            cpu = rw w.t_process lt;
            io =
                EndsWell-mono s t io w.t_process w.total_process
                  (omega (arith, over_by.terminated_process)) v.counts.io;
            wakes_up = v.counts.wakes_up;
          })
          _
          (Changes-Progress acc (settled before) v.inv r lt (settled after) (terminated_process p)
            (settled-Writes r (terminated_process p) before after w)
            (parts-Changes r before after (λ q ne. rw over_by.ready_queue (ground arith))
              (λ q ne. rw over_by.wait_queue refl)
              (rw (over_by.ready_queue, over_by.wait_queue)
                (omega (arith, over_by.terminated_process))))
            (inr (
              inr (
                rw over_by.ready_queue
                    (ground (arith, occurs-ready before r, occurs-ready after r)),
                rw over_by.wait_queue (omega (arith, occurs-wait before r, occurs-wait after r)),
                rw w.quantum (ready-IsDone acc s.quantum p a over),
              )))
            p e (terminated-Forward acc s.quantum p a))
          (omega arith)

    cpu_sleeps :
        (t : State) (p' : Process)
        → Quiet s t
        → IsAsleep acc s.quantum p'
        → Forward p p'
        → Moves acc before
            (at_cpu (put r p' t) (putting r) io)
            (Idle s s.ready_count (holding r) (putting r))
    unfolding put
    cpu_sleeps t p' q asleep forward =
        let after = at_cpu (put r p' t) (putting r) io in
        let (lt, one, none_in, _) =
          ready_place acc (settled before) v.inv r (ground (arith, occurs-ready before r)) in
        Progress-Moves acc before after v
          (record {
            ready = rw (q.ready_count, q.ready_queue) v.counts.ready;
            wait = rw (q.wait_count, q.wait_queue) v.counts.wait;
            cpu = tt;
            io =
                EndsWell-mono s t io q.t_process q.total_process
                  (omega (arith, q.terminated_process)) v.counts.io;
            wakes_up = v.counts.wakes_up;
          })
          _
          (Changes-Progress acc (settled before) v.inv r lt (settled after) p'
            (settled-Writes r p' before after (put-Writes r p' s t q))
            (parts-Changes r before after (λ x ne. rw q.ready_queue (ground arith))
              (λ x ne. rw q.wait_queue (ground arith))
              (rw (q.ready_queue, q.wait_queue) (omega (arith, q.terminated_process))))
            (inr (
              inl (
                rw q.ready_queue (ground (arith, occurs-ready before r, occurs-ready after r)),
                rw q.wait_queue (ground (arith, occurs-wait before r, occurs-wait after r)),
                rw q.quantum asleep,
              )))
            p e forward)
          (omega arith)

module _ (pol : StepPolicy) (s : State) (io : Point) (r : Ref) where
  cpu_step-hold :
      (p : Process)
      → s.store r ≡ some p
      → cpu_step pol.ops pol.hold (holding r) s ≡ pol.hold r p (read_wall_start s)
  unfolding cpu_step
  cpu_step-hold p e = rw e

  Holds-Moves :
      (p : Process) (at : Point) (t : State)
      → Balanced pol.acc (at_cpu s (holding r) io)
      → s.store r ≡ some p
      → IsReady pol.acc s.quantum p
      → Holds pol.acc r p s at t
      → Moves pol.acc
          (at_cpu s (holding r) io)
          (at_cpu t at io)
          (Idle s s.ready_count (holding r) at)
  Holds-Moves p at t v e a (ends over) = cpu_terminates pol.acc s io r p v e a over
  Holds-Moves p at t v e a (sleeps p' u q asleep forward) =
      cpu_sleeps pol.acc s io r p v e a u p' q asleep forward

  pub cpu_holding : Balanced pol.acc (at_cpu s (holding r) io) → CpuMoves pol s (holding r) io
  cpu_holding v =
      let x = at_cpu s (holding r) io in
      let place = ready_place pol.acc (settled x) v.inv r (ground (arith, occurs-ready x r)) in
      let (p, e, a) = place.3 in
      let ((at, t), is, outcome) = pol.hold-Holds r p s a in
      ((at, t), cpu_step-hold p e ∙ is, Holds-Moves p at t v e a outcome)
