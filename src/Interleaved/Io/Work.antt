-- ===== src/Interleaved/Io/Work.antt =====
-- The work of the wake-up thread on a process that it has taken: the process has terminated, or it is
-- ready and on its way to the ready queue.
use cpu_schedular.Base.{
  ◌≡◌, refl, ℤ, some, arith, true, false, inl, inr, Bool-cases, get_elem?, get_elem?-lt, ok,
}
use cpu_schedular.Interleaved.{Point, testing, holding, putting, System, hold_io, io_step}
use cpu_schedular.Interleaved.Io.{at_io, IoMoves}
use cpu_schedular.Interleaved.Invariant.{Balanced, EndsWell-mono, Idle, Moves, Progress-Moves}
use cpu_schedular.Interleaved.Settled.{
  settled, settled-Writes, parts-Changes, occurs-ready, occurs-wait,
}
use cpu_schedular.Interleaved.Settled.Places.{wait_place, Changes-Progress}
use cpu_schedular.Process.{Process, sleep}
use cpu_schedular.Queue.{Ref}
use cpu_schedular.Sched.{ThreadOps, after_io, should_terminate, terminated_process, terminate}
use cpu_schedular.Sched.Bounds.{io_index-lt}
use cpu_schedular.Sched.Cpu.{Quiet, Quiet-refl, put-Writes, terminate-Ends}
use cpu_schedular.Sched.Io.{asleep-IsDone, after_io-IsReady, after_io-work}
use cpu_schedular.Sched.Lifecycle.{Accounting, IsAsleep}
use cpu_schedular.Threads.{State, put, update_global_counter}

counter-Quiet : (burst : ℤ) (s : State) → Quiet s (update_global_counter burst s)
unfolding update_global_counter
counter-Quiet burst s = record {
  store = refl;
  ready_queue = refl;
  wait_queue = refl;
  task_list = refl;
  t_process = refl;
  total_process = refl;
  terminated_process = refl;
  ready_count = refl;
  wait_count = refl;
  quantum = refl;
}

module _ (acc : Accounting) (s : State) (cpu : Point) (r : Ref) (p : Process) where
  -- Before the work the process counts in the wait queue, where the thread has it from.
  abbrev before : System
  before = at_io s cpu (holding r)

  module _ (v : Balanced acc before) (e : s.store r ≡ some p) (a : IsAsleep acc s.quantum p) where
    io_terminates :
        should_terminate p ≡ true
        → Moves acc before
            (at_io (terminate r p s) cpu testing)
            (Idle s s.wait_count (holding r) testing)
    io_terminates over =
        let t = terminate r p s in
        let after = at_io t cpu testing in
        let ends = terminate-Ends r p s s (Quiet-refl s) in
        let w = ends.writes in
        let (lt, none_in, one, _) =
          wait_place acc (settled before) v.inv r (ground (arith, occurs-wait before r)) in
        Progress-Moves acc before after v
          (record {
            ready = rw (ends.ready_count, ends.ready_queue) v.counts.ready;
            wait = rw (ends.wait_count, ends.wait_queue) v.counts.wait;
            cpu =
                EndsWell-mono s t cpu w.t_process w.total_process
                  (omega (arith, ends.terminated_process)) v.counts.cpu;
            io = tt;
            wakes_up = tt;
          })
          _
          (Changes-Progress acc (settled before) v.inv r lt (settled after) (terminated_process p)
            (settled-Writes r (terminated_process p) before after w)
            (parts-Changes r before after (λ q ne. rw ends.ready_queue refl)
              (λ q ne. rw ends.wait_queue (ground arith))
              (rw (ends.ready_queue, ends.wait_queue) (omega (arith, ends.terminated_process))))
            (inr (
              inr (
                rw ends.ready_queue (omega (arith, occurs-ready before r, occurs-ready after r)),
                rw ends.wait_queue (ground (arith, occurs-wait before r, occurs-wait after r)),
                rw w.quantum (asleep-IsDone acc s.quantum p a over),
              )))
            p e (record { less = rw a.status (omega arith); pid = refl; process_d = refl }))
          (omega arith)

    io_wakes :
        (burst : ℤ)
        → should_terminate p ≡ false
        → get_elem? p.process_d.io_burst p.io_index ≡ some burst
        → Moves acc before
            (at_io (put r (after_io p burst) (update_global_counter burst s)) cpu (putting r))
            (Idle s s.wait_count (holding r) (putting r))
    unfolding put
    io_wakes burst goes found =
        let t = update_global_counter burst s in
        let p' = after_io p burst in
        let q = counter-Quiet burst s in
        let after = at_io (put r p' t) cpu (putting r) in
        let (lt, none_in, one, _) =
          wait_place acc (settled before) v.inv r (ground (arith, occurs-wait before r)) in
        Progress-Moves acc before after v
          (record {
            ready = rw (q.ready_count, q.ready_queue) v.counts.ready;
            wait = rw (q.wait_count, q.wait_queue) v.counts.wait;
            cpu =
                EndsWell-mono s t cpu q.t_process q.total_process
                  (omega (arith, q.terminated_process)) v.counts.cpu;
            io = tt;
            wakes_up = tt;
          })
          _
          (Changes-Progress acc (settled before) v.inv r lt (settled after) p'
            (settled-Writes r p' before after (put-Writes r p' s t q))
            (parts-Changes r before after (λ x ne. rw q.ready_queue (ground arith))
              (λ x ne. rw q.wait_queue (ground arith))
              (rw (q.ready_queue, q.wait_queue) (omega (arith, q.terminated_process))))
            (inl (
              rw q.ready_queue (ground (arith, occurs-ready before r, occurs-ready after r)),
              rw q.wait_queue (ground (arith, occurs-wait before r, occurs-wait after r)),
              rw q.quantum (after_io-IsReady acc s.quantum p a burst found),
            ))
            p e
            (record {
              less = after_io-work acc s.quantum p a burst goes;
              pid = refl;
              process_d = refl;
            }))
          (omega arith)

module _ (ops : ThreadOps) (r : Ref) (s : State) (p : Process) (e : s.store r ≡ some p) where
  io_step-terminate :
      should_terminate p ≡ true → io_step ops (holding r) s ≡ ok (testing, terminate r p s)
  unfolding io_step hold_io
  io_step-terminate over = rw (e, over)

  io_step-after_io :
      (burst : ℤ)
      → should_terminate p ≡ false
      → p.status ≡ sleep
      → get_elem? p.process_d.io_burst p.io_index ≡ some burst
      → io_step ops (holding r) s
        ≡ ok (putting r, put r (after_io p burst) (update_global_counter burst s))
  unfolding io_step hold_io
  io_step-after_io burst goes asleep found = ground arith

pub io_holding :
    (acc : Accounting) (ops : ThreadOps) (s : State) (cpu : Point) (r : Ref)
    → Balanced acc (at_io s cpu (holding r))
    → IoMoves acc ops s cpu (holding r)
io_holding acc ops s cpu r v =
    let x = at_io s cpu (holding r) in
    let place = wait_place acc (settled x) v.inv r (ground (arith, occurs-wait x r)) in
    let (p, e, a) = place.3 in
    elim (Bool-cases (should_terminate p)) [
      | inl over ↦ (
        (testing, terminate r p s),
        io_step-terminate ops r s p e over,
        io_terminates acc s cpu r p v e a over,
      )
      | inr goes ↦
          let (burst, found) =
            get_elem?-lt p.process_d.io_burst p.io_index
              (io_index-lt p a.accounts.well_formed a.indices goes) in
          (
            (putting r, put r (after_io p burst) (update_global_counter burst s)),
            io_step-after_io ops r s p e burst goes a.status found,
            io_wakes acc s cpu r p v e a burst goes found,
          )
    ]
