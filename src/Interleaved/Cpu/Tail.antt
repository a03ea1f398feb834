-- ===== src/Interleaved/Cpu/Tail.antt =====
-- The way of a process that the scheduler thread has worked on: to the wait queue, `sem_post`, and
-- the code at the label `final`.
use cpu_schedular.Base.{refl, arith}
use cpu_schedular.Interleaved.{Point, testing, left, putting, posting, finishing, cpu_step}
use cpu_schedular.Interleaved.Invariant.{
  Balanced, EndsWell-mono, Same-Moves, Round-Moves, Idle-Moves,
}
use cpu_schedular.Interleaved.Settled.{settled, queues-Leaves, parts-Same, occurs-wait}
use cpu_schedular.Interleaved.Settled.Places.{wait_place}
use cpu_schedular.Sched.Final.{final-Finishes, finished-Round}
use cpu_schedular.Sched.{final, add_to_wait_queue}
use cpu_schedular.Process.{Status, sleep}
use cpu_schedular.Queue.{Ref}
use cpu_schedular.Interleaved.Policy.{StepPolicy}
use cpu_schedular.Threads.{State, post_wait}
use cpu_schedular.Interleaved.Cpu.{at_cpu, CpuMoves}

module _ (pol : StepPolicy) (s : State) (io : Point) where
  pub cpu_putting :
      (r : Ref) → Balanced pol.acc (at_cpu s (putting r) io) → CpuMoves pol s (putting r) io
  unfolding cpu_step add_to_wait_queue
  cpu_putting r v =
      let x = at_cpu s (putting r) io in
      let here = occurs-wait x r in
      let (lt, a, b, (p, stored, is)) =
        wait_place pol.acc (settled x) v.inv r (ground (arith, here)) in
      let t = add_to_wait_queue pol.ops r p s in
      let longer = pol.ops.length-insert r p s.wait_queue in
      (
        (posting r, t),
        rw stored,
        Same-Moves pol.acc x (at_cpu t (posting r) io) v
            (record {
              ready = v.counts.ready;
              wait = omega (arith, longer, v.counts.wait);
              cpu = lt;
              io = v.counts.io;
              wakes_up = v.counts.wakes_up;
            })
            _
            (parts-Same x (at_cpu t (posting r) io) (queues-Leaves s _ _ _ _ _ _) (λ q. refl)
              (λ q. omega (arith, pol.ops.occurs-insert q r p s.wait_queue)) refl
              (omega (arith, longer)))
            (omega arith),
      )

  pub cpu_posting :
      (r : Ref) → Balanced pol.acc (at_cpu s (posting r) io) → CpuMoves pol s (posting r) io
  unfolding cpu_step post_wait
  cpu_posting r v = (
    (finishing r sleep, post_wait s),
    refl,
    Same-Moves pol.acc (at_cpu s (posting r) io) (at_cpu (post_wait s) (finishing r sleep) io) v
        (record {
          ready = v.counts.ready;
          wait = omega (arith, v.counts.wait);
          cpu = v.counts.cpu;
          io = v.counts.io;
          wakes_up = v.counts.wakes_up;
        })
        _
        (parts-Same (at_cpu s (posting r) io) (at_cpu (post_wait s) (finishing r sleep) io)
          (queues-Leaves s _ _ _ _ _ _) (λ q. refl) (λ q. refl) refl refl)
        (omega arith),
  )

  pub cpu_finishing :
      (r : Ref) (status : Status)
      → Balanced pol.acc (at_cpu s (finishing r status) io)
      → CpuMoves pol s (finishing r status) io
  unfolding cpu_step
  cpu_finishing r status v =
      let x = at_cpu s (finishing r status) io in
      let (p, stored, place) = v.inv.placed r v.counts.cpu in
      let (w, f) = final-Finishes r p status s in
      let t = final r p status s in
      (
        (testing, t),
        rw stored,
        Round-Moves pol.acc x (at_cpu t testing io) v
            (record {
              ready = rw (f.ready_count, f.ready_queue) v.counts.ready;
              wait = rw (f.wait_count, f.wait_queue) v.counts.wait;
              cpu = tt;
              io =
                  EndsWell-mono s t io f.t_process f.total_process
                    (omega (arith, f.terminated_process)) v.counts.io;
              wakes_up = v.counts.wakes_up;
            })
            _
            (finished-Round pol.acc r p (settled x) (settled (at_cpu t testing io)) w
              (record {
                store = f.store;
                ready_queue = rw f.ready_queue;
                wait_queue = rw f.wait_queue;
                task_list = f.task_list;
                t_process = f.t_process;
                total_process = f.total_process;
                terminated_process = f.terminated_process;
                ready_count = rw f.ready_queue;
                wait_count = rw f.wait_queue;
                quantum = f.quantum;
              })
              stored v.inv)
            (omega arith),
      )

  pub cpu_left : Balanced pol.acc (at_cpu s left io) → CpuMoves pol s left io
  unfolding cpu_step
  cpu_left v = (
    (left, s),
    refl,
    Idle-Moves pol.acc (at_cpu s left io) (at_cpu s left io) v v.counts _ refl (omega arith) refl
        (λ why drives lt. absurd (omega arith)),
  )
