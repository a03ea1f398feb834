-- ===== src/Interleaved/Cpu/Head.antt =====
-- The head of the loop of the scheduler thread: the tests, `sem_trywait` and `remove_from_readyQueue`.
use cpu_schedular.Base.{
  suc, ◌≤◌, ◌≡◌, refl, some, [], ◌∷◌, length, arith, true, false, inl, inr, leb, tests, Bool-cases,
  ◌==◌,
}
use cpu_schedular.Interleaved.{
  Point, testing, testing_done, trying, popping, left, holding, try_ready, pop_ready, cpu_step,
}
use cpu_schedular.Interleaved.Invariant.{Balanced, over, up, busy, Idle, Same-Moves, Idle-Moves}
use cpu_schedular.Interleaved.Settled.{queues-Leaves, parts-Same, Same-refl}
use cpu_schedular.Queue.{Item, Queue}
use cpu_schedular.Queue.{dequeue}
use cpu_schedular.Interleaved.Policy.{StepPolicy}
use cpu_schedular.Threads.{State, all_processes_done}
use cpu_schedular.Interleaved.Cpu.{at_cpu, CpuMoves}

done_over : (s : State) → all_processes_done s ≡ true → s.total_process ≤ s.terminated_process
unfolding all_processes_done
done_over s e = ground arith

pop_ready-front :
    (s : State) (x : Item) (q : Queue)
    → s.ready_queue ≡ x ∷ q
    → pop_ready s ≡ record s { ready_queue = q; running_pd = some x.task }
unfolding pop_ready
pop_ready-front s x q e = rw (e, dequeue)

-- The tests bring the thread on.
module _ (s : State) where
  to_done :
      leb s.total_process s.terminated_process ≡ false → Idle s s.ready_count testing testing_done
  to_done more over drives lt = absurd (omega tests)
  to_done more up drives lt = omega arith
  to_done more busy drives lt = absurd (omega arith)

  to_trying : Idle s s.ready_count testing_done trying
  to_trying over drives lt = omega arith
  to_trying up drives lt = omega arith
  to_trying busy drives lt = absurd (omega arith)

  to_testing : (s.ready_count == 0) ≡ true → Idle s s.ready_count trying testing
  to_testing down over drives lt = omega arith
  to_testing down up drives lt = absurd (ground arith)
  to_testing down busy drives lt = absurd (omega arith)

module _ (pol : StepPolicy) (s : State) (io : Point) where
  pub cpu_testing : Balanced pol.acc (at_cpu s testing io) → CpuMoves pol s testing io
  unfolding cpu_step
  cpu_testing v = elim (Bool-cases (leb s.total_process s.terminated_process)) [
    | inl end ↦ (
      (left, s),
      rw end,
      Same-Moves pol.acc (at_cpu s testing io) (at_cpu s left io) v
          (record {
            ready = v.counts.ready;
            wait = v.counts.wait;
            cpu = omega tests;
            io = v.counts.io;
            wakes_up = v.counts.wakes_up;
          })
          _ (Same-refl (at_cpu s testing io)) (omega arith),
    )
    | inr more ↦ (
      (testing_done, s),
      rw more,
      Idle-Moves pol.acc (at_cpu s testing io) (at_cpu s testing_done io) v
          (record {
            ready = v.counts.ready;
            wait = v.counts.wait;
            cpu = tt;
            io = v.counts.io;
            wakes_up = v.counts.wakes_up;
          })
          _ refl (omega arith) refl (to_done s more),
    )
  ]

  pub cpu_testing_done :
      Balanced pol.acc (at_cpu s testing_done io) → CpuMoves pol s testing_done io
  unfolding cpu_step
  cpu_testing_done v = elim (Bool-cases (all_processes_done s)) [
    | inl done ↦ (
      (left, s),
      rw done,
      Same-Moves pol.acc (at_cpu s testing_done io) (at_cpu s left io) v
          (record {
            ready = v.counts.ready;
            wait = v.counts.wait;
            cpu = done_over s done;
            io = v.counts.io;
            wakes_up = v.counts.wakes_up;
          })
          _ (Same-refl (at_cpu s testing_done io)) (omega arith),
    )
    | inr more ↦ (
      (trying, s),
      rw more,
      Idle-Moves pol.acc (at_cpu s testing_done io) (at_cpu s trying io) v
          (record {
            ready = v.counts.ready;
            wait = v.counts.wait;
            cpu = tt;
            io = v.counts.io;
            wakes_up = v.counts.wakes_up;
          })
          _ refl (omega arith) refl (to_trying s),
    )
  ]

  pub cpu_trying : Balanced pol.acc (at_cpu s trying io) → CpuMoves pol s trying io
  unfolding cpu_step try_ready
  cpu_trying v = elim (Bool-cases (s.ready_count == 0)) [
    | inl down ↦ (
      (testing, s),
      rw down,
      Idle-Moves pol.acc (at_cpu s trying io) (at_cpu s testing io) v
          (record {
            ready = v.counts.ready;
            wait = v.counts.wait;
            cpu = tt;
            io = v.counts.io;
            wakes_up = v.counts.wakes_up;
          })
          _ refl (omega arith) refl (to_testing s down),
    )
    | inr some_up ↦ (
      (popping, try_ready s),
      rw some_up,
      Same-Moves pol.acc (at_cpu s trying io) (at_cpu (try_ready s) popping io) v
          (record {
            ready = ground (arith, v.counts.ready);
            wait = v.counts.wait;
            cpu = tt;
            io = v.counts.io;
            wakes_up = v.counts.wakes_up;
          })
          _
          (parts-Same (at_cpu s trying io) (at_cpu (try_ready s) popping io)
            (queues-Leaves s _ _ _ _ _ _) (λ r. refl) (λ r. refl) refl refl)
          (omega arith),
    )
  ]

  cpu_popping_at :
      (q : Queue)
      → s.ready_queue ≡ q
      → Balanced pol.acc (at_cpu s popping io)
      → CpuMoves pol s popping io
  unfolding cpu_step
  cpu_popping_at [] e v =
      let n : length s.ready_queue ≡ 0 = rw e in absurd (omega (arith, n, v.counts.ready))
  cpu_popping_at (x ∷ q) e v =
      let n : length s.ready_queue ≡ suc (length q) = rw e in
      let t = record s { ready_queue = q; running_pd = some x.task } in
      (
        (holding x.task, t),
        rw (pop_ready-front s x q e),
        Same-Moves pol.acc (at_cpu s popping io) (at_cpu t (holding x.task) io) v
            (record {
              ready = omega (arith, n, v.counts.ready);
              wait = v.counts.wait;
              cpu = tt;
              io = v.counts.io;
              wakes_up = v.counts.wakes_up;
            })
            _
            (parts-Same (at_cpu s popping io) (at_cpu t (holding x.task) io)
              (queues-Leaves s _ _ _ _ _ _) (λ r. rw e (omega arith)) (λ r. refl)
              (rw e (omega arith)) refl)
            (omega arith),
      )

  pub cpu_popping : Balanced pol.acc (at_cpu s popping io) → CpuMoves pol s popping io
  cpu_popping = cpu_popping_at s.ready_queue refl
