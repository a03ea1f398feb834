-- ===== src/Interleaved/Io/Head.antt =====
-- The steps of the wake-up thread that do no work on a process.
use cpu_schedular.Base.{
  suc, ◌≡◌, refl, some, [], ◌∷◌, length, arith, true, false, inl, inr, leb, tests, Bool-cases, ◌==◌,
}
use cpu_schedular.Interleaved.{
  Point, testing, trying, popping, left, holding, putting, posting, try_wait, pop_wait, io_step,
}
use cpu_schedular.Interleaved.Invariant.{Balanced, over, up, busy, Idle, Same-Moves, Idle-Moves}
use cpu_schedular.Interleaved.Io.{at_io, IoMoves}
use cpu_schedular.Interleaved.Settled.{queues-Leaves, parts-Same, Same-refl, occurs-ready}
use cpu_schedular.Interleaved.Settled.Places.{ready_place}
use cpu_schedular.Interleaved.Settled.{settled}
use cpu_schedular.Queue.{Ref, Item, Queue, dequeue}
use cpu_schedular.Sched.{ThreadOps, add_to_ready_queue}
use cpu_schedular.Sched.Lifecycle.{Accounting}
use cpu_schedular.Threads.{State, post_ready}

pop_wait-front :
    (s : State) (x : Item) (q : Queue)
    → s.wait_queue ≡ x ∷ q
    → pop_wait s ≡ record s { wait_queue = q; sleeping_pd = some x.task }
unfolding pop_wait
pop_wait-front s x q e = rw (e, dequeue)

-- The tests bring the thread on.
module _ (s : State) where
  to_trying : leb s.total_process s.terminated_process ≡ false → Idle s s.wait_count testing trying
  to_trying more over drives lt = absurd (omega tests)
  to_trying more up drives lt = omega arith
  to_trying more busy drives lt = absurd (omega arith)

  to_testing : (s.wait_count == 0) ≡ true → Idle s s.wait_count trying testing
  to_testing down over drives lt = omega arith
  to_testing down up drives lt = absurd (ground arith)
  to_testing down busy drives lt = absurd (omega arith)

module _ (acc : Accounting) (ops : ThreadOps) (s : State) (cpu : Point) where
  pub io_testing : Balanced acc (at_io s cpu testing) → IoMoves acc ops s cpu testing
  unfolding io_step
  io_testing v = elim (Bool-cases (leb s.total_process s.terminated_process)) [
    | inl end ↦ (
      (left, s),
      rw end,
      Same-Moves acc (at_io s cpu testing) (at_io s cpu left) v
          (record {
            ready = v.counts.ready;
            wait = v.counts.wait;
            cpu = v.counts.cpu;
            io = omega tests;
            wakes_up = tt;
          })
          _ (Same-refl (at_io s cpu testing)) (omega arith),
    )
    | inr more ↦ (
      (trying, s),
      rw more,
      Idle-Moves acc (at_io s cpu testing) (at_io s cpu trying) v
          (record {
            ready = v.counts.ready;
            wait = v.counts.wait;
            cpu = v.counts.cpu;
            io = tt;
            wakes_up = tt;
          })
          _ refl (omega arith) refl (to_trying s more),
    )
  ]

  pub io_trying : Balanced acc (at_io s cpu trying) → IoMoves acc ops s cpu trying
  unfolding io_step try_wait
  io_trying v = elim (Bool-cases (s.wait_count == 0)) [
    | inl down ↦ (
      (testing, s),
      rw down,
      Idle-Moves acc (at_io s cpu trying) (at_io s cpu testing) v
          (record {
            ready = v.counts.ready;
            wait = v.counts.wait;
            cpu = v.counts.cpu;
            io = tt;
            wakes_up = tt;
          })
          _ refl (omega arith) refl (to_testing s down),
    )
    | inr some_up ↦ (
      (popping, try_wait s),
      rw some_up,
      Same-Moves acc (at_io s cpu trying) (at_io (try_wait s) cpu popping) v
          (record {
            ready = v.counts.ready;
            wait = ground (arith, v.counts.wait);
            cpu = v.counts.cpu;
            io = tt;
            wakes_up = tt;
          })
          _
          (parts-Same (at_io s cpu trying) (at_io (try_wait s) cpu popping)
            (queues-Leaves s _ _ _ _ _ _) (λ r. refl) (λ r. refl) refl refl)
          (omega arith),
    )
  ]

  io_popping_at :
      (q : Queue)
      → s.wait_queue ≡ q
      → Balanced acc (at_io s cpu popping)
      → IoMoves acc ops s cpu popping
  unfolding io_step
  io_popping_at [] e v =
      let n : length s.wait_queue ≡ 0 = rw e in absurd (omega (arith, n, v.counts.wait))
  io_popping_at (x ∷ q) e v =
      let n : length s.wait_queue ≡ suc (length q) = rw e in
      let t = record s { wait_queue = q; sleeping_pd = some x.task } in
      (
        (holding x.task, t),
        rw (pop_wait-front s x q e),
        Same-Moves acc (at_io s cpu popping) (at_io t cpu (holding x.task)) v
            (record {
              ready = v.counts.ready;
              wait = omega (arith, n, v.counts.wait);
              cpu = v.counts.cpu;
              io = tt;
              wakes_up = tt;
            })
            _
            (parts-Same (at_io s cpu popping) (at_io t cpu (holding x.task))
              (queues-Leaves s _ _ _ _ _ _) (λ r. refl) (λ r. rw e (omega arith)) refl
              (rw e (omega arith)))
            (omega arith),
      )

  pub io_popping : Balanced acc (at_io s cpu popping) → IoMoves acc ops s cpu popping
  io_popping = io_popping_at s.wait_queue refl

  pub io_putting :
      (r : Ref) → Balanced acc (at_io s cpu (putting r)) → IoMoves acc ops s cpu (putting r)
  unfolding io_step add_to_ready_queue
  io_putting r v =
      let x = at_io s cpu (putting r) in
      let (lt, a, b, (p, stored, is)) =
        ready_place acc (settled x) v.inv r (ground (arith, occurs-ready x r)) in
      let t = add_to_ready_queue ops r p s in
      let longer = ops.length-insert r p s.ready_queue in
      (
        (posting r, t),
        rw stored,
        Same-Moves acc x (at_io t cpu (posting r)) v
            (record {
              ready = omega (arith, longer, v.counts.ready);
              wait = v.counts.wait;
              cpu = v.counts.cpu;
              io = lt;
              wakes_up = tt;
            })
            _
            (parts-Same x (at_io t cpu (posting r)) (queues-Leaves s _ _ _ _ _ _)
              (λ q. omega (arith, ops.occurs-insert q r p s.ready_queue)) (λ q. refl)
              (omega (arith, longer)) refl)
            (omega arith),
      )

  pub io_posting :
      (r : Ref) → Balanced acc (at_io s cpu (posting r)) → IoMoves acc ops s cpu (posting r)
  unfolding io_step post_ready
  io_posting r v = (
    (testing, post_ready s),
    refl,
    Same-Moves acc (at_io s cpu (posting r)) (at_io (post_ready s) cpu testing) v
        (record {
          ready = omega (arith, v.counts.ready);
          wait = v.counts.wait;
          cpu = v.counts.cpu;
          io = tt;
          wakes_up = tt;
        })
        _
        (parts-Same (at_io s cpu (posting r)) (at_io (post_ready s) cpu testing)
          (queues-Leaves s _ _ _ _ _ _) (λ q. refl) (λ q. refl) refl refl)
        (omega arith),
  )

  pub io_left : Balanced acc (at_io s cpu left) → IoMoves acc ops s cpu left
  unfolding io_step
  io_left v = (
    (left, s),
    refl,
    Idle-Moves acc (at_io s cpu left) (at_io s cpu left) v v.counts _ refl (omega arith) refl
        (λ why drives lt. absurd (omega arith)),
  )
