-- ===== src/Interleaved/Places.antt =====
-- Where a process can be while the two threads take their steps in any order.
use cpu_schedular.Base.{
  ℕ, ◌+◌, ◌≤◌, ◌≡◌, ◌≢◌, List, [], Returns, length, arith, inl, inr, ltb, tests, Bool-cases, ◌==◌,
  ap, if◌then◌else◌,
}
use cpu_schedular.Interleaved.Policy.{StepPolicy}
use cpu_schedular.Interleaved.{Point, popping, left, holding, putting, System, steps}
use cpu_schedular.Interleaved.Invariant.{Balanced, EndsWell, claims}
use cpu_schedular.Interleaved.Safety.{started, started-Balanced, steps-Keeps}
use cpu_schedular.Interleaved.Settled.{
  settled, taken, worked, occurs-ready, occurs-wait, length-ready, length-wait,
}
use cpu_schedular.Queue.{Ref, Queue}
use cpu_schedular.Queue.Laws.{occurs}
use cpu_schedular.Sched.Invariant.{Inv}
use cpu_schedular.Simulation.{Turn}
use cpu_schedular.Sched.Lifecycle.{Accounting}
use cpu_schedular.Threads.{State}

-- How often a thread holds a process: from the time when it took it out of one queue to the time when
-- it has put it into the other.
abbrev holds : Ref → Point → ℕ
holds r (holding q) = if q == r then 1 else 0
holds r (putting q) = if q == r then 1 else 0
holds r _ = 0

abbrev carries : Point → ℕ
carries (holding q) = 1
carries (putting q) = 1
carries _ = 0

holds-occurs : (r : Ref) (at : Point) → holds r at ≡ occurs r (taken at) + occurs r (worked at)
holds-occurs r (holding q) = omega arith
holds-occurs r (putting q) = omega arith
holds-occurs r _ = omega arith

carries-length : (at : Point) → carries at ≡ length (taken at) + length (worked at)
carries-length (holding q) = omega arith
carries-length (putting q) = omega arith
carries-length _ = omega arith

-- Each process is in one queue, once, or in the hands of one thread, and not both; the processes in
-- the queues, in the hands of the threads and terminated are all there are. A thread that has one off
-- its semaphore finds a process in its queue. A thread that has left has seen all terminated.
pub record IsSafe (x : System) : Type 0 where
  one_place :
      (r : Ref)
      → holds r x.cpu + holds r x.io + occurs r x.shared.ready_queue + occurs r x.shared.wait_queue
        ≤ 1
  counted :
      x.shared.terminated_process
        + carries x.cpu
        + carries x.io
        + length x.shared.ready_queue
        + length x.shared.wait_queue
      ≡ x.shared.t_process
  cpu_finds : x.cpu ≡ popping → x.shared.ready_queue ≢ []
  io_finds : x.io ≡ popping → x.shared.wait_queue ≢ []
  cpu_over : x.cpu ≡ left → x.shared.total_process ≤ x.shared.terminated_process
  io_over : x.io ≡ left → x.shared.total_process ≤ x.shared.terminated_process

module _ (acc : Accounting) (x : System) (v : Balanced acc x) where
  once : (r : Ref) → occurs r (settled x).ready_queue + occurs r (settled x).wait_queue ≤ 1
  once r = elim (Bool-cases (ltb r x.shared.t_process)) [
    | inr e ↦ let (a, b) = v.inv.absent r (omega tests) in omega (arith, a, b)
    | inl e ↦
        let (p, stored, place) = v.inv.placed r (omega tests) in
        elim place [
          | inl (a, b, _) ↦ omega (arith, a, b)
          | inr (inl (a, b, _)) ↦ omega (arith, a, b)
          | inr (inr (a, b, _)) ↦ omega (arith, a, b)
        ]
  ]

  ends_well :
      (at : Point)
      → EndsWell x.shared at
      → at ≡ left
      → x.shared.total_process ≤ x.shared.terminated_process
  ends_well left h e = h
  ends_well _ h e = absurd cc

  finds : (q : Queue) (at : Point) → at ≡ popping → claims at ≤ length q → q ≢ []
  finds q at e le empty = omega (arith, ap claims e, ap length empty)

  Balanced-IsSafe : IsSafe x
  Balanced-IsSafe = record {
    one_place = λ r. omega (
      arith,
      once r,
      occurs-ready x r,
      occurs-wait x r,
      holds-occurs r x.cpu,
      holds-occurs r x.io,
    );
    counted = omega (
      arith,
      v.inv.counted,
      length-ready x,
      length-wait x,
      carries-length x.cpu,
      carries-length x.io,
    );
    cpu_finds = λ e. finds x.shared.ready_queue x.cpu e (omega (arith, v.counts.ready));
    io_finds = λ e. finds x.shared.wait_queue x.io e (omega (arith, v.counts.wait));
    cpu_over = ends_well x.cpu v.counts.cpu;
    io_over = ends_well x.io v.counts.io;
  }

-- From a state with the invariant of the rounds, and both threads at the heads of their loops, every
-- sequence of steps of the two threads returns without a fault, and at its end each process is in
-- one queue, once, or in the hands of one thread, or in neither; those and the terminated ones are
-- all the processes. A thread that has one off its semaphore finds a process in its queue, so that
-- the messages `BUG: No process in …` are never reached. A thread that has left its loop did so with
-- all processes terminated.
pub steps-IsSafe :
    (pol : StepPolicy) (ts : List Turn) (s : State)
    → Inv pol.acc s
    → Returns IsSafe (steps pol.ops pol.hold ts (started s))
steps-IsSafe pol ts s v =
    let (y, is, (b, _, _)) = steps-Keeps pol ts (started s) (started-Balanced pol.acc s v) in
    (y, is, Balanced-IsSafe pol.acc y b)
