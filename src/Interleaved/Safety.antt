-- ===== src/Interleaved/Safety.antt =====
-- Whatever the order of the steps of the two threads, none of them fails, and every process stays in
-- one place.
use cpu_schedular.Base.{◌≤◌, ◌≡◌, refl, Returns, List, [], ◌∷◌, arith}
use cpu_schedular.Interleaved.Policy.{StepPolicy}
use cpu_schedular.Interleaved.{
  Point, testing, testing_done, trying, popping, left, holding, putting, posting, finishing, System,
  step, steps,
}
use cpu_schedular.Interleaved.Cpu.{at_cpu, CpuMoves}
use cpu_schedular.Interleaved.Cpu.Head.{cpu_testing, cpu_testing_done, cpu_trying, cpu_popping}
use cpu_schedular.Interleaved.Cpu.Tail.{cpu_putting, cpu_posting, cpu_finishing, cpu_left}
use cpu_schedular.Interleaved.Cpu.Work.{cpu_holding}
use cpu_schedular.Interleaved.Invariant.{Balanced, Idle, Moves, potential}
use cpu_schedular.Interleaved.Io.{at_io, IoMoves}
use cpu_schedular.Interleaved.Io.Head.{
  io_testing, io_trying, io_popping, io_putting, io_posting, io_left,
}
use cpu_schedular.Interleaved.Io.Work.{io_holding}
use cpu_schedular.Interleaved.Settled.{settled}
use cpu_schedular.Sched.Invariant.{Inv}
use cpu_schedular.Sched.Lifecycle.{Accounting}
use cpu_schedular.Sched.Progress.{Round, Round-refl, Round-trans}
use cpu_schedular.Simulation.{Turn, scheduler, wakeup}
use cpu_schedular.Threads.{State}

-- The two threads at the heads of their loops.
abbrev pub started : State → System
started s = record { shared = s; cpu = testing; io = testing }

pub started-Balanced : (acc : Accounting) (s : State) → Inv acc s → Balanced acc (started s)
started-Balanced acc s v = record {
  inv = record {
    placed = v.placed;
    absent = v.absent;
    counted = v.counted;
    ready_count = refl;
    wait_count = refl;
  };
  counts = record {
    ready = omega (arith, v.ready_count);
    wait = omega (arith, v.wait_count);
    cpu = tt;
    io = tt;
    wakes_up = tt;
  };
}

-- What a step of either thread does: the other thread stays at its point.
abbrev pub StepMoves : Accounting → Turn → System → System → Type 0
StepMoves acc scheduler x y =
    (y.io ≡ x.io) × Moves acc x y (Idle x.shared x.shared.ready_count x.cpu y.cpu)
StepMoves acc wakeup x y =
    (y.cpu ≡ x.cpu) × Moves acc x y (Idle x.shared x.shared.wait_count x.io y.io)

-- Each step, and so any number of them, keeps the invariant and comes no farther from the end.
abbrev pub Keeps : Accounting → System → System → Type 0
Keeps acc x y = Balanced acc y × Round acc (settled x) (settled y) × (potential y ≤ potential x)

pub Keeps-trans :
    (acc : Accounting) (x y z : System) → Keeps acc x y → Keeps acc y z → Keeps acc x z
Keeps-trans acc x y z (_, round, le) (v, rounds, le') =
    (v, Round-trans acc (settled x) (settled y) (settled z) round rounds, omega (arith, le, le'))

pub StepMoves-Keeps :
    (acc : Accounting) (t : Turn) (x y : System) → StepMoves acc t x y → Keeps acc x y
StepMoves-Keeps acc scheduler x y (_, (v, round, le, _)) = (v, round, le)
StepMoves-Keeps acc wakeup x y (_, (v, round, le, _)) = (v, round, le)

module _ (pol : StepPolicy) where
  cpu_moves :
      (at : Point) (s : State) (io : Point)
      → Balanced pol.acc (at_cpu s at io)
      → CpuMoves pol s at io
  cpu_moves testing s io v = cpu_testing pol s io v
  cpu_moves testing_done s io v = cpu_testing_done pol s io v
  cpu_moves trying s io v = cpu_trying pol s io v
  cpu_moves popping s io v = cpu_popping pol s io v
  cpu_moves (holding r) s io v = cpu_holding pol s io r v
  cpu_moves (putting r) s io v = cpu_putting pol s io r v
  cpu_moves (posting r) s io v = cpu_posting pol s io r v
  cpu_moves (finishing r status) s io v = cpu_finishing pol s io r status v
  cpu_moves left s io v = cpu_left pol s io v

  io_moves :
      (at : Point) (s : State) (cpu : Point)
      → Balanced pol.acc (at_io s cpu at)
      → IoMoves pol.acc pol.ops s cpu at
  io_moves testing s cpu v = io_testing pol.acc pol.ops s cpu v
  io_moves testing_done s cpu v = absurd v.counts.wakes_up
  io_moves trying s cpu v = io_trying pol.acc pol.ops s cpu v
  io_moves popping s cpu v = io_popping pol.acc pol.ops s cpu v
  io_moves (holding r) s cpu v = io_holding pol.acc pol.ops s cpu r v
  io_moves (putting r) s cpu v = io_putting pol.acc pol.ops s cpu r v
  io_moves (posting r) s cpu v = io_posting pol.acc pol.ops s cpu r v
  io_moves (finishing r status) s cpu v = absurd v.counts.wakes_up
  io_moves left s cpu v = io_left pol.acc pol.ops s cpu v

  -- Every step returns, and moves the whole on.
  pub step-Moves :
      (t : Turn) (x : System)
      → Balanced pol.acc x
      → Returns (StepMoves pol.acc t x) (step pol.ops pol.hold t x)
  unfolding step
  step-Moves scheduler x v =
      let ((at, s), is, moves) = cpu_moves x.cpu x.shared x.io v in
      (at_cpu s at x.io, rw is, (refl, moves))
  step-Moves wakeup x v =
      let ((at, s), is, moves) = io_moves x.io x.shared x.cpu v in
      (at_io s x.cpu at, rw is, (refl, moves))

  pub steps-Keeps :
      (ts : List Turn) (x : System)
      → Balanced pol.acc x
      → Returns (Keeps pol.acc x) (steps pol.ops pol.hold ts x)
  unfolding steps
  steps-Keeps [] x v = (x, refl, (v, Round-refl pol.acc (settled x) v.inv, omega arith))
  steps-Keeps (t ∷ ts) x v =
      let (y, is, moves) = step-Moves t x v in
      let keeps = StepMoves-Keeps pol.acc t x y moves in
      let (z, are, rest) = steps-Keeps ts y keeps.0 in
      (z, rw is are, Keeps-trans pol.acc x y z keeps rest)
