-- ===== src/Interleaved/Invariant.antt =====
-- The invariant of the two threads between any two of their steps, and what every step is to do.
use cpu_schedular.Base.{ℕ, ◌+◌, ◌*◌, ◌≤◌, ◌<◌, ◌≡◌, ◌⊎◌, inl, inr, ap, length, arith}
use cpu_schedular.Interleaved.{
  Point, testing, testing_done, trying, popping, left, holding, putting, posting, finishing, System,
}
use cpu_schedular.Interleaved.Settled.{settled, Same}
use cpu_schedular.Interleaved.Settled.Places.{Same-Round}
use cpu_schedular.Sched.Invariant.{Inv}
use cpu_schedular.Sched.Lifecycle.{Accounting}
use cpu_schedular.Sched.Progress.{Round, Round-refl, Progress}
use cpu_schedular.Sched.Work.{state_work}
use cpu_schedular.Threads.{State}

-- A thread that has taken one off a semaphore and nothing out of the queue.
abbrev pub claims : Point → ℕ
claims popping = 1
claims _ = 0

-- A thread that has put a process into a queue and not posted the semaphore.
abbrev pub owes : Point → ℕ
owes (posting r) = 1
owes _ = 0

-- What must hold at the last points of a loop: the process has been created, and a thread that has
-- left its loop has seen all processes terminated.
abbrev pub EndsWell : State → Point → Type 0
EndsWell s (finishing r status) = r < s.t_process
EndsWell s (posting r) = r < s.t_process
EndsWell s left = s.total_process ≤ s.terminated_process
EndsWell s _ = Unit {0}

-- The wake-up thread has one test at the head of its loop, and no code at `final`.
abbrev pub IsWakeUp : Point → Type 0
IsWakeUp testing_done = ⊥
IsWakeUp (finishing r status) = ⊥
IsWakeUp _ = Unit {0}

-- Each semaphore falls short of its queue by what the one thread has claimed, and by what the other
-- owes.
pub record Counts (x : System) : Type 0 where
  pub ready : x.shared.ready_count + claims x.cpu + owes x.io ≡ length x.shared.ready_queue
  pub wait : x.shared.wait_count + claims x.io + owes x.cpu ≡ length x.shared.wait_queue
  pub cpu : EndsWell x.shared x.cpu
  pub io : EndsWell x.shared x.io
  pub wakes_up : IsWakeUp x.io

-- With each process counted where it belongs, the invariant of the rounds holds.
pub record Balanced (acc : Accounting) (x : System) : Type 0 where
  pub inv : Inv acc (settled x)
  pub counts : Counts x

pub EndsWell-mono :
    (s t : State) (at : Point)
    → t.t_process ≡ s.t_process
    → t.total_process ≡ s.total_process
    → s.terminated_process ≤ t.terminated_process
    → EndsWell s at
    → EndsWell t at
EndsWell-mono s t (finishing r status) n total le h = rw n h
EndsWell-mono s t (posting r) n total le h = rw n h
EndsWell-mono s t left n total le h = omega (arith, n, total)
EndsWell-mono s t _ n total le h = tt

-- How far a thread is from the head of its loop, such that every step but an idle one comes closer
-- to it, or takes work from the whole.
abbrev pub distance : Point → ℕ
distance testing = 8
distance testing_done = 8
distance trying = 8
distance popping = 7
distance (holding r) = 6
distance (putting r) = 11
distance (posting r) = 10
distance (finishing r status) = 9
distance left = 0

abbrev pub potential : System → ℕ
potential x = 12 * state_work (settled x) + distance x.cpu + distance x.io

-- Why a thread does not turn round for ever: all processes have terminated, or its semaphore is up,
-- or it has one off the semaphore.
pub data Reason : Type 0 where
  over up busy : Reason

abbrev pub Drives : Reason → State → ℕ → Type 0
Drives over s count = s.total_process ≤ s.terminated_process
Drives up s count = 0 < count
Drives busy s count = Unit {0}

-- After how many steps of its own it makes one that is not idle; 0 where the reason does not apply.
abbrev pub due : Reason → Point → ℕ
due why left = 0
due over testing = 1
due over testing_done = 3
due over trying = 2
due over _ = 1
due up testing = 3
due up testing_done = 2
due up trying = 1
due up _ = 1
due busy testing = 0
due busy testing_done = 0
due busy trying = 0
due busy _ = 1

-- A test at the head of the loop that brings the thread on to the next one.
abbrev pub Idle : State → ℕ → Point → Point → Type 0
Idle s count at at' =
    (why : Reason)
    → Drives why s count
    → 0 < due why at
    → (0 < due why at') × (due why at' < due why at)

-- A step from `x` to `y` keeps the invariant and all that `Round` says. It comes closer to the end,
-- or `idle` holds.
abbrev pub Moves : Accounting → System → System → Type 0 → Type 0
Moves acc x y idle =
    Balanced acc y
    × Round acc (settled x) (settled y)
    × (potential y ≤ potential x)
    × ((potential y < potential x) ⊎ ((y.shared ≡ x.shared) × idle))

module _ (acc : Accounting) (x y : System) (v : Balanced acc x) (c : Counts y) (idle : Type 0) where
  -- A step that only moves a process on its way.
  pub Round-Moves :
      Round acc (settled x) (settled y)
      → distance y.cpu + distance y.io < distance x.cpu + distance x.io
      → Moves acc x y idle
  Round-Moves round less =
      let work = round.work in
      (
        record { inv = round.inv; counts = c },
        round,
        omega (arith, work),
        inl (omega (arith, work)),
      )

  pub Same-Moves :
      Same (settled x) (settled y)
      → distance y.cpu + distance y.io < distance x.cpu + distance x.io
      → Moves acc x y idle
  Same-Moves same less = Round-Moves (Same-Round acc (settled x) v.inv (settled y) same) less

  -- A step that works on a process.
  pub Progress-Moves :
      Progress acc (settled x) (settled y)
      → distance y.cpu + distance y.io ≤ distance x.cpu + distance x.io + 5
      → Moves acc x y idle
  Progress-Moves (round, work) le = (
    record { inv = round.inv; counts = c },
    round,
    omega (arith, work),
    inl (omega (arith, work)),
  )

  -- A test that changes nothing.
  pub Idle-Moves :
      settled y ≡ settled x
      → distance y.cpu + distance y.io ≤ distance x.cpu + distance x.io
      → y.shared ≡ x.shared
      → idle
      → Moves acc x y idle
  Idle-Moves same near shared i =
      let work : state_work (settled y) ≡ state_work (settled x) = ap state_work same in
      (
        record { inv = rw same v.inv; counts = c },
        rw same (Round-refl acc (settled x) v.inv),
        omega (arith, work),
        inr (shared, i),
      )
