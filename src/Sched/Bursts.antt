-- ===== src/Sched/Bursts.antt =====
-- What `_process_cpu` and `_process_io` do with a process, branch by branch: the test for its end,
-- the returned status, the queue that gets the process, and the one burst that its accounts get.
use cpu_schedular.Base.{
  ℕ, suc, ◌<◌, ◌≡◌, refl, ◌⊎◌, inl, inr, ℤ, ◌+ℤ◌, some, true, false, arith, get_elem?,
}
use cpu_schedular.Process.{Status, Process, sleep, ready, terminated}
use cpu_schedular.Queue.{Ref}
use cpu_schedular.Sched.{ThreadOps, should_terminate, terminated_process, terminate, final, to_wait}
use cpu_schedular.Sched.Bounds.{cpu_index-lt, io_index-lt}
use cpu_schedular.Sched.Cpu.{Quiet, terminate-Ends, to_wait-Sleeps, ready-IsDone}
use cpu_schedular.Sched.Final.{
  final-Finishes, Ends-finish, Sleeps-finish, timed-IsAsleep, timed-IsDone, stopped,
}
use cpu_schedular.Sched.Lifecycle.{
  Accounting, IsAsleep, IsDone, IsReady, Ends, Sleeps, Wakes, Outcome, work, ends, sleeps, wakes,
}
use cpu_schedular.Threads.{State}
use cpu_schedular.Time.{Timespec}

-- `p'` is `p` after one CPU burst of so much time.
pub record HadCpuBurst (time : ℤ) (p p' : Process) : Type 0 where
  pub cpu_index : p'.cpu_index ≡ suc p.cpu_index
  pub cpu_time : p'.cpu_time ≡ p.cpu_time +ℤ time
  pub io_index : p'.io_index ≡ p.io_index
  pub io_time : p'.io_time ≡ p.io_time
  pub process_time : p'.process_time ≡ p.process_time +ℤ time
  pub priority : p'.priority ≡ p.priority
  pub pid : p'.pid ≡ p.pid
  pub process_d : p'.process_d ≡ p.process_d

-- `p'` is `p` after one I/O burst of so much time.
pub record HadIoBurst (time : ℤ) (p p' : Process) : Type 0 where
  pub cpu_index : p'.cpu_index ≡ p.cpu_index
  pub cpu_time : p'.cpu_time ≡ p.cpu_time
  pub io_index : p'.io_index ≡ suc p.io_index
  pub io_time : p'.io_time ≡ p.io_time +ℤ time
  pub process_time : p'.process_time ≡ p.process_time +ℤ time
  pub priority : p'.priority ≡ p.priority
  pub pid : p'.pid ≡ p.pid
  pub process_d : p'.process_d ≡ p.process_d

-- `p'` is `p` with the same accounts.
pub record HadNoBurst (p p' : Process) : Type 0 where
  pub cpu_index : p'.cpu_index ≡ p.cpu_index
  pub cpu_time : p'.cpu_time ≡ p.cpu_time
  pub io_index : p'.io_index ≡ p.io_index
  pub io_time : p'.io_time ≡ p.io_time
  pub process_time : p'.process_time ≡ p.process_time
  pub priority : p'.priority ≡ p.priority
  pub pid : p'.pid ≡ p.pid
  pub process_d : p'.process_d ≡ p.process_d

-- The process is over: it is in neither queue, and has terminated with its accounts as they were.
abbrev pub EndsExactly : Accounting → Ref → Process → State → Status × State → Type 0
EndsExactly acc r p s (status, t) =
    (should_terminate p ≡ true)
    × (status ≡ terminated)
    × (p' : Process) × Ends r p' s t
    × IsDone acc s.quantum p'
    × HadNoBurst p p'

-- The process is over, or it goes to the wait queue with the CPU burst at its index in its
-- accounts, which counts for the time that `time_of` says.
abbrev pub CpuOutcome :
    Accounting → ThreadOps → (ℤ → ℤ) → Ref → Process → State → Status × State → Type 0
CpuOutcome acc ops time_of r p s (status, t) =
    EndsExactly acc r p s (status, t)
    ⊎ ((should_terminate p ≡ false)
        × (status ≡ sleep)
        × (burst : ℤ) × (p' : Process) × (get_elem? p.process_d.cpu_burst p.cpu_index ≡ some burst)
        × Sleeps ops r p' s t
        × IsAsleep acc s.quantum p'
        × HadCpuBurst (time_of burst) p p')

-- The process is over, or it goes to the ready queue with the I/O burst at its index in its
-- accounts.
abbrev pub IoOutcome : Accounting → ThreadOps → Ref → Process → State → Status × State → Type 0
IoOutcome acc ops r p s (status, t) =
    EndsExactly acc r p s (status, t)
    ⊎ ((should_terminate p ≡ false)
        × (status ≡ ready)
        × (burst : ℤ) × (p' : Process) × (get_elem? p.process_d.io_burst p.io_index ≡ some burst)
        × Wakes ops r p' s t
        × IsReady acc s.quantum p'
        × HadIoBurst burst p p')

-- The end of a process and its time stamp are none of the accounts.
pub ended-HadNoBurst :
    (p : Process) (w : Timespec) → HadNoBurst p (stopped (terminated_process p) w)
ended-HadNoBurst p w = record {
  cpu_index = refl;
  cpu_time = refl;
  io_index = refl;
  io_time = refl;
  process_time = refl;
  priority = refl;
  pid = refl;
  process_d = refl;
}

timed-HadCpuBurst :
    (time : ℤ) (p p' : Process) (w : Timespec)
    → HadCpuBurst time p p'
    → HadCpuBurst time p (stopped p' w)
timed-HadCpuBurst time p p' w h = record {
  cpu_index = h.cpu_index;
  cpu_time = h.cpu_time;
  io_index = h.io_index;
  io_time = h.io_time;
  process_time = h.process_time;
  priority = h.priority;
  pid = h.pid;
  process_d = h.process_d;
}

-- One more burst leaves less work.
module _ (acc : Accounting) (quantum : ℕ) (p p' : Process) where
  pub next_cpu-work :
      IsReady acc quantum p
      → should_terminate p ≡ false
      → p'.cpu_index ≡ suc p.cpu_index
      → p'.io_index ≡ p.io_index
      → p'.process_d ≡ p.process_d
      → work sleep p' < work p.status p
  next_cpu-work a goes ci ii d =
      let lt = cpu_index-lt p a.accounts.well_formed a.indices goes in
      let w = a.accounts.well_formed.cpu_size in
      elim a.status [
        | inl (e, _) ↦ rw (e, d, ci, ii) (omega (arith, lt, w, a.indices))
        | inr e ↦ rw (e, d, ci, ii) (omega (arith, lt, w, a.indices))
      ]

  pub next_io-work :
      {time : ℤ}
      → IsAsleep acc quantum p
      → should_terminate p ≡ false
      → HadIoBurst time p p'
      → work ready p' < work p.status p
  next_io-work a goes had =
      let lt = io_index-lt p a.accounts.well_formed a.indices goes in
      let w = a.accounts.well_formed in
      rw (a.status, had.process_d, had.cpu_index, had.io_index)
        (omega (arith, lt, a.indices, w.io_size, w.io_le_cpu))

-- The two ends of a `_process_cpu` that neither preempts nor is preempted.
module _ (acc : Accounting) (ops : ThreadOps) (time_of : ℤ → ℤ) (r : Ref) (p : Process)
    (s t : State) (q : Quiet s t) where
  pub terminate-CpuOutcome :
      IsReady acc s.quantum p
      → should_terminate p ≡ true
      → CpuOutcome acc ops time_of r p s
          (terminated, final r (terminated_process p) terminated (terminate r p t))
  terminate-CpuOutcome a over =
      let p' = terminated_process p in
      let (w, f) = final-Finishes r p' terminated (terminate r p t) in
      inl (
        over,
        refl,
        stopped p' w,
        Ends-finish f (terminate-Ends r p s t q),
        timed-IsDone acc s.quantum p' w (ready-IsDone acc s.quantum p a over),
        ended-HadNoBurst p w,
      )

  pub sleep-CpuOutcome :
      (burst : ℤ) (p' : Process)
      → should_terminate p ≡ false
      → get_elem? p.process_d.cpu_burst p.cpu_index ≡ some burst
      → IsAsleep acc s.quantum p'
      → HadCpuBurst (time_of burst) p p'
      → CpuOutcome acc ops time_of r p s (sleep, final r p' sleep (to_wait ops r p' t))
  sleep-CpuOutcome burst p' goes found a had =
      let (w, f) = final-Finishes r p' sleep (to_wait ops r p' t) in
      inr (
        goes,
        refl,
        burst,
        stopped p' w,
        found,
        Sleeps-finish f (to_wait-Sleeps r p' s t q ops),
        timed-IsAsleep acc s.quantum p' w a,
        timed-HadCpuBurst (time_of burst) p p' w had,
      )

-- Either way the process goes on with its work.
module _ (acc : Accounting) (ops : ThreadOps) (r : Ref) (p : Process) (s : State) where
  ends-Outcome :
      (v : Status × State)
      → 0 < work p.status p
      → EndsExactly acc r p s v
      → Outcome acc ops r p s v.1
  ends-Outcome (status, t) left (_, _, p', o, done, had) =
      ends p' o done
        (record { less = rw done.status left; pid = had.pid; process_d = had.process_d })

  pub CpuOutcome-Outcome :
      (time_of : ℤ → ℤ) (v : Status × State)
      → IsReady acc s.quantum p
      → CpuOutcome acc ops time_of r p s v
      → Outcome acc ops r p s v.1
  CpuOutcome-Outcome time_of v a (inl over) =
      ends-Outcome v
        (elim a.status [ inl (e, _) ↦ rw e (omega arith) | inr e ↦ rw e (omega arith) ]) over
  CpuOutcome-Outcome time_of (status, t) a (inr (goes, _, burst, p', found, o, asleep, had)) =
      sleeps p' o asleep (record {
        less =
            rw asleep.status
              (next_cpu-work acc s.quantum p p' a goes had.cpu_index had.io_index had.process_d);
        pid = had.pid;
        process_d = had.process_d;
      })

  pub IoOutcome-Outcome :
      (v : Status × State)
      → IsAsleep acc s.quantum p
      → IoOutcome acc ops r p s v
      → Outcome acc ops r p s v.1
  IoOutcome-Outcome v a (inl over) = ends-Outcome v (rw a.status (omega arith)) over
  IoOutcome-Outcome (status, t) a (inr (goes, _, burst, p', found, o, awake, had)) =
      wakes p' o awake (record {
        less =
            let less = next_io-work acc s.quantum p p' a goes had in
            elim awake.status [ inl (e, _) ↦ rw e less | inr e ↦ rw e less ];
        pid = had.pid;
        process_d = had.process_d;
      })
