-- ===== src/Batch/Outcome.antt =====
-- What `_process_cpu` of a scheduler that does not preempt does with a ready process.
use cpu_schedular.Base.{
  ℕ, ◌≡◌, refl, ◌∙◌, ℤ, pos, sum, sum-append, take, take-suc, true, false, some, inl, inr, ok,
  arith, int_laws, Bool-cases, Returns, get_elem?, get_elem?-lt,
}
use cpu_schedular.Batch.{spend, after_first, after_burst, run_burst, process_cpu}
use cpu_schedular.Process.{Process, new, ready, sleep, terminated}
use cpu_schedular.Queue.{Ref}
use cpu_schedular.Sched.{ThreadOps, should_terminate, terminated_process, terminate, final, to_wait}
use cpu_schedular.Sched.Bounds.{cpu_index-lt}
use cpu_schedular.Sched.Bursts.{HadCpuBurst, CpuOutcome, terminate-CpuOutcome, sleep-CpuOutcome}
use cpu_schedular.Sched.Cpu.{start-Quiet, Quiet}
use cpu_schedular.Sched.Lifecycle.{Accounting, IsAsleep, IsReady}
use cpu_schedular.Threads.{State, read_wall_start}

-- The CPU time is the sum of the bursts that are over; the remaining time is not used.
abbrev pub whole_bursts : Accounting
whole_bursts = record {
  Served = λ quantum d n time. time ≡ sum (take n d.cpu_burst);
  Prepared = λ d n remaining. Unit {0};
}

pub spend-Quiet : (burst : ℤ) (s : State) → Quiet s (spend burst (read_wall_start s))
unfolding spend read_wall_start
spend-Quiet burst s = record {
  store = refl;
  ready_queue = refl;
  wait_queue = refl;
  task_list = refl;
  t_process = refl;
  total_process = refl;
  terminated_process = refl;
  ready_count = refl;
  wait_count = refl;
  quantum = refl;
}

module _ (quantum : ℕ) (p : Process) (a : IsReady whole_bursts quantum p) where
  burst_accounts :
      (burst : ℤ) (p' : Process)
      → get_elem? p.process_d.cpu_burst p.cpu_index ≡ some burst
      → HadCpuBurst burst p p'
      → p'.status ≡ sleep
      → IsAsleep whole_bursts quantum p'
  burst_accounts burst p' found had st = record {
    accounts = record {
      well_formed = rw had.process_d a.accounts.well_formed;
      cpu =
          rw
            (
              had.cpu_time,
              had.process_d,
              had.cpu_index,
              a.accounts.cpu,
              take-suc p.process_d.cpu_burst p.cpu_index found,
              sum-append,
            )
            (omega int_laws);
      io = rw (had.io_time, had.io_index, had.process_d) a.accounts.io;
      total = rw (had.process_time, had.cpu_time, had.io_time, a.accounts.total) (omega int_laws);
      prepared = tt;
    };
    status = st;
    indices = omega (arith, had.cpu_index, had.io_index, a.indices);
  }

  pub after_burst-HadCpuBurst : (burst : ℤ) → HadCpuBurst burst p (after_burst p burst)
  after_burst-HadCpuBurst burst = record {
    cpu_index = refl;
    cpu_time = refl;
    io_index = refl;
    io_time = refl;
    process_time = refl;
    priority = refl;
    pid = refl;
    process_d = refl;
  }

  -- At the first burst nothing has been added yet, so that setting the time adds to it.
  pub after_first-HadCpuBurst :
      (burst : ℤ) → p.cpu_index ≡ 0 → HadCpuBurst burst p (after_first p burst)
  after_first-HadCpuBurst burst z =
      let fresh : p.cpu_time ≡ sum (take p.cpu_index p.process_d.cpu_burst) = a.accounts.cpu in
      let none_yet : p.cpu_time ≡ pos 0 = rw z at fresh in
      record {
        cpu_index = refl;
        cpu_time = rw none_yet (omega int_laws);
        io_index = refl;
        io_time = refl;
        process_time = refl;
        priority = refl;
        pid = refl;
        process_d = refl;
      }

  pub after_burst-IsAsleep :
      (burst : ℤ)
      → get_elem? p.process_d.cpu_burst p.cpu_index ≡ some burst
      → IsAsleep whole_bursts quantum (after_burst p burst)
  after_burst-IsAsleep burst found =
      burst_accounts burst (after_burst p burst) found (after_burst-HadCpuBurst burst) refl

  pub after_first-IsAsleep :
      (burst : ℤ)
      → p.cpu_index ≡ 0
      → get_elem? p.process_d.cpu_burst p.cpu_index ≡ some burst
      → IsAsleep whole_bursts quantum (after_first p burst)
  after_first-IsAsleep burst z found =
      burst_accounts burst (after_first p burst) found (after_first-HadCpuBurst burst z) refl

module _ (ops : ThreadOps) (r : Ref) (s : State) (p : Process) (e : s.store r ≡ some p) where
  process_cpu-terminate :
      should_terminate p ≡ true
      → process_cpu ops r s
        ≡ ok (
          terminated,
          final r (terminated_process p) terminated (terminate r p (read_wall_start s)),
        )
  unfolding process_cpu
  process_cpu-terminate over = rw (e, over)

  process_cpu-run_burst :
      should_terminate p ≡ false → process_cpu ops r s ≡ run_burst ops r p (read_wall_start s)
  unfolding process_cpu
  process_cpu-run_burst goes = rw (e, goes)

module _ (ops : ThreadOps) (r : Ref) (t : State) (p : Process) (burst : ℤ) where
  run_burst-first :
      p.status ≡ new
      → get_elem? p.process_d.cpu_burst 0 ≡ some burst
      → run_burst ops r p t
        ≡ ok (
          sleep,
          final r (after_first p burst) sleep (to_wait ops r (after_first p burst) (spend burst t)),
        )
  unfolding run_burst
  run_burst-first st found = ground arith

  run_burst-next :
      p.status ≡ ready
      → get_elem? p.process_d.cpu_burst p.cpu_index ≡ some burst
      → run_burst ops r p t
        ≡ ok (
          sleep,
          final r (after_burst p burst) sleep (to_wait ops r (after_burst p burst) (spend burst t)),
        )
  unfolding run_burst
  run_burst-next st found = ground arith

module _ (ops : ThreadOps) (r : Ref) (s : State) (p : Process) where
  -- For a ready process in the store, `_process_cpu` of fifo and sjf returns without a fault, and
  -- reads no burst out of range. If `_should_terminate` holds, the status is `terminated`, and the
  -- process has been through all its bursts, is counted as terminated, goes to neither queue and
  -- keeps its accounts. If not, the status is `sleep`, and the process goes to the wait queue with
  -- one more CPU burst: `cpu_index` is one more, the CPU time and the process time are more by the
  -- burst that was at the index, and the I/O index and time, the priority, the number and the line
  -- are the same.
  pub process_cpu-CpuOutcome :
      s.store r ≡ some p
      → IsReady whole_bursts s.quantum p
      → Returns (CpuOutcome whole_bursts ops (λ burst. burst) r p s) (process_cpu ops r s)
  process_cpu-CpuOutcome e a = elim (Bool-cases (should_terminate p)) [
    | inl over ↦ (
      _,
      process_cpu-terminate ops r s p e over,
      terminate-CpuOutcome whole_bursts ops (λ burst. burst) r p s (read_wall_start s)
          (start-Quiet s) a over,
    )
    | inr goes ↦
        let (burst, found) =
          get_elem?-lt p.process_d.cpu_burst p.cpu_index
            (cpu_index-lt p a.accounts.well_formed a.indices goes) in
        let run = process_cpu-run_burst ops r s p e goes in
        let sleeps =
          sleep-CpuOutcome whole_bursts ops (λ b. b) r p s (spend burst (read_wall_start s))
            (spend-Quiet burst s) burst in
        elim a.status [
          | inl (st, z) ↦ (
            _,
            run ∙ run_burst-first ops r (read_wall_start s) p burst st (rw z at found),
            sleeps (after_first p burst) goes found
                (after_first-IsAsleep s.quantum p a burst z found)
                (after_first-HadCpuBurst s.quantum p a burst z),
          )
          | inr st ↦ (
            _,
            run ∙ run_burst-next ops r (read_wall_start s) p burst st found,
            sleeps (after_burst p burst) goes found (after_burst-IsAsleep s.quantum p a burst found)
                (after_burst-HadCpuBurst s.quantum p a burst),
          )
        ]
  ]
