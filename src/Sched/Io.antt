-- ===== src/Sched/Io.antt =====
-- `_process_io`, which is the same code in the four schedulers.
use cpu_schedular.Base.{
  ℕ, ◌<◌, ◌≡◌, refl, ℤ, true, false, arith, some, inl, inr, ok, Bool-cases, Returns, get_elem?,
  take-suc, sum-append, get_elem?-lt, int_laws,
}
use cpu_schedular.Process.{Process, terminated, ready, sleep}
use cpu_schedular.Queue.{Ref}
use cpu_schedular.Sched.{
  ThreadOps, should_terminate, terminated_process, terminate, after_io, do_io, process_io, to_ready,
}
use cpu_schedular.Sched.Bounds.{io_index-lt, asleep-over}
use cpu_schedular.Sched.Bursts.{HadIoBurst, IoOutcome, ended-HadNoBurst, next_io-work}
use cpu_schedular.Sched.Cpu.{Quiet-refl, terminate-Ends}
use cpu_schedular.Sched.Lifecycle.{
  Accounting, IsAsleep, IsDone, IsReady, Wakes, work, terminated-Accounts,
}
use cpu_schedular.Threads.{State, update_global_counter}

module _ (ops : ThreadOps) (r : Ref) (s : State) (p : Process) (e : s.store r ≡ some p) where
  process_io-terminate :
      should_terminate p ≡ true → process_io ops r s ≡ ok (terminated, terminate r p s)
  unfolding process_io
  process_io-terminate over = ground arith

  process_io-do_io :
      (burst : ℤ)
      → should_terminate p ≡ false
      → p.status ≡ sleep
      → get_elem? p.process_d.io_burst p.io_index ≡ some burst
      → process_io ops r s ≡ ok (ready, do_io ops r p burst s)
  unfolding process_io
  process_io-do_io burst goes asleep found = ground arith

  do_io-Wakes : (burst : ℤ) → Wakes ops r (after_io p burst) s (do_io ops r p burst s)
  unfolding do_io to_ready update_global_counter
  do_io-Wakes burst = record {
    writes = record {
      here = ground arith;
      elsewhere = λ q ne. ground arith;
      t_process = refl;
      total_process = refl;
      quantum = refl;
      task_list = refl;
    };
    ready_queue = (_, refl);
    ready_count = refl;
    wait_queue = refl;
    wait_count = refl;
    terminated_process = refl;
  }

after_io-HadIoBurst : (p : Process) (burst : ℤ) → HadIoBurst burst p (after_io p burst)
after_io-HadIoBurst p burst = record {
  cpu_index = refl;
  cpu_time = refl;
  io_index = refl;
  io_time = refl;
  process_time = refl;
  priority = refl;
  pid = refl;
  process_d = refl;
}

module _ (acc : Accounting) (quantum : ℕ) (p : Process) (a : IsAsleep acc quantum p) where
  pub asleep-IsDone : should_terminate p ≡ true → IsDone acc quantum (terminated_process p)
  asleep-IsDone over =
      let (cpu, io) = asleep-over p a.accounts.well_formed a.indices over in
      record {
        accounts = terminated-Accounts acc quantum p a.accounts;
        status = refl;
        cpu_over = cpu;
        io_over = io;
        turnaround = refl;
      }

  pub after_io-IsReady :
      (burst : ℤ)
      → get_elem? p.process_d.io_burst p.io_index ≡ some burst
      → IsReady acc quantum (after_io p burst)
  after_io-IsReady burst found = record {
    accounts = record {
      well_formed = a.accounts.well_formed;
      cpu = a.accounts.cpu;
      io =
          rw (a.accounts.io, take-suc p.process_d.io_burst p.io_index found, sum-append)
            (omega int_laws);
      total = rw a.accounts.total (omega int_laws);
      prepared = a.accounts.prepared;
    };
    status = inr refl;
    indices = omega (arith, a.indices);
  }

  pub after_io-work :
      (burst : ℤ) → should_terminate p ≡ false → work ready (after_io p burst) < work p.status p
  after_io-work burst goes =
      next_io-work acc quantum p (after_io p burst) a goes (after_io-HadIoBurst p burst)

module _ (acc : Accounting) (ops : ThreadOps) (r : Ref) (s : State) (p : Process) where
  -- For a sleeping process in the store, `_process_io` returns without a fault, and reads no burst
  -- out of range. If `_should_terminate` holds, the status is `terminated`, and the process has been
  -- through all its bursts, is counted as terminated, goes to neither queue and keeps its accounts.
  -- If not, the status is `ready`, and the process goes to the ready queue with one more I/O burst:
  -- `io_index` is one more, the I/O time and the process time are more by the burst that was at the
  -- index, and the CPU index and time, the priority, the number and the line are the same.
  pub process_io-IoOutcome :
      s.store r ≡ some p
      → IsAsleep acc s.quantum p
      → Returns (IoOutcome acc ops r p s) (process_io ops r s)
  process_io-IoOutcome e a = elim (Bool-cases (should_terminate p)) [
    | inl over ↦ (
      (terminated, terminate r p s),
      process_io-terminate ops r s p e over,
      inl (
        over,
        refl,
        terminated_process p,
        terminate-Ends r p s s (Quiet-refl s),
        asleep-IsDone acc s.quantum p a over,
        ended-HadNoBurst p p.wall_time,
      ),
    )
    | inr goes ↦
        let (burst, found) =
          get_elem?-lt p.process_d.io_burst p.io_index
            (io_index-lt p a.accounts.well_formed a.indices goes) in
        (
          (ready, do_io ops r p burst s),
          process_io-do_io ops r s p e burst goes a.status found,
          inr (
            goes,
            refl,
            burst,
            after_io p burst,
            found,
            do_io-Wakes ops r s p e burst,
            after_io-IsReady acc s.quantum p a burst found,
            after_io-HadIoBurst p burst,
          ),
        )
  ]
