-- ===== src/Sched/Cpu.antt =====
-- The parts of `_process_cpu` that the schedulers share: its end, and the way to the wait queue.
use cpu_schedular.Base.{ℕ, pos, ◌+ℤ◌, ◌<◌, ◌≡◌, refl, true, inl, inr, arith, ◌∙◌}
use cpu_schedular.Process.{Process, terminated, sleep}
use cpu_schedular.Queue.{Ref}
use cpu_schedular.Sched.{ThreadOps, terminated_process, terminate, final, to_wait, should_terminate}
use cpu_schedular.Sched.Bounds.{ready-over}
use cpu_schedular.Sched.Lifecycle.{
  Accounting, IsAsleep, IsDone, IsReady, Ends, Sleeps, work, Outcome, Writes, Forward, ends, sleeps,
  terminated-Accounts,
}
use cpu_schedular.Threads.{put, update_global_counter, read_wall_start, State}
use cpu_schedular.Sched.Final.{
  final-Finishes, Ends-finish, Sleeps-finish, timed-IsAsleep, timed-IsDone,
}

-- From `s` to `t` nothing changed but times and the log.
pub record Quiet (s t : State) : Type 0 where
  pub store : t.store ≡ s.store
  pub ready_queue : t.ready_queue ≡ s.ready_queue
  pub wait_queue : t.wait_queue ≡ s.wait_queue
  pub task_list : t.task_list ≡ s.task_list
  pub t_process : t.t_process ≡ s.t_process
  pub total_process : t.total_process ≡ s.total_process
  pub terminated_process : t.terminated_process ≡ s.terminated_process
  pub ready_count : t.ready_count ≡ s.ready_count
  pub wait_count : t.wait_count ≡ s.wait_count
  pub quantum : t.quantum ≡ s.quantum

pub Quiet-refl : (s : State) → Quiet s s
Quiet-refl s = record {
  store = refl;
  ready_queue = refl;
  wait_queue = refl;
  task_list = refl;
  t_process = refl;
  total_process = refl;
  terminated_process = refl;
  ready_count = refl;
  wait_count = refl;
  quantum = refl;
}

pub Quiet-trans : (s t u : State) → Quiet s t → Quiet t u → Quiet s u
Quiet-trans s t u h k = record {
  store = k.store ∙ h.store;
  ready_queue = k.ready_queue ∙ h.ready_queue;
  wait_queue = k.wait_queue ∙ h.wait_queue;
  task_list = k.task_list ∙ h.task_list;
  t_process = k.t_process ∙ h.t_process;
  total_process = k.total_process ∙ h.total_process;
  terminated_process = k.terminated_process ∙ h.terminated_process;
  ready_count = k.ready_count ∙ h.ready_count;
  wait_count = k.wait_count ∙ h.wait_count;
  quantum = k.quantum ∙ h.quantum;
}

pub start-Quiet : (s : State) → Quiet s (read_wall_start s)
unfolding read_wall_start
start-Quiet s = record {
  store = refl;
  ready_queue = refl;
  wait_queue = refl;
  task_list = refl;
  t_process = refl;
  total_process = refl;
  terminated_process = refl;
  ready_count = refl;
  wait_count = refl;
  quantum = refl;
}

-- A tick of the counter.
pub tick_counter :
    (s : State) → (update_global_counter (pos 1) s).global_counter ≡ s.global_counter +ℤ pos 1
unfolding update_global_counter
tick_counter s = refl

module _ (r : Ref) (p : Process) (s t : State) (q : Quiet s t) where
  pub put-Writes : Writes r p s (put r p t)
  unfolding put
  put-Writes = record {
    here = ground arith;
    elsewhere = λ x ne. rw q.store (ground arith);
    t_process = q.t_process;
    total_process = q.total_process;
    quantum = q.quantum;
    task_list = q.task_list;
  }

  pub terminate-Ends : Ends r (terminated_process p) s (terminate r p t)
  unfolding terminate
  terminate-Ends = record {
    writes = record {
      here = ground arith;
      elsewhere = λ x ne. rw q.store (ground arith);
      t_process = q.t_process;
      total_process = q.total_process;
      quantum = q.quantum;
      task_list = q.task_list;
    };
    ready_queue = q.ready_queue;
    ready_count = q.ready_count;
    wait_queue = q.wait_queue;
    wait_count = q.wait_count;
    terminated_process = omega (arith, q.terminated_process);
  }

  pub to_wait-Sleeps : (ops : ThreadOps) → Sleeps ops r p s (to_wait ops r p t)
  unfolding to_wait
  to_wait-Sleeps ops = record {
    writes = record {
      here = put-Writes.here;
      elsewhere = put-Writes.elsewhere;
      t_process = q.t_process;
      total_process = q.total_process;
      quantum = q.quantum;
      task_list = q.task_list;
    };
    ready_queue = q.ready_queue;
    ready_count = q.ready_count;
    wait_queue = (p.wall_time, rw q.wait_queue);
    wait_count = rw q.wait_count;
    terminated_process = q.terminated_process;
  }

-- A ready process that should terminate has been through all of its bursts.
module _ (acc : Accounting) (quantum : ℕ) (p : Process) (a : IsReady acc quantum p) where
  pub ready-IsDone : should_terminate p ≡ true → IsDone acc quantum (terminated_process p)
  ready-IsDone over =
      let (cpu, io) = ready-over p a.accounts.well_formed a.indices over in
      record {
        accounts = terminated-Accounts acc quantum p a.accounts;
        status = refl;
        cpu_over = cpu;
        io_over = io;
        turnaround = refl;
      }

  pub terminated-Forward : Forward p (terminated_process p)
  terminated-Forward = record {
    less = elim a.status [ inl (e, _) ↦ rw e (omega arith) | inr e ↦ rw e (omega arith) ];
    pid = refl;
    process_d = refl;
  }

-- The two ends of `_process_cpu` for a process that it was given.
module _ (acc : Accounting) (ops : ThreadOps) (r : Ref) (p : Process) (s t : State)
    (q : Quiet s t) where
  pub cpu_ends :
      IsReady acc s.quantum p
      → should_terminate p ≡ true
      → Outcome acc ops r p s (final r (terminated_process p) terminated (terminate r p t))
  cpu_ends a over =
      let p' = terminated_process p in
      let (w, f) = final-Finishes r p' terminated (terminate r p t) in
      let forward = terminated-Forward acc s.quantum p a in
      ends (record p' { wall_time = w }) (Ends-finish f (terminate-Ends r p s t q))
        (timed-IsDone acc s.quantum p' w (ready-IsDone acc s.quantum p a over))
        (record { less = forward.less; pid = refl; process_d = refl })

  pub cpu_sleeps :
      (p' : Process)
      → IsAsleep acc s.quantum p'
      → work sleep p' < work p.status p
      → p'.pid ≡ p.pid
      → p'.process_d ≡ p.process_d
      → Outcome acc ops r p s (final r p' sleep (to_wait ops r p' t))
  cpu_sleeps p' a less pid line =
      let (w, f) = final-Finishes r p' sleep (to_wait ops r p' t) in
      sleeps (record p' { wall_time = w }) (Sleeps-finish f (to_wait-Sleeps r p' s t q ops))
        (timed-IsAsleep acc s.quantum p' w a)
        (record { less = rw a.status less; pid = pid; process_d = line })
