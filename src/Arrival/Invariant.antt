-- ===== src/Arrival/Invariant.antt =====
-- A process that arrives is ready, and in the task list.
use cpu_schedular.Base.{suc, ◌<◌, ◌≤◌, ◌≡◌, inl, inr, length, arith, Bool-cases, tests, ltb}
use cpu_schedular.Process.{Process}
use cpu_schedular.Queue.{Ref}
use cpu_schedular.Queue.Laws.{occurs}
use cpu_schedular.Sched.{ThreadOps}
use cpu_schedular.Sched.Invariant.{Inv}
use cpu_schedular.Sched.Lifecycle.{Accounting, IsReady}
use cpu_schedular.Threads.{State, update}

-- Every process is in the task list, once.
pub record IsListed (s : State) : Type 0 where
  pub once : (r : Ref) → r < s.t_process → occurs r s.task_list ≡ 1
  pub no_other : (r : Ref) → s.t_process ≤ r → occurs r s.task_list ≡ 0
  pub size : length s.task_list ≡ s.t_process

-- What the arrival of a process leaves as it was.
pub record Arrives (ops : ThreadOps) (p : Process) (s t : State) : Type 0 where
  pub store : t.store ≡ update s.store s.t_process p
  pub ready_queue : t.ready_queue ≡ ops.insert s.t_process p s.ready_queue
  pub task_list : t.task_list ≡ ops.insert s.t_process p s.task_list
  pub wait_queue : t.wait_queue ≡ s.wait_queue
  pub t_process : t.t_process ≡ suc s.t_process
  pub total_process : t.total_process ≡ s.total_process
  pub terminated_process : t.terminated_process ≡ s.terminated_process
  pub ready_count : t.ready_count ≡ suc s.ready_count
  pub wait_count : t.wait_count ≡ s.wait_count
  pub quantum : t.quantum ≡ s.quantum
  pub global_counter : t.global_counter ≡ s.global_counter

module _ (acc : Accounting) (ops : ThreadOps) (p : Process) (s t : State)
    (a : Arrives ops p s t) where
  pub Arrives-IsListed : IsListed s → IsListed t
  Arrives-IsListed l = record {
    once = λ r lt. rw a.task_list (elim (Bool-cases (ltb r s.t_process)) [
      | inl e ↦
          ground (arith, ops.occurs-insert r s.t_process p s.task_list, l.once r (omega tests))
      | inr e ↦
          let new : r ≡ s.t_process = omega (tests, a.t_process) in
          ground (arith, ops.occurs-insert r s.t_process p s.task_list, l.no_other r (omega tests))
    ]);
    no_other = λ r le. rw a.task_list (
        ground (
          arith,
          a.t_process,
          ops.occurs-insert r s.t_process p s.task_list,
          l.no_other r (omega (arith, a.t_process)),
        ));
    size =
        rw a.task_list
          (omega (arith, l.size, a.t_process, ops.length-insert s.t_process p s.task_list));
  }

  pub Arrives-Inv : IsReady acc s.quantum p → Inv acc s → Inv acc t
  Arrives-Inv ready v = record {
    placed = λ r lt. elim (Bool-cases (ltb r s.t_process)) [
      | inl e ↦
          let (x, stored, place) = v.placed r (omega tests) in
          let same : occurs r t.ready_queue ≡ occurs r s.ready_queue =
            rw a.ready_queue (ground (arith, ops.occurs-insert r s.t_process p s.ready_queue)) in
          (x, rw a.store (ground arith), rw (same, a.wait_queue, a.quantum) place)
      | inr e ↦
          let new : r ≡ s.t_process = omega (tests, a.t_process) in
          let none_yet = v.absent r (omega tests) in
          (
            p,
            rw a.store (ground arith),
            inl (
              rw a.ready_queue
                  (ground (arith, none_yet.0, ops.occurs-insert r s.t_process p s.ready_queue)),
              rw a.wait_queue none_yet.1,
              rw a.quantum ready,
            ),
          )
    ];
    absent = λ r le.
        let none_yet = v.absent r (omega (arith, a.t_process)) in
        (
          rw a.ready_queue (
              ground
                (arith, none_yet.0, a.t_process, ops.occurs-insert r s.t_process p s.ready_queue)),
          rw a.wait_queue none_yet.1,
        );
    counted =
        rw (a.ready_queue, a.wait_queue)
          (omega (
            arith,
            v.counted,
            a.t_process,
            a.terminated_process,
            ops.length-insert s.t_process p s.ready_queue,
          ));
    ready_count = rw a.ready_queue (
        omega (arith, v.ready_count, a.ready_count, ops.length-insert s.t_process p s.ready_queue));
    wait_count = rw a.wait_queue (omega (arith, v.wait_count, a.wait_count));
  }
