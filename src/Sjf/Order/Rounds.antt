-- ===== src/Sjf/Order/Rounds.antt =====
-- Every round of the two threads of sjf keeps its queues in order.
use cpu_schedular.Base.{
  ◌≡◌, refl, suc, subst, sym, some, false, List, [], ◌∷◌, Run, ok, leb, ◌==◌, length, arith, tests,
  Bool-cases, inl, inr, Returns,
}
use cpu_schedular.Batch.Outcome.{whole_bursts, process_cpu-CpuOutcome}
use cpu_schedular.Process.{Status}
use cpu_schedular.Queue.{Ref, Queue}
use cpu_schedular.Sched.{Flow, stays, take_ready, take_wait, handle, schedular, wake_up}
use cpu_schedular.Sched.Invariant.{Inv}
use cpu_schedular.Sched.Io.{process_io-IoOutcome}
use cpu_schedular.Sched.Rounds.{
  schedular-take, schedular-idle, wake_up-take, wake_up-idle, take_ready-Keeps, take_wait-Keeps,
  schedular-Rounds, wake_up-Rounds,
}
use cpu_schedular.Sched.Take.{take_ready-Takes, take_wait-Takes}
use cpu_schedular.Simulation.{Turn, scheduler, wakeup, turn, run}
use cpu_schedular.Sjf.{ops, policy, process_cpu_sjf, process_io_sjf}
use cpu_schedular.Sjf.Order.{
  IsShortestFirst, CpuOutcome-IsShortestFirst, IoOutcome-IsShortestFirst,
  take_ready-IsShortestFirst, take_wait-IsShortestFirst,
}
use cpu_schedular.Threads.{State}

-- Whatever the round returns, the queues are in order.
abbrev KeepsOrder : Run (Flow × State) → Type 0
KeepsOrder round = (v : Flow × State) → round ≡ ok v → IsShortestFirst v.1

idle-KeepsOrder :
    (s : State) (round : Run (Flow × State))
    → IsShortestFirst s
    → (flow : Flow) × (round ≡ ok (flow, s))
    → KeepsOrder round
idle-KeepsOrder s round o (flow, is) (flow', t) e =
    let same : t ≡ s = cc in subst IsShortestFirst (sym same) o

handle-KeepsOrder :
    (r : Ref) (process : Ref → State → Run (Status × State)) (u : State)
    → Returns (λ v. IsShortestFirst v.1) (process r u)
    → KeepsOrder (handle (some r) process u)
handle-KeepsOrder r process u ((status, t), is, o) v e =
    let done : handle (some r) process u ≡ ok (stays, t) = rw is in
    let same : t ≡ v.1 = cc in subst IsShortestFirst same o

module _ (s : State) (v : Inv whole_bursts s) (o : IsShortestFirst s) where
  schedular_at : (q : Queue) → s.ready_queue ≡ q → KeepsOrder (schedular process_cpu_sjf s)
  schedular_at [] e =
      let z : length s.ready_queue ≡ 0 = rw e in
      idle-KeepsOrder s _ o
        (schedular-idle s process_cpu_sjf (inl (omega (arith, z, v.ready_count))))
  schedular_at (x ∷ q) e = elim (Bool-cases (leb s.total_process s.terminated_process)) [
    | inl over ↦ idle-KeepsOrder s _ o (schedular-idle s process_cpu_sjf (inr (omega tests)))
    | inr more ↦
        let n : length s.ready_queue ≡ suc (length q) = rw e in
        let up : (s.ready_count == 0) ≡ false = ground (arith, n, v.ready_count) in
        let (held, (p, stored, ready)) = take_ready-Takes whole_bursts s x q v e in
        let k = take_ready-Keeps s in
        let (w, is, out) =
          process_cpu-CpuOutcome ops x.task (take_ready s) p stored (rw k.quantum ready) in
        let kept =
          CpuOutcome-IsShortestFirst x.task p (take_ready s) stored (take_ready-IsShortestFirst s o)
            w out in
        subst KeepsOrder (sym (schedular-take s x q process_cpu_sjf e more up))
          (handle-KeepsOrder x.task process_cpu_sjf (take_ready s) (w, is, kept))
  ]

  wake_up_at : (q : Queue) → s.wait_queue ≡ q → KeepsOrder (wake_up process_io_sjf s)
  wake_up_at [] e =
      let z : length s.wait_queue ≡ 0 = rw e in
      idle-KeepsOrder s _ o (wake_up-idle s process_io_sjf (inl (omega (arith, z, v.wait_count))))
  wake_up_at (x ∷ q) e = elim (Bool-cases (leb s.total_process s.terminated_process)) [
    | inl over ↦ idle-KeepsOrder s _ o (wake_up-idle s process_io_sjf (inr (omega tests)))
    | inr more ↦
        let n : length s.wait_queue ≡ suc (length q) = rw e in
        let up : (s.wait_count == 0) ≡ false = ground (arith, n, v.wait_count) in
        let (held, (p, stored, asleep)) = take_wait-Takes whole_bursts s x q v e in
        let k = take_wait-Keeps s in
        let (w, is, out) =
          process_io-IoOutcome whole_bursts ops x.task (take_wait s) p stored
            (rw k.quantum asleep) in
        let kept =
          IoOutcome-IsShortestFirst x.task p (take_wait s) stored (take_wait-IsShortestFirst s o) w
            out in
        subst KeepsOrder (sym (wake_up-take s x q process_io_sjf e more up))
          (handle-KeepsOrder x.task process_io_sjf (take_wait s) (w, is, kept))
  ]

  turn-IsShortestFirst :
      (x : Turn) → Returns (λ t. Inv whole_bursts t × IsShortestFirst t) (turn policy x s)
  unfolding turn
  turn-IsShortestFirst scheduler =
      let ((flow, t), is, (round, _)) = schedular-Rounds policy s v in
      (t, rw is, (round.inv, schedular_at s.ready_queue refl (flow, t) is))
  turn-IsShortestFirst wakeup =
      let ((flow, t), is, (round, _)) = wake_up-Rounds policy s v in
      (t, rw is, (round.inv, wake_up_at s.wait_queue refl (flow, t) is))

-- From a state of sjf with the invariant and with its queues in order, every sequence of rounds of
-- the two threads returns without a fault, and its queues are in order afterwards: both are sorted
-- by the priorities of their processes, and the priority of every process is the length of its
-- first CPU burst.
pub run-IsShortestFirst :
    (xs : List Turn) (s : State)
    → Inv whole_bursts s
    → IsShortestFirst s
    → Returns IsShortestFirst (run policy xs s)
unfolding run
run-IsShortestFirst [] s v o = (s, refl, o)
run-IsShortestFirst (x ∷ xs) s v o =
    let (t, is, (v', o')) = turn-IsShortestFirst s v o x in
    let (u, are, last) = run-IsShortestFirst xs t v' o' in (u, rw (is, are), last)
