-- ===== src/Interleaved/Batch.antt =====
-- The work of fifo and sjf on a process that their thread holds.
use cpu_schedular.Base.{
  Returns, ◌≡◌, refl, ℤ, some, arith, true, false, inl, inr, Bool-cases, get_elem?, get_elem?-lt,
  ok,
}
use cpu_schedular.Batch.{spend, after_first, after_burst}
use cpu_schedular.Batch.Outcome.{
  whole_bursts, spend-Quiet, after_first-IsAsleep, after_burst-IsAsleep,
}
use cpu_schedular.Interleaved.{putting, finishing, burst_step, hold_cpu}
use cpu_schedular.Process.{Process, new, ready, terminated}
use cpu_schedular.Queue.{Ref}
use cpu_schedular.Sched.{ThreadOps, should_terminate, terminate}
use cpu_schedular.Sched.Bounds.{cpu_index-lt}
use cpu_schedular.Sched.Bursts.{next_cpu-work}
use cpu_schedular.Sched.Lifecycle.{IsReady}
use cpu_schedular.Threads.{State, put, read_wall_start}
use cpu_schedular.Interleaved.Policy.{StepPolicy, Holds, ends, sleeps}

module _ (r : Ref) (p : Process) (s : State) where
  hold_cpu-terminate :
      should_terminate p ≡ true → hold_cpu r p s ≡ ok (finishing r terminated, terminate r p s)
  unfolding hold_cpu
  hold_cpu-terminate over = rw over

  module _ (burst : ℤ) (goes : should_terminate p ≡ false) where
    hold_cpu-first :
        p.status ≡ new
        → get_elem? p.process_d.cpu_burst 0 ≡ some burst
        → hold_cpu r p s ≡ ok (putting r, put r (after_first p burst) (spend burst s))
    unfolding hold_cpu burst_step
    hold_cpu-first st found = ground arith

    hold_cpu-next :
        p.status ≡ ready
        → get_elem? p.process_d.cpu_burst p.cpu_index ≡ some burst
        → hold_cpu r p s ≡ ok (putting r, put r (after_burst p burst) (spend burst s))
    unfolding hold_cpu burst_step
    hold_cpu-next st found = ground arith

pub hold_cpu-Holds :
    (r : Ref) (p : Process) (s : State)
    → IsReady whole_bursts s.quantum p
    → Returns (λ (at, t). Holds whole_bursts r p s at t) (hold_cpu r p (read_wall_start s))
hold_cpu-Holds r p s a = elim (Bool-cases (should_terminate p)) [
  | inl over ↦ (
    (finishing r terminated, terminate r p (read_wall_start s)),
    hold_cpu-terminate r p (read_wall_start s) over,
    ends over,
  )
  | inr goes ↦
      let (burst, found) =
        get_elem?-lt p.process_d.cpu_burst p.cpu_index
          (cpu_index-lt p a.accounts.well_formed a.indices goes) in
      let t = spend burst (read_wall_start s) in
      let quiet = spend-Quiet burst s in
      elim a.status [
        | inl (st, z) ↦ (
          (putting r, put r (after_first p burst) t),
          hold_cpu-first r p (read_wall_start s) burst goes st (rw z at found),
          sleeps (after_first p burst) t quiet (after_first-IsAsleep s.quantum p a burst z found)
              (record {
                less =
                    next_cpu-work whole_bursts s.quantum p (after_first p burst) a goes refl refl
                      refl;
                pid = refl;
                process_d = refl;
              }),
        )
        | inr st ↦ (
          (putting r, put r (after_burst p burst) t),
          hold_cpu-next r p (read_wall_start s) burst goes st found,
          sleeps (after_burst p burst) t quiet (after_burst-IsAsleep s.quantum p a burst found)
              (record {
                less =
                    next_cpu-work whole_bursts s.quantum p (after_burst p burst) a goes refl refl
                      refl;
                pid = refl;
                process_d = refl;
              }),
        )
      ]
]

abbrev pub policy : ThreadOps → StepPolicy
policy ops = record { acc = whole_bursts; ops = ops; hold = hold_cpu; hold-Holds = hold_cpu-Holds }
