-- ===== src/Srtf/Nested.antt =====
-- `swap`, when the calls that it makes do their work: another process runs first.
use cpu_schedular.Base.{
  ℕ, ◌<◌, ◌≡◌, refl, sym, ap, Option, ◌∙◌, ℤ, pos, ◌+ℤ◌, ◌≤ℤ◌, ◌<ℤ◌, some, [], ◌∷◌, length, Run,
  arith, Returns,
}
use cpu_schedular.Process.{Status, Process}
use cpu_schedular.Queue.{Ref, Item, Queue}
use cpu_schedular.Queue.Laws.{length-p_enqueue}
use cpu_schedular.Sched.{final, take_ready}
use cpu_schedular.Sched.Final.{final-Round, final-running_pd}
use cpu_schedular.Sched.Invariant.{Held}
use cpu_schedular.Sched.Lifecycle.{IsReady}
use cpu_schedular.Sched.Progress.{Progress, Keeps-Progress, Progress-Round}
use cpu_schedular.Sched.Rounds.{take_ready-Keeps, take_ready-front}
use cpu_schedular.Sched.Take.{take_ready-Takes}
use cpu_schedular.Srtf.{swap}
use cpu_schedular.Srtf.Steps.{runs}
use cpu_schedular.Srtf.Swap.{
  Above, back, queue, back-queue, back-Inv, back-Keeps, back-Above, next_remaining, swap-step,
}
use cpu_schedular.Srtf.Ticks.{Beats}
use cpu_schedular.Threads.{State}

-- The call has made progress, and the running process is one that was created.
abbrev pub Ends : State → Status × State → Type 0
Ends s (status, t) = Progress runs s t × ((c : Ref) × (t.running_pd ≡ some c) × (c < t.t_process))

-- The calls of `again` serve ready processes whose remaining time is less than `depth` above the
-- least in the ready queue.
abbrev pub Serves : ℤ → ℕ → (Ref → State → Run (Status × State)) → Type 0
Serves least depth again =
    (r : Ref) (s : State) (p : Process)
    → Held runs r s
    → s.running_pd ≡ some r
    → s.store r ≡ some p
    → IsReady runs s.quantum p
    → Above least s
    → least ≤ℤ p.remaining_time
    → p.remaining_time <ℤ least +ℤ pos depth
    → Returns (Ends s) (again r s)

take_ready-store : (s : State) → (take_ready s).store ≡ s.store
unfolding take_ready
take_ready-store s = refl

-- The code at `final` after a call: the process that is running by then is one of the store.
final-Ends :
    (again : Ref → State → Run (Status × State)) (r : Ref) (p : Process) (u : State) (x : Item)
    (q : Queue)
    → queue r p u ≡ x ∷ q
    → Returns (Ends (take_ready (back r p u))) (again x.task (take_ready (back r p u)))
    → Returns (Ends (take_ready (back r p u))) (swap again r p u)
final-Ends again r p u x q e ((status, t), is, (progress, (c, run, created))) =
    let v = progress.0.inv in
    let (p', stored, place) = v.placed c created in
    let round = final-Round runs c p' status t stored v in
    (
      (status, final c p' status t),
      swap-step r p u again x q e ∙ (rw (is, run, stored)),
      (
        Progress-Round runs (take_ready (back r p u)) t (final c p' status t) progress round,
        (c, final-running_pd c p' status t ∙ run, rw round.t_process created),
      ),
    )

module _ (again : Ref → State → Run (Status × State)) (r : Ref) (p : Process) (u : State)
    (least : ℤ) (depth : ℕ) (serves : Serves least depth again) (h : Held runs r u)
    (e : u.store r ≡ some p) (a : IsReady runs u.quantum p) (above : Above least u)
    (beats : Beats r p u) (bound : p.remaining_time <ℤ least +ℤ pos depth) where
  -- The front of the queue runs, and has no more time left than the process that gave way.
  next-Ends :
      (x : Item) (q : Queue)
      → queue r p u ≡ x ∷ q
      → Returns (Ends (take_ready (back r p u))) (again x.task (take_ready (back r p u)))
  next-Ends x q front =
      let v = back-Inv r p u h a in
      let at = back-queue r p u ∙ front in
      let (held, (p', stored, ready)) = take_ready-Takes runs (back r p u) x q v at in
      let kept = take_ready-Keeps (back r p u) in
      let store : (take_ready (back r p u)).store x.task ≡ (back r p u).store x.task =
        ap (λ (f : Ref → Option Process). f x.task) (take_ready-store (back r p u)) in
      let (low, high) = next_remaining r p u least above beats x q p' front (sym store ∙ stored) in
      serves x.task (take_ready (back r p u)) p' held (take_ready-front (back r p u) x q again at)
        stored (rw kept.quantum ready) (back-Above r p u least above beats x q front) low
        (omega (arith, high, bound))

  swap_at : (q : Queue) → queue r p u ≡ q → Returns (Ends u) (swap again r p u)
  swap_at [] empty =
      let n = length-p_enqueue r p.remaining_time u.ready_queue in
      let z : length (queue r p u) ≡ 0 = rw empty in absurd (omega (arith, n, z))
  swap_at (x ∷ q) front =
      let ((status, t), is, (progress, running)) =
        final-Ends again r p u x q front (next-Ends x q front) in
      let taken =
        Keeps-Progress runs (back r p u) (take_ready (back r p u)) t (take_ready-Keeps (back r p u))
          progress in
      (
        (status, t),
        is,
        (Keeps-Progress runs u (back r p u) t (back-Keeps r p u e a) taken, running),
      )

  -- Another process runs first, and the code at `final` follows.
  pub swap-Ends : Returns (Ends u) (swap again r p u)
  swap-Ends = swap_at (queue r p u) refl
