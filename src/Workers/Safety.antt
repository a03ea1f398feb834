-- ===== src/Workers/Safety.antt =====
-- No process is lost or run twice, and the threads never get stuck before all are freed.
use cpu_schedular.Base.{
  ℕ, suc, ◌*◌, ◌≤◌, ◌<◌, ◌≡◌, ◌≢◌, ◌⊎◌, refl, inl, inr, some, none, ◌∷◌, ltb, ◌==◌, ==_iff,
  Bool-cases, tests, arith,
}
use cpu_schedular.Workers.{
  Process, Cpu, first, second, Worker, waiting, asleep, holding, running, Shared, set_at,
  process_of, enqueue, dequeue, took, Signal, nobody, wakes, Step, arrive, block, wake, take, run,
  finish, Reachable, begin, after,
}
use cpu_schedular.Workers.Keeps.{took-front, Step-Inv}
use cpu_schedular.Workers.Invariant.{
  has, count, length, taken, busy, progress, Inv, start-Inv, Signal-Like,
}

-- In every state that the two workers and main can get to, the queue holds the processes that main
-- has made, in their order, and no more than five, so that the array is never overrun. Each process
-- before the front of the queue is in the hands of one worker, or was freed, once, and no other is.
-- Each CPU shows the process that runs on it, and both workers are blocked with an empty queue only.
pub Reachable-Inv : (s : Shared) → Reachable s → Inv s
Reachable-Inv s begin = start-Inv
Reachable-Inv s (after {s = r} h step) = Step-Inv r s (Reachable-Inv r h) step

-- Every process was freed, once, and nothing is left in the queue.
abbrev pub AllFreed : Shared → Type 0
AllFreed s = (length s.freed ≡ 5) × ((k : ℕ) → k < 5 → count k s.freed ≡ 1) × (s.front ≡ s.rear)

taken-le : (x : Worker) → taken x ≤ 2 * busy x
taken-le waiting = omega arith
taken-le _ = omega arith

module _ (s : Shared) (v : Inv s) where
  progress-le : progress s ≤ 20
  progress-le =
      omega
        (arith, v.front, v.rear, v.i, v.size, taken-le (s.worker first), taken-le (s.worker second))

  -- Steps that bring a process on, and by how much.
  progress-arrive :
      (w : Cpu → Worker)
      → Signal s.worker w
      → progress (record (enqueue (process_of s.i) s) { i = suc s.i; worker = w })
        ≡ suc (progress s)
  progress-arrive w g =
      omega (arith, (Signal-Like s.worker w g first).taken, (Signal-Like s.worker w g second).taken)

  progress-place :
      (c : Cpu) (x : Worker)
      → taken x ≡ taken (s.worker c)
      → progress (record s { worker = set_at s.worker c x }) ≡ progress s
  progress-place first x e = omega (arith, e)
  progress-place second x e = omega (arith, e)

  progress-take :
      (c : Cpu)
      → s.worker c ≡ waiting
      → s.front ≢ s.rear
      → progress (took c (dequeue s).0 (dequeue s).1) ≡ suc (progress s)
  progress-take first e ne = rw (took-front s v first ne, e) (omega arith)
  progress-take second e ne = rw (took-front s v second ne, e) (omega arith)

  progress-run :
      (c : Cpu) (p : Process)
      → s.worker c ≡ holding p
      → progress (record s {
        cpu_task = set_at s.cpu_task c (some p);
        worker = set_at s.worker c (running p);
      })
        ≡ suc (progress s)
  progress-run first p e = rw e (omega arith)
  progress-run second p e = rw e (omega arith)

  progress-finish :
      (c : Cpu) (p : Process)
      → s.worker c ≡ running p
      → progress (record s {
        cpu_task = set_at s.cpu_task c none;
        worker = set_at s.worker c waiting;
        freed = p ∷ s.freed;
      })
        ≡ suc (progress s)
  progress-finish first p e = rw e (omega arith)
  progress-finish second p e = rw e (omega arith)

  Step-progress : (t : Shared) → Step s t → progress s ≤ progress t
  Step-progress t (arrive w lt g) = omega (arith, progress-arrive w g)
  Step-progress t (block c e empty) = omega (arith, progress-place c asleep (rw e))
  Step-progress t (wake c e) = omega (arith, progress-place c waiting (rw e))
  Step-progress t (take c e ne) = omega (arith, progress-take c e ne)
  Step-progress t (run c p e) = omega (arith, progress-run c p e)
  Step-progress t (finish c p e) = omega (arith, progress-finish c p e)

asleep-or-not : (x : Worker) → (x ≡ asleep) ⊎ (x ≢ asleep)
asleep-or-not asleep = inl refl
asleep-or-not waiting = inr (λ e. cc)
asleep-or-not (holding p) = inr (λ e. cc)
asleep-or-not (running p) = inr (λ e. cc)

module _ (w : Cpu → Worker) where
  none_asleep : w first ≢ asleep → w second ≢ asleep → (c : Cpu) → w c ≢ asleep
  none_asleep a b first = a
  none_asleep a b second = b

  -- A signal always does one thing or another.
  signal : (w' : Cpu → Worker) × Signal w w'
  signal = elim (asleep-or-not (w first)) [
    | inl e ↦ (set_at w first waiting, wakes first e)
    | inr a ↦ elim (asleep-or-not (w second)) [
      | inl e ↦ (set_at w second waiting, wakes second e)
      | inr b ↦ (w, nobody (none_asleep a b))
    ]
  ]

-- What a worker may do, or that it has no process.
abbrev Idle : Worker → Type 0
Idle x = (busy x ≡ 0) × (taken x ≡ 0) × ((k : ℕ) → has k x ≡ 0) × ((x ≡ waiting) ⊎ (x ≡ asleep))

abbrev Next : Shared → Type 0
Next s = (t : Shared) × Step s t × (progress s < progress t)

module _ (s : Shared) (v : Inv s) where
  Next-take : (c : Cpu) → s.worker c ≡ waiting → s.front ≢ s.rear → Next s
  Next-take c e ne =
      (took c (dequeue s).0 (dequeue s).1, take c e ne, omega (arith, progress-take s v c e ne))

  busy-or-Idle : (c : Cpu) (x : Worker) → s.worker c ≡ x → Next s ⊎ Idle x
  busy-or-Idle c waiting e = inr (refl, refl, (λ k. refl), inl refl)
  busy-or-Idle c asleep e = inr (refl, refl, (λ k. refl), inr refl)
  busy-or-Idle c (holding p) e = inl (_, run c p e, omega (arith, progress-run s v c p e))
  busy-or-Idle c (running p) e = inl (_, finish c p e, omega (arith, progress-finish s v c p e))

  -- With both workers idle and all five made, the queue has been emptied or one of them takes.
  Idle-AllFreed : s.i ≡ 5 → Idle (s.worker first) → Idle (s.worker second) → AllFreed s ⊎ Next s
  Idle-AllFreed made (a, _, ha, pa) (b, _, hb, pb) = elim (Bool-cases (s.front == s.rear)) [
    | inl e ↦
        let empty : s.front ≡ s.rear = (==_iff s.front s.rear).0 e in
        inl (
          omega (arith, v.size, v.rear),
          (λ k lt. ground (arith, v.once k, ha k, hb k, v.rear)),
          empty,
        )
    | inr e ↦
        let ne : s.front ≢ s.rear = λ same. ground arith in
        elim pa [
          | inl w ↦ inr (Next-take first w ne)
          | inr sleeping ↦ elim pb [
            | inl w ↦ inr (Next-take second w ne)
            | inr both ↦ absurd (ne (v.blocked sleeping both))
          ]
        ]
  ]

  made-AllFreed : s.i ≡ 5 → AllFreed s ⊎ Next s
  made-AllFreed made = elim (busy-or-Idle first (s.worker first) refl) [
    | inl next ↦ inr next
    | inr a ↦ elim (busy-or-Idle second (s.worker second) refl) [
      | inl next ↦ inr next
      | inr b ↦ Idle-AllFreed made a b
    ]
  ]

  Next-or-AllFreed : AllFreed s ⊎ Next s
  Next-or-AllFreed = elim (Bool-cases (ltb s.i 5)) [
    | inl more ↦
        let (w, g) = signal s.worker in
        inr (_, arrive w (omega tests) g, omega (arith, progress-arrive s v w g))
    | inr none_more ↦ made-AllFreed (omega (tests, v.i))
  ]

-- From every state that the two workers and main can get to, either every process was freed, once,
-- and the queue is empty, or there is a step that brings a process on. No step takes a process back,
-- and there are twenty of the steps that bring one on, so that after all of them nothing is left.
pub Reachable-Next :
    (s : Shared)
    → Reachable s
    → (progress s ≤ 20)
      × ((t : Shared) → Step s t → progress s ≤ progress t)
      × (AllFreed s ⊎ ((t : Shared) × Step s t × (progress s < progress t)))
Reachable-Next s h =
    let v = Reachable-Inv s h in (progress-le s v, Step-progress s v, Next-or-AllFreed s v)
