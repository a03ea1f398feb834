-- ===== src/Interleaved/Due.antt =====
-- Between two steps one of the threads is about to make a step that counts, or both have left.
use cpu_schedular.Base.{
  ℕ, zero, suc, ◌+◌, ◌-◌, ◌≤◌, ◌<◌, ◌≡◌, ◌⊎◌, refl, [], ◌∷◌, List, Returns, length, arith, inl, inr,
  leb, tests, Bool-cases, ◌==◌, ==_iff,
}
use cpu_schedular.Interleaved.Policy.{StepPolicy}
use cpu_schedular.Interleaved.{Point, testing, testing_done, trying, left, System, steps}
use cpu_schedular.Interleaved.Invariant.{
  Balanced, EndsWell, Reason, over, up, busy, Drives, due, claims, owes, potential,
}
use cpu_schedular.Interleaved.Safety.{
  StepMoves, step-Moves, StepMoves-Keeps, Keeps, Keeps-trans, steps-Keeps,
}
use cpu_schedular.Interleaved.Settled.{taken, worked, length-ready, length-wait}
use cpu_schedular.Simulation.{Turn, scheduler, wakeup}
use cpu_schedular.Sched.Lifecycle.{Accounting}
use cpu_schedular.Threads.{State}

-- After at most `n` steps of its own the thread makes one that is not idle.
abbrev pub Due : Turn → Reason → ℕ → System → Type 0
Due scheduler why n x =
    Drives why x.shared x.shared.ready_count × (0 < due why x.cpu) × (due why x.cpu ≤ n)
Due wakeup why n x =
    Drives why x.shared x.shared.wait_count × (0 < due why x.io) × (due why x.io ≤ n)

abbrev is_turn : Turn → Turn → ℕ
is_turn scheduler scheduler = 1
is_turn wakeup wakeup = 1
is_turn _ _ = 0

-- How many of the steps are those of the thread.
abbrev pub count : Turn → List Turn → ℕ
count t [] = 0
count t (u ∷ us) = is_turn t u + count t us

Due-step :
    (acc : Accounting) (t u : Turn) (why : Reason) (n : ℕ) (x y : System)
    → Due t why n x
    → StepMoves acc u x y
    → (potential y < potential x) ⊎ Due t why (n - is_turn t u) y
Due-step acc scheduler scheduler why n x y (d, lt, le) (same, (_, _, _, inl less)) = inl less
Due-step acc scheduler scheduler why n x y (d, lt, le) (same, (_, _, _, inr (shared, idle))) =
    let (lt', less) = idle why d lt in inr (rw shared d, lt', omega arith)
Due-step acc scheduler wakeup why n x y (d, lt, le) (same, (_, _, _, inl less)) = inl less
Due-step acc scheduler wakeup why n x y (d, lt, le) (same, (_, _, _, inr (shared, idle))) =
    inr (rw shared d, rw same lt, rw same (omega arith))
Due-step acc wakeup scheduler why n x y (d, lt, le) (same, (_, _, _, inl less)) = inl less
Due-step acc wakeup scheduler why n x y (d, lt, le) (same, (_, _, _, inr (shared, idle))) =
    inr (rw shared d, rw same lt, rw same (omega arith))
Due-step acc wakeup wakeup why n x y (d, lt, le) (same, (_, _, _, inl less)) = inl less
Due-step acc wakeup wakeup why n x y (d, lt, le) (same, (_, _, _, inr (shared, idle))) =
    let (lt', less) = idle why d lt in inr (rw shared d, lt', omega arith)

Due-pos : (t : Turn) (why : Reason) (x : System) → ¬ Due t why 0 x
Due-pos scheduler why x (d, lt, le) = omega arith
Due-pos wakeup why x (d, lt, le) = omega arith

module _ (pol : StepPolicy) (t : Turn) (why : Reason) where
  -- Steps among which are enough of the thread that is due bring the whole closer to the end.
  pub steps-Due :
      (ts : List Turn) (n : ℕ) (x : System)
      → Balanced pol.acc x
      → Due t why n x
      → n ≤ count t ts
      → Returns (λ y. Keeps pol.acc x y × (potential y < potential x)) (steps pol.ops pol.hold ts x)
  unfolding steps
  steps-Due [] zero x v d le = absurd (Due-pos t why x d)
  steps-Due [] (suc n) x v d le = absurd (omega arith)
  steps-Due (u ∷ ts) n x v d le =
      let (y, is, moves) = step-Moves pol u x v in
      let keeps = StepMoves-Keeps pol.acc u x y moves in
      elim (Due-step pol.acc t u why n x y d moves) [
        | inl less ↦
            let (z, are, rest) = steps-Keeps pol ts y keeps.0 in
            let le' = rest.2 in
            (z, rw is are, (Keeps-trans pol.acc x y z keeps rest, omega (arith, le')))
        | inr d' ↦
            let (z, are, (rest, less)) =
              steps-Due ts (n - is_turn t u) y keeps.0 d' (omega arith) in
            let le' = keeps.2 in
            (z, rw is are, (Keeps-trans pol.acc x y z keeps rest, omega (arith, le')))
      ]

due-le : (why : Reason) (at : Point) → due why at ≤ 3
due-le why left = omega arith
due-le over _ = omega arith
due-le up _ = omega arith
due-le busy _ = omega arith

left-or-due : (at : Point) → (at ≡ left) ⊎ (0 < due over at)
left-or-due left = inl refl
left-or-due _ = inr (omega arith)

-- A thread that goes on and is not busy holds no process and owes nothing.
record Free (at : Point) : Type 0 where
  claims : claims at ≡ 0
  owes : owes at ≡ 0
  taken : length (taken at) ≡ 0
  worked : length (worked at) ≡ 0
  due : 0 < due up at

busy-or-Free :
    (s : State) (at : Point)
    → EndsWell s at
    → s.terminated_process < s.total_process
    → (0 < due busy at) ⊎ Free at
busy-or-Free s left ends more = absurd (omega arith)
busy-or-Free s testing ends more =
    inr (record { claims = refl; owes = refl; taken = refl; worked = refl; due = omega arith })
busy-or-Free s testing_done ends more =
    inr (record { claims = refl; owes = refl; taken = refl; worked = refl; due = omega arith })
busy-or-Free s trying ends more =
    inr (record { claims = refl; owes = refl; taken = refl; worked = refl; due = omega arith })
busy-or-Free s _ ends more = inl (omega arith)

module _ (acc : Accounting) (x : System) (v : Balanced acc x)
    (total : x.shared.total_process ≡ x.shared.t_process) where
  Free-Due :
      x.shared.terminated_process < x.shared.total_process
      → Free x.cpu
      → Free x.io
      → (t : Turn) × (why : Reason) × Due t why 3 x
  Free-Due more f g =
      let n = v.inv.counted in
      elim (Bool-cases (x.shared.ready_count == 0)) [
        | inr some_up ↦ (scheduler, up, (ground arith, f.due, due-le up x.cpu))
        | inl none_up ↦ (
          wakeup,
          up,
          (
            omega (
              arith,
              n,
              v.counts.ready,
              v.counts.wait,
              length-ready x,
              length-wait x,
              (==_iff x.shared.ready_count 0).0 none_up,
              f.claims,
              f.owes,
              f.taken,
              f.worked,
              g.claims,
              g.owes,
              g.taken,
              g.worked,
            ),
            g.due,
            due-le up x.io,
          ),
        )
      ]

  over-Due :
      x.shared.total_process ≤ x.shared.terminated_process
      → ((x.cpu ≡ left) × (x.io ≡ left)) ⊎ ((t : Turn) × (why : Reason) × Due t why 3 x)
  over-Due end = elim (left-or-due x.cpu) [
    | inr lt ↦ inr (scheduler, over, (end, lt, due-le over x.cpu))
    | inl gone ↦ elim (left-or-due x.io) [
      | inr lt ↦ inr (wakeup, over, (end, lt, due-le over x.io))
      | inl gone' ↦ inl (gone, gone')
    ]
  ]

  -- Either both threads have left their loops, or one of them is due.
  pub one-Due : ((x.cpu ≡ left) × (x.io ≡ left)) ⊎ ((t : Turn) × (why : Reason) × Due t why 3 x)
  one-Due = elim (Bool-cases (leb x.shared.total_process x.shared.terminated_process)) [
    | inl end ↦ over-Due (omega tests)
    | inr more ↦
        let lt : x.shared.terminated_process < x.shared.total_process = omega tests in
        elim (busy-or-Free x.shared x.cpu v.counts.cpu lt) [
          | inl now ↦ inr (scheduler, busy, (tt, now, due-le busy x.cpu))
          | inr f ↦ elim (busy-or-Free x.shared x.io v.counts.io lt) [
            | inl now ↦ inr (wakeup, busy, (tt, now, due-le busy x.io))
            | inr g ↦ inr (Free-Due lt f g)
          ]
        ]
  ]
