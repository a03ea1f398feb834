-- ===== src/Interleaved/Finish.antt =====
-- With steps enough for each thread both leave their loops, and then all processes have terminated.
use cpu_schedular.Base.{
  length, ◌⊎◌, ◌+◌, ◌*◌, ◌≤◌, ◌<◌, ◌≡◌, refl, sym, ◌∙◌, subst, List, [], ◌∷◌, ◌++◌, ok, >>=-eq-ok,
  Returns, arith, inl, inr,
}
use cpu_schedular.Interleaved.Policy.{StepPolicy}
use cpu_schedular.Interleaved.{Point, left, System, step, steps}
use cpu_schedular.Interleaved.Due.{count, one-Due, steps-Due}
use cpu_schedular.Interleaved.Invariant.{Balanced, distance, potential}
use cpu_schedular.Interleaved.Safety.{started, started-Balanced, Keeps, Keeps-trans, steps-Keeps}
use cpu_schedular.Interleaved.Settled.{settled}
use cpu_schedular.Sched.Invariant.{Inv}
use cpu_schedular.Sched.Progress.{Round, Round-refl}
use cpu_schedular.Sched.Work.{state_work}
use cpu_schedular.Simulation.{Turn, scheduler, wakeup, join}
use cpu_schedular.Simulation.Finish.{Finished, counted-Finished, Finished-work}
use cpu_schedular.Sched.Lifecycle.{Accounting}
use cpu_schedular.Threads.{State}

-- In each pass both threads make three steps or more, so that each comes past all of its tests.
abbrev pub IsFair : List (List Turn) → Type 0
IsFair [] = Unit {0}
IsFair (ts ∷ ps) = (3 ≤ count scheduler ts) × (3 ≤ count wakeup ts) × IsFair ps

distance-left : (at : Point) → distance at ≡ 0 → at ≡ left
distance-left left e = refl
distance-left _ e = absurd (omega arith)

-- Both threads at the end.
abbrev pub ended : State → System
ended s = record { shared = s; cpu = left; io = left }

fair_count : (t : Turn) (ts : List Turn) (ps : List (List Turn)) → IsFair (ts ∷ ps) → 3 ≤ count t ts
fair_count scheduler ts ps f = f.0
fair_count wakeup ts ps f = f.1

at_end : (x : System) → x.cpu ≡ left → x.io ≡ left → x ≡ ended x.shared
at_end x c i = ground arith

module _ (acc : Accounting) (s : State) (v : Balanced acc (ended s)) where
  ended-Inv : Inv acc s
  ended-Inv = record {
    placed = v.inv.placed;
    absent = v.inv.absent;
    counted = v.inv.counted;
    ready_count = omega (arith, v.counts.ready);
    wait_count = omega (arith, v.counts.wait);
  }

  ended-Finished : s.total_process ≡ s.t_process → Finished acc s
  ended-Finished n = counted-Finished acc s ended-Inv (omega (arith, v.counts.cpu))

  ended-potential : s.total_process ≡ s.t_process → potential (ended s) ≡ 0
  ended-potential n =
      let f = counted-Finished acc (settled (ended s)) v.inv (omega (arith, v.counts.cpu)) in
      let z = Finished-work acc (settled (ended s)) v.inv f in omega (arith, z)

module _ (pol : StepPolicy) where
  steps-append :
      (ts us : List Turn) (x y : System)
      → steps pol.ops pol.hold ts x ≡ ok y
      → steps pol.ops pol.hold (ts ++ us) x ≡ steps pol.ops pol.hold us y
  unfolding steps
  steps-append [] us x y e = let same : x ≡ y = cc in rw same
  steps-append (t ∷ ts) us x y e =
      let (z, is, are) = >>=-eq-ok (step pol.ops pol.hold t x) (steps pol.ops pol.hold ts) e in
      rw is (steps-append ts us z y are)

  pass :
      (ts : List Turn) (ps : List (List Turn)) (x : System)
      → Balanced pol.acc x
      → x.shared.total_process ≡ x.shared.t_process
      → IsFair (ts ∷ ps)
      → Returns
          (λ y. Keeps pol.acc x y × ((potential y < potential x) ⊎ (potential y ≡ 0)))
          (steps pol.ops pol.hold ts x)
  pass ts ps x v n fair = elim (one-Due pol.acc x v n) [
    | inl (c, i) ↦
        let (y, is, keeps) = steps-Keeps pol ts x v in
        let le = keeps.2 in
        let here = at_end x c i in
        let z : potential (ended x.shared) ≡ 0 =
          ended-potential pol.acc x.shared (subst (Balanced pol.acc) here v) n in
        let z' : potential x ≡ 0 = subst (λ u. potential u ≡ 0) (sym here) z in
        (y, is, (keeps, inr (omega (arith, le, z'))))
    | inr (t, why, d) ↦
        let (y, is, (keeps, less)) = steps-Due pol t why ts 3 x v d (fair_count t ts ps fair) in
        (y, is, (keeps, inl less))
  ]

  passes :
      (ps : List (List Turn)) (x : System)
      → Balanced pol.acc x
      → x.shared.total_process ≡ x.shared.t_process
      → IsFair ps
      → potential x ≤ length ps
      → Returns (λ y. Keeps pol.acc x y × (potential y ≡ 0)) (steps pol.ops pol.hold (join ps) x)
  unfolding steps join
  passes [] x v n f le =
      (x, refl, ((v, Round-refl pol.acc (settled x) v.inv, omega arith), omega arith))
  passes (ts ∷ ps) x v n f le =
      let (y, is, (keeps, moved)) = pass ts ps x v n f in
      let round = keeps.1 in
      let le' : potential y ≤ length ps = elim moved [
        | inl less ↦ omega arith
        | inr none_left ↦ omega arith
      ] in
      let (z, are, (rest, done)) =
        passes ps y keeps.0 (round.total_process ∙ n ∙ sym round.t_process) f.2 le' in
      (z, steps-append ts (join ps) x y is ∙ are, (Keeps-trans pol.acc x y z keeps rest, done))

  -- From a state in which all processes have arrived, with the invariant of the rounds, and both
  -- threads at the heads of their loops: as many fair passes of steps as twelve times the work and
  -- sixteen, or more, return without a fault, whatever the order of the steps. Then both threads have
  -- left their loops, the queues are empty, and all processes have terminated with the accounts of
  -- all their bursts. The invariant, the task list and the identity of each process are kept.
  pub steps-Finished :
      (ps : List (List Turn)) (s : State)
      → Inv pol.acc s
      → s.total_process ≡ s.t_process
      → IsFair ps
      → 12 * state_work s + 16 ≤ length ps
      → Returns
          (λ y.
            (y.cpu ≡ left) × (y.io ≡ left) × Round pol.acc s y.shared × Finished pol.acc y.shared)
          (steps pol.ops pol.hold (join ps) (started s))
  steps-Finished ps s v n fair le =
      let (y, is, ((b, round, _), z)) =
        passes ps (started s) (started-Balanced pol.acc s v) n fair (omega arith) in
      let c = distance-left y.cpu (omega (arith, z)) in
      let i = distance-left y.io (omega (arith, z)) in
      let e = subst (Balanced pol.acc) (at_end y c i) b in
      let total = round.total_process ∙ n ∙ sym round.t_process in
      (
        y,
        is,
        (
          c,
          i,
          record {
            inv = ended-Inv pol.acc y.shared e;
            t_process = round.t_process;
            total_process = round.total_process;
            quantum = round.quantum;
            task_list = round.task_list;
            identity = round.identity;
            work = round.work;
          },
          ended-Finished pol.acc y.shared e total,
        ),
      )
