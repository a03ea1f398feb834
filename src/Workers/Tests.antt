-- ===== src/Workers/Tests.antt =====
-- Two steps of main and a worker, and the theorems on the state that they lead to.
use cpu_schedular.Base.{◌≡◌, ◌⊎◌, ◌≤◌, ◌<◌, refl, arith}
use cpu_schedular.Workers.{
  first, holding, Shared, start, process_of, enqueue, dequeue, took, nobody, Step, arrive, take,
  Reachable, begin, after,
}
use cpu_schedular.Workers.Invariant.{Inv, progress}
use cpu_schedular.Workers.Safety.{AllFreed, Reachable-Inv, Reachable-Next}

-- Main has made a process, and the first worker has taken it.
abbrev one_arrived : Shared
one_arrived = record (enqueue (process_of 0) start) { i = 1; worker = start.worker }

abbrev one_taken : Shared
one_taken = took first (dequeue one_arrived).0 (dequeue one_arrived).1

one_taken-Reachable : Reachable one_taken
one_taken-Reachable =
    after (after begin (arrive start.worker (omega arith) (nobody (λ c e. cc))))
      (take first refl (λ e. omega (arith, e)))

one_taken-holding : one_taken.worker first ≡ holding (process_of 0)
one_taken-holding = refl

Reachable-Inv_example : Inv one_taken
Reachable-Inv_example = Reachable-Inv one_taken one_taken-Reachable

Reachable-Next_example :
    (progress one_taken ≤ 20)
    × ((t : Shared) → Step one_taken t → progress one_taken ≤ progress t)
    × (AllFreed one_taken ⊎ ((t : Shared) × Step one_taken t × (progress one_taken < progress t)))
Reachable-Next_example = Reachable-Next one_taken one_taken-Reachable
