-- ===== src/Main/Start.antt =====
-- The state that the arrival thread finds, and the work that it leaves.
use cpu_schedular.Arrival.Invariant.{IsListed}
use cpu_schedular.Arrival.Arrived.{HasLines}
use cpu_schedular.Base.{
  ℕ, suc, ◌+◌, ◌*◌, ◌≤◌, ◌≡◌, refl, subst, Option, none, some, List, [], ◌∷◌, length, arith,
}
use cpu_schedular.Process.{BurstLine, Process, terminated, Status}
use cpu_schedular.Sched.Invariant.{Inv}
use cpu_schedular.Sched.Lifecycle.{Accounting, work}
use cpu_schedular.Sched.Work.{total_work, work_at, total_work-suc, state_work, total_work-none}
use cpu_schedular.Threads.{State, identity, init}
use cpu_schedular.Time.{Timespec}

module _ (total : ℕ) (clock : ℕ → Timespec) where
  pub init-Inv : (acc : Accounting) → Inv acc (init total clock)
  unfolding init
  init-Inv acc = record {
    placed = λ r lt. absurd (omega arith);
    absent = λ r le. (refl, refl);
    counted = refl;
    ready_count = refl;
    wait_count = refl;
  }

  pub init-IsListed : IsListed (init total clock)
  unfolding init
  init-IsListed = record {
    once = λ r lt. absurd (omega arith);
    no_other = λ r le. refl;
    size = refl;
  }

-- A pass for each burst and for the end of each process, with CPU bursts counted twice.
abbrev pub input_work : List BurstLine → ℕ
input_work [] = 0
input_work (d ∷ ds) = suc (2 * d.cpu_burst_size) + input_work ds

work-le : (status : Status) (p : Process) → work status p ≤ suc (2 * p.process_d.cpu_burst_size)
work-le terminated p = omega arith
work-le _ p = omega arith

work_at-line :
    (o : Option Process) (n : ℕ) (d : BurstLine)
    → identity o ≡ some (n, d)
    → work_at o ≤ suc (2 * d.cpu_burst_size)
work_at-line none n d e = absurd cc
work_at-line (some p) n d e =
    let same : p.process_d ≡ d = cc in
    subst (λ x. work p.status p ≤ suc (2 * x.cpu_burst_size)) same (work-le p.status p)

total_work-lines :
    (n k : ℕ) (ds : List BurstLine) (s : State)
    → k ≡ n + length ds
    → HasLines n ds s
    → total_work k s.store ≤ total_work n s.store + input_work ds
total_work-lines n k [] s e h = let same : k ≡ n = omega arith in rw same (omega arith)
total_work-lines n k (d ∷ ds) s e (h, hs) = omega (
  arith,
  total_work-lines (suc n) k ds s (omega arith) hs,
  total_work-suc n s.store,
  work_at-line (s.store n) n d h,
)

-- When the lines have arrived the work is at most that of the input.
pub state_work-le :
    (ds : List BurstLine) (s : State)
    → s.t_process ≡ length ds
    → HasLines 0 ds s
    → state_work s ≤ input_work ds
state_work-le ds s e h =
    omega (arith, total_work-lines 0 s.t_process ds s (omega (arith, e)) h, total_work-none s.store)
