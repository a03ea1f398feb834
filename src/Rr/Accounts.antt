-- ===== src/Rr/Accounts.antt =====
-- The accounts of a process under round robin: no burst counts for more than a quantum.
use cpu_schedular.Base.{
  ℕ, suc, ◌<◌, ◌≤◌, ◌≡◌, refl, ap, ℤ, pos, sum, sum-append, take, take-suc, false, some, inl, inr,
  ok, arith, int_laws, tests, Bool-cases, get_elem?, get_elem?-map, get_elem?-lt, get_elem?-out,
  map, length, ltb,
}
use cpu_schedular.Process.{Process, sleep}
use cpu_schedular.Rr.{next_burst}
use cpu_schedular.Rr.Loop.{Ran, ticks}
use cpu_schedular.Sched.{should_terminate}
use cpu_schedular.Sched.Bursts.{next_cpu-work}
use cpu_schedular.Sched.Lifecycle.{Accounting, IsAsleep, IsReady, IsWellFormed, work}

-- A burst counts for the ticks of one slice; the remaining time is that of the burst at the index.
abbrev pub slices : Accounting
slices = record {
  Served = λ quantum d n time. time ≡ sum (take n (map (λ b. pos (ticks quantum b)) d.cpu_burst));
  Prepared =
      λ d n remaining. (burst : ℤ) → get_elem? d.cpu_burst n ≡ some burst → remaining ≡ burst;
}

-- The process whose burst is over, with the remaining time of the next one.
abbrev pub over_burst : Process → ℤ → Process
over_burst p remaining = record p {
  cpu_index = suc p.cpu_index;
  remaining_time = remaining;
  status = sleep;
}

-- The next burst is read in range, and sets the remaining time.
pub next_burst-Prepared :
    (p : Process)
    → IsWellFormed p.process_d
    → (remaining : ℤ) × (next_burst p ≡ ok (record p { remaining_time = remaining }))
      × slices.Prepared p.process_d p.cpu_index remaining
unfolding next_burst
next_burst-Prepared p w = elim (Bool-cases (ltb p.cpu_index p.process_d.cpu_burst_size)) [
  | inl e ↦
      let lt : p.cpu_index < length p.process_d.cpu_burst = omega (tests, w.cpu_size) in
      let (burst, found) = get_elem?-lt p.process_d.cpu_burst p.cpu_index lt in
      (burst, rw (e, found), λ b is. cc)
  | inr e ↦
      let out : length p.process_d.cpu_burst ≤ p.cpu_index = omega (tests, w.cpu_size) in
      (
        p.remaining_time,
        rw e,
        λ b is. absurd (get_elem?-out p.process_d.cpu_burst p.cpu_index b out is),
      )
]

module _ (quantum : ℕ) (p p' : Process) (a : IsReady slices quantum p) (burst remaining : ℤ)
    (found : get_elem? p.process_d.cpu_burst p.cpu_index ≡ some burst)
    (ran : Ran (ticks quantum burst) p p')
    (next : slices.Prepared p'.process_d (suc p'.cpu_index) remaining) where
  pub over_burst-IsAsleep : IsAsleep slices quantum (over_burst p' remaining)
  over_burst-IsAsleep =
      let f : ℤ → ℤ = λ b. pos (ticks quantum b) in
      record {
        accounts = record {
          well_formed = rw ran.process_d a.accounts.well_formed;
          cpu =
              rw
                (
                  ran.cpu_time,
                  ran.process_d,
                  ran.cpu_index,
                  a.accounts.cpu,
                  take-suc (map f p.process_d.cpu_burst) p.cpu_index
                      (get_elem?-map f p.process_d.cpu_burst p.cpu_index burst found),
                  sum-append,
                )
                (omega int_laws);
          io = rw (ran.io_time, ran.io_index, ran.process_d) a.accounts.io;
          total =
              rw (ran.process_time, ran.cpu_time, ran.io_time, a.accounts.total) (omega int_laws);
          prepared = next;
        };
        status = refl;
        indices = omega (arith, ran.cpu_index, ran.io_index, a.indices);
      }

  pub over_burst-work :
      should_terminate p ≡ false → work sleep (over_burst p' remaining) < work p.status p
  over_burst-work goes =
      next_cpu-work slices quantum p (over_burst p' remaining) a goes (ap suc ran.cpu_index)
        ran.io_index ran.process_d
