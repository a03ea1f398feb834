-- ===== src/Result/Laws.antt =====
-- The results that are printed, against sums and maxima over the processes of the task list.
use cpu_schedular.Base.{
  ℕ, ap, if◌then◌else◌, ◌<◌, ◌≡◌, refl, ◌⊎◌, inl, inr, ◌∙◌, ℤ, pos, ◌+ℤ◌, ◌/ℤ◌, ◌≤ℤ◌, ltb_ℤ, sum,
  map, List, [], ◌∷◌, some, false, ◌==◌, arith, tests, int_laws, Bool-cases, Returns,
}
use cpu_schedular.Process.{Process}
use cpu_schedular.Queue.{Queue}
use cpu_schedular.Result.{Totals, add_turnaround, add_wall_time, totals, no_totals, write_result}
use cpu_schedular.Threads.{State}
use cpu_schedular.Time.{Timespec, timespec_add}

-- The processes behind the nodes of a queue.
abbrev pub Behind : State → Queue → List Process → Type 0
Behind s [] [] = Unit {0}
Behind s [] (p ∷ ps) = ⊥
Behind s (x ∷ q) [] = ⊥
Behind s (x ∷ q) (p ∷ ps) = (s.store x.task ≡ some p) × Behind s q ps

abbrev pub turnarounds : List Process → List ℤ
turnarounds ps = map (λ p. p.turnaround_time) ps

-- The wall time of all processes but the last.
abbrev pub wall_total : Timespec → List Process → Timespec
wall_total t [] = t
wall_total t (p ∷ []) = t
wall_total t (p ∷ q ∷ ps) = wall_total (timespec_add t p.wall_time) (q ∷ ps)

-- No number of the list is greater.
abbrev pub IsAbove : ℤ → List ℤ → Type 0
IsAbove m [] = Unit {0}
IsAbove m (x ∷ xs) = (x ≤ℤ m) × IsAbove m xs

abbrev pub IsIn : ℤ → List ℤ → Type 0
IsIn m [] = ⊥
IsIn m (x ∷ xs) = (m ≡ x) ⊎ IsIn m xs

-- The totals of the processes, on top of those before.
pub record Counts (ps : List Process) (before after : Totals) : Type 0 where
  pub t_avg : after.t_avg ≡ before.t_avg +ℤ sum (turnarounds ps)
  pub above : IsAbove after.t_max (turnarounds ps)
  pub above_before : before.t_max ≤ℤ after.t_max
  pub found : (after.t_max ≡ before.t_max) ⊎ IsIn after.t_max (turnarounds ps)
  pub ts : after.ts ≡ wall_total before.ts ps

-- The larger of two numbers, as the code takes it.
abbrev larger : ℤ → ℤ → ℤ
larger m x = if ltb_ℤ m x then x else m

larger-bounds :
    (m x : ℤ) → (x ≤ℤ larger m x) × (m ≤ℤ larger m x) × ((larger m x ≡ m) ⊎ (larger m x ≡ x))
larger-bounds m x = elim (Bool-cases (ltb_ℤ m x)) [
  | inl less ↦ rw less (omega arith, omega tests, inr refl)
  | inr more ↦ rw more (omega tests, omega arith, inl refl)
]

-- One process more, in front of others or alone.
Counts-one : (p : Process) (t : Totals) → Counts (p ∷ []) t (add_turnaround p t)
Counts-one p t =
    let (a, b, c) = larger-bounds t.t_max p.turnaround_time in
    record {
      t_avg = omega int_laws;
      above = (a, tt);
      above_before = b;
      found = elim c [ inl e ↦ inl e | inr e ↦ inr (inl e) ];
      ts = refl;
    }

Counts-next :
    (p q : Process) (ps : List Process) (t u : Totals)
    → Counts (q ∷ ps) (add_turnaround p (add_wall_time p t)) u
    → Counts (p ∷ q ∷ ps) t u
Counts-next p q ps t u c =
    let (a, b, e) = larger-bounds t.t_max p.turnaround_time in
    record {
      t_avg = c.t_avg ∙ (omega int_laws);
      above = (omega (arith, a, c.above_before), c.above);
      above_before = omega (arith, b, c.above_before);
      found = elim c.found [
        | inr k ↦ inr (inr k)
        | inl k ↦ elim e [ inl same ↦ inl (k ∙ same) | inr same ↦ inr (inl (k ∙ same)) ]
      ];
      ts = c.ts;
    }

totals-Counts :
    (s : State) (q : Queue) (p : Process) (ps : List Process) (t : Totals)
    → Behind s q (p ∷ ps)
    → Returns (Counts (p ∷ ps) t) (totals s q t)
unfolding totals
totals-Counts s [] p ps t h = absurd h
totals-Counts s (x ∷ []) p [] t (e, h) = (_, rw e, Counts-one p t)
totals-Counts s (x ∷ []) p (p' ∷ ps) t (e, h) = absurd h
totals-Counts s (x ∷ y ∷ q) p [] t (e, h) = absurd h
totals-Counts s (x ∷ y ∷ q) p (p' ∷ ps) t (e, h) =
    let (u, is, c) = totals-Counts s (y ∷ q) p' ps (add_turnaround p (add_wall_time p t)) h in
    (u, rw e is, Counts-next p p' ps t u c)

-- What is printed of the processes.
pub record Printed (total : ℕ) (ps : List Process) (t : Totals) : Type 0 where
  pub t_avg : t.t_avg ≡ sum (turnarounds ps) /ℤ total
  pub above : IsAbove t.t_max (turnarounds ps)
  pub at_least : pos 0 ≤ℤ t.t_max
  pub found : (t.t_max ≡ pos 0) ⊎ IsIn t.t_max (turnarounds ps)
  pub ts : t.ts ≡ wall_total (record { tv_sec = pos 0; tv_nsec = pos 0 }) ps

-- If the nodes of the task list hold processes of the store, at least one, and the number of
-- processes is not zero, `write_result` returns without a fault. It prints the sum of the
-- turnaround times divided by the number of processes, the greatest of them, or 0 if none is
-- positive, and the sum of the wall times of all processes but the last.
pub write_result-Printed :
    (s : State) (p : Process) (ps : List Process)
    → Behind s s.task_list (p ∷ ps)
    → 0 < s.total_process
    → Returns (Printed s.total_process (p ∷ ps)) (write_result s)
unfolding write_result
write_result-Printed s p ps h some_process =
    let (t, is, c) = totals-Counts s s.task_list p ps no_totals h in
    let divides : (s.total_process == 0) ≡ false = ground arith in
    (
      _,
      rw (is, divides),
      record {
        t_avg = ap (λ n. n /ℤ s.total_process) (c.t_avg ∙ (omega int_laws));
        above = c.above;
        at_least = c.above_before;
        found = c.found;
        ts = c.ts;
      },
    )
