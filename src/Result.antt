-- ===== src/Result.antt =====
-- src/result.c, `write_result`: what the program prints of the processes at the end.
pub mod Laws
use cpu_schedular.Base.{
  ℤ, pos, ◌+ℤ◌, ◌/ℤ◌, ltb_ℤ, List, [], ◌∷◌, Run, ok, fault, ◌>>=◌, read, if◌then◌else◌, ◌==◌,
}
use cpu_schedular.Process.{Process}
use cpu_schedular.Queue.{Ref, Queue}
use cpu_schedular.Threads.{State}
use cpu_schedular.Time.{Timespec, timespec_add}

-- `t_avg`, `t_max` and `ts`.
pub record Totals : Type 0 where
  pub t_avg : ℤ
  pub t_max : ℤ
  pub ts : Timespec

-- The turnaround time of a process goes to the sum and to the maximum.
abbrev pub add_turnaround : Process → Totals → Totals
add_turnaround p t = record t {
  t_avg = t.t_avg +ℤ p.turnaround_time;
  t_max = if ltb_ℤ t.t_max p.turnaround_time then p.turnaround_time else t.t_max;
}

abbrev pub add_wall_time : Process → Totals → Totals
add_wall_time p t = record t { ts = timespec_add t.ts p.wall_time }

-- `Traverse` stops before the last node, which the code after the loop reads. It reads a null
-- pointer if there is no node.
unfoldable pub totals : State → Queue → Totals → Run Totals
totals s [] t = fault
totals s (x ∷ []) t = do p ← read (s.store x.task); ok (add_turnaround p t)
totals s (x ∷ y ∷ q) t = do
  p ← read (s.store x.task)
  totals s (y ∷ q) (add_turnaround p (add_wall_time p t))

abbrev pub no_totals : Totals
no_totals = record { t_avg = pos 0; t_max = pos 0; ts = record { tv_sec = pos 0; tv_nsec = pos 0 } }

-- The division is by `TOTAL_PROCESS`, and undefined if that is zero.
unfoldable pub write_result : State → Run Totals
write_result s = do
  t ← totals s s.task_list no_totals
  if s.total_process == 0 then fault else ok (record t { t_avg = t.t_avg /ℤ s.total_process })
