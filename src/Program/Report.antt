-- ===== src/Program/Report.antt =====
-- The results that are printed are those of the processes that have terminated.
use cpu_schedular.Base.{
  ◌==◌, ℕ, suc, ◌+◌, ◌<◌, ◌≤◌, ◌≡◌, ◌≢◌, refl, subst, ap, ◌∙◌, List, [], ◌∷◌, some, length,
  Bool-cases, inl, inr, ltb, arith, tests, Returns, ==_iff,
}
use cpu_schedular.Main.Correct.{AllDone, Simulated}
use cpu_schedular.Process.{BurstLine, Process}
use cpu_schedular.Queue.{Ref, Queue}
use cpu_schedular.Queue.Laws.{occurs}
use cpu_schedular.Result.{Totals, write_result}
use cpu_schedular.Result.Laws.{Behind, Printed, write_result-Printed}
use cpu_schedular.Sched.Lifecycle.{Accounting}
use cpu_schedular.Threads.{State}

AllDone-stored :
    (acc : Accounting) (n : ℕ) (ds : List BurstLine) (t : State)
    → AllDone acc n ds t
    → (r : Ref) → n ≤ r
    → r < n + length ds
    → (p : Process) × (t.store r ≡ some p)
AllDone-stored acc n [] t h r le lt = absurd (omega arith)
AllDone-stored acc n (d ∷ ds) t ((p, stored, pid, line, over), hs) r le lt =
    elim (Bool-cases (n == r)) [
      | inl same ↦
          let at : n ≡ r = (==_iff n r).0 same in (p, subst (λ x. t.store x ≡ some p) at stored)
      | inr other ↦
          let ne : n ≢ r = λ same. ground arith in
          AllDone-stored acc (suc n) ds t hs r (omega (arith, le, ne)) (omega (arith, lt))
    ]

-- Behind each node of a queue there is a process, if there is one for every node.
Behind-all :
    (t : State) (q : Queue)
    → ((r : Ref) → 0 < occurs r q → (p : Process) × (t.store r ≡ some p))
    → (ps : List Process) × Behind t q ps × (length ps ≡ length q)
Behind-all t [] each = ([], tt, refl)
Behind-all t (x ∷ q) each =
    let (p, stored) = each x.task (ground arith) in
    let (ps, behind, n) = Behind-all t q (λ r lt. each r (omega (arith, lt))) in
    (p ∷ ps, (stored, behind), ap suc n)

-- The processes that have terminated, in the order of the task list.
abbrev pub Reported : ℕ → State → Totals → Type 0
Reported n t result =
    (ps : List Process) × Behind t t.task_list ps × (length ps ≡ n) × Printed n ps result

report :
    (m : ℕ) (t : State) (ps : List Process)
    → Behind t t.task_list ps
    → length ps ≡ suc m
    → t.total_process ≡ suc m
    → Returns (Reported (suc m) t) (write_result t)
report m t [] behind count total = absurd (omega (arith, count))
report m t (p ∷ ps) behind count total =
    let (result, is, printed) = write_result-Printed t p ps behind (omega (arith, total)) in
    (result, is, (p ∷ ps, behind, count, subst (λ n. Printed n (p ∷ ps) result) total printed))

pub Simulated-Reported :
    (acc : Accounting) (d : BurstLine) (ds : List BurstLine) (t : State)
    → Simulated acc (d ∷ ds) t
    → Returns (Reported (length (d ∷ ds)) t) (write_result t)
Simulated-Reported acc d ds t s =
    let n = s.t_process in
    let size = s.listed.size in
    let each : (r : Ref) → 0 < occurs r t.task_list → (p : Process) × (t.store r ≡ some p) =
      λ r present. elim (Bool-cases (ltb r t.t_process)) [
        | inl lt ↦ AllDone-stored acc 0 (d ∷ ds) t s.done r (omega arith) (omega (tests, n))
        | inr out ↦ absurd (omega (arith, s.listed.no_other r (omega tests), present))
      ] in
    let (ps, behind, count) = Behind-all t t.task_list each in
    report (length ds) t ps behind (count ∙ size ∙ n) s.total_process
