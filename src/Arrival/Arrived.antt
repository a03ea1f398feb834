-- ===== src/Arrival/Arrived.antt =====
-- What is true once the processes of some lines have arrived.
use native.Mathlib.Nat.{add_comm}
use cpu_schedular.Queue.{Ref}
use cpu_schedular.Base.{
  some, ◌++◌, length-append, ℕ, suc, ◌+◌, ◌<◌, ◌≤◌, ◌≡◌, refl, subst, ◌∙◌, pos, List, [], ◌∷◌, Run,
  length, arith, Returns,
}
use cpu_schedular.Arrival.Invariant.{IsListed}
use cpu_schedular.Process.{BurstLine, Process, create_process}
use cpu_schedular.Sched.Invariant.{Inv}
use cpu_schedular.Sched.Lifecycle.{Accounting, IsReady}
use cpu_schedular.Threads.{identity, State, update_global_counter}

-- The line is accepted: what the scheduler sets in its process makes it ready.
abbrev pub Accepts : Accounting → (Process → Run Process) → ℕ → BurstLine → Type 0
Accepts acc prepare quantum d =
    (n : ℕ)
    → Returns (λ p. IsReady acc quantum p × (p.pid ≡ n) × (p.process_d ≡ d))
        (prepare (record (create_process n) { process_d = d }))

abbrev pub AllAccepted : Accounting → (Process → Run Process) → ℕ → List BurstLine → Type 0
AllAccepted acc prepare quantum [] = Unit {0}
AllAccepted acc prepare quantum (d ∷ ds) =
    Accepts acc prepare quantum d × AllAccepted acc prepare quantum ds

-- The process of a line of the input has its place in the input for its number.
abbrev pub HasLines : ℕ → List BurstLine → State → Type 0
HasLines n [] s = Unit {0}
HasLines n (d ∷ ds) s = (identity (s.store n) ≡ some (n, d)) × HasLines (suc n) ds s

pub HasLines-mono :
    (n : ℕ) (ds : List BurstLine) (s t : State)
    → ((r : Ref) → n ≤ r → r < n + length ds → identity (t.store r) ≡ identity (s.store r))
    → HasLines n ds s
    → HasLines n ds t
HasLines-mono n [] s t h l = tt
HasLines-mono n (d ∷ ds) s t h (l, ls) = (
  h n (omega arith) (omega arith) ∙ l,
  HasLines-mono (suc n) ds s t (λ r le lt. h r (omega arith) (omega arith)) ls,
)

HasLines-append :
    (n : ℕ) (ds es : List BurstLine) (s : State)
    → HasLines n ds s
    → HasLines (n + length ds) es s
    → HasLines n (ds ++ es) s
HasLines-append n [] es s h k = subst (λ m. HasLines m es s) (omega arith) k
HasLines-append n (d ∷ ds) es s (h, hs) k =
    (h, HasLines-append (suc n) ds es s hs (subst (λ m. HasLines m es s) (omega arith) k))

-- After the arrival of the lines `ds`.
pub record Arrived (acc : Accounting) (ds : List BurstLine) (s t : State) : Type 0 where
  pub inv : Inv acc t
  pub listed : IsListed t
  pub t_process : t.t_process ≡ length ds + s.t_process
  pub total_process : t.total_process ≡ s.total_process
  pub quantum : t.quantum ≡ s.quantum
  pub older : (r : Ref) → r < s.t_process → identity (t.store r) ≡ identity (s.store r)
  pub newer : HasLines s.t_process ds t

pub tick-Arrived :
    (acc : Accounting) (s : State)
    → Inv acc s
    → IsListed s
    → Arrived acc [] s (update_global_counter (pos 1) s)
unfolding update_global_counter
tick-Arrived acc s v l = record {
  inv = record {
    placed = v.placed;
    absent = v.absent;
    counted = v.counted;
    ready_count = v.ready_count;
    wait_count = v.wait_count;
  };
  listed = record { once = l.once; no_other = l.no_other; size = l.size };
  t_process = omega arith;
  total_process = refl;
  quantum = refl;
  older = λ r lt. refl;
  newer = tt;
}

pub Arrived-refl : (acc : Accounting) (s : State) → Inv acc s → IsListed s → Arrived acc [] s s
Arrived-refl acc s v l = record {
  inv = v;
  listed = l;
  t_process = omega arith;
  total_process = refl;
  quantum = refl;
  older = λ r lt. refl;
  newer = tt;
}

pub Arrived-trans :
    (acc : Accounting) (ds es : List BurstLine) (s t u : State)
    → Arrived acc ds s t
    → Arrived acc es t u
    → Arrived acc (ds ++ es) s u
Arrived-trans acc ds es s t u h g = record {
  inv = g.inv;
  listed = g.listed;
  t_process = omega (arith, h.t_process, g.t_process, length-append ds es);
  total_process = g.total_process ∙ h.total_process;
  quantum = g.quantum ∙ h.quantum;
  older = λ r lt. g.older r (omega (arith, h.t_process)) ∙ h.older r lt;
  newer =
      HasLines-append s.t_process ds es u
        (HasLines-mono s.t_process ds t u (λ r le lt. g.older r (omega (arith, h.t_process)))
          h.newer)
        (subst (λ n. HasLines n es u) (h.t_process ∙ add_comm _ _) g.newer);
}
