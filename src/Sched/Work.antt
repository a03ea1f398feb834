-- ===== src/Sched/Work.antt =====
-- The bursts that the processes of the store still have before them.
use cpu_schedular.Base.{
  ℕ, zero, suc, ◌+◌, ◌<◌, ◌≤◌, ◌≡◌, ◌≢◌, Option, some, none, arith, ◌==◌, ==_iff, Bool-cases, inl,
  inr, refl,
}
use cpu_schedular.Process.{Status, terminated, Process}
use cpu_schedular.Queue.{Ref}
use cpu_schedular.Sched.Lifecycle.{Writes, work}
use cpu_schedular.Threads.{State}

-- It depends on the line and the indices alone.
pub work-same :
    (status : Status) (p p' : Process)
    → p'.process_d ≡ p.process_d
    → p'.cpu_index ≡ p.cpu_index
    → p'.io_index ≡ p.io_index
    → work status p' ≡ work status p
work-same terminated p p' d c i = refl
work-same _ p p' d c i = rw (d, c, i)

abbrev pub work_at : Option Process → ℕ
work_at none = 0
work_at (some p) = work p.status p

pub total_work : ℕ → (Ref → Option Process) → ℕ
total_work zero store = 0
total_work (suc n) store = work_at (store n) + total_work n store

module _ {r : Ref} {f g : Ref → Option Process} (same : (q : Ref) → q ≢ r → g q ≡ f q) where
  total_work-eq : (n : ℕ) → n ≤ r → total_work n g ≡ total_work n f
  unfolding total_work
  total_work-eq zero h = refl
  total_work-eq (suc n) h = rw (same n (λ e. omega arith), total_work-eq n (omega arith))

  total_work-lt : (n : ℕ) → r < n → work_at (g r) < work_at (f r) → total_work n g < total_work n f
  unfolding total_work
  total_work-lt zero h less = absurd (omega arith)
  total_work-lt (suc n) h less = elim (Bool-cases (n == r)) [
    | inl e ↦
        let here : n ≡ r = (==_iff n r).0 e in
        rw here (omega (arith, total_work-eq r (omega arith)))
    | inr e ↦
        let ne : n ≢ r = λ k. ground arith in
        rw (same n ne) (omega (arith, total_work-lt n (ground arith) less))
  ]

pub total_work-same :
    (n : ℕ) (f g : Ref → Option Process)
    → ((r : Ref) → work_at (g r) ≡ work_at (f r))
    → total_work n g ≡ total_work n f
unfolding total_work
total_work-same zero f g h = refl
total_work-same (suc n) f g h = omega (arith, h n, total_work-same n f g h)

pub total_work-none : (f : Ref → Option Process) → total_work 0 f ≡ 0
unfolding total_work
total_work-none f = refl

pub total_work-suc :
    (n : ℕ) (f : Ref → Option Process) → total_work (suc n) f ≡ work_at (f n) + total_work n f
unfolding total_work
total_work-suc n f = refl

pub total_work-zero :
    (n : ℕ) (f : Ref → Option Process)
    → ((r : Ref) → r < n → work_at (f r) ≡ 0)
    → total_work n f ≡ 0
unfolding total_work
total_work-zero zero f h = refl
total_work-zero (suc n) f h =
    omega (arith, h n (omega arith), total_work-zero n f (λ r lt. h r (omega arith)))

pub work_at-le :
    (n : ℕ) (f : Ref → Option Process) (r : Ref) → r < n → work_at (f r) ≤ total_work n f
unfolding total_work
work_at-le zero f r h = absurd (omega arith)
work_at-le (suc n) f r h = elim (Bool-cases (n == r)) [
  | inl e ↦ let here : n ≡ r = (==_iff n r).0 e in rw here (omega arith)
  | inr e ↦ omega (arith, work_at-le n f r (ground arith))
]

abbrev pub state_work : State → ℕ
state_work s = total_work s.t_process s.store

-- A step that brings one process forward brings the whole forward.
pub Writes-work :
    (r : Ref) (p p' : Process) (s t : State)
    → Writes r p' s t
    → s.store r ≡ some p
    → r < s.t_process
    → work p'.status p' < work p.status p
    → state_work t < state_work s
Writes-work r p p' s t h e lt less =
    let here = h.here in
    rw h.t_process (total_work-lt h.elsewhere s.t_process lt (rw (here, e) less))
