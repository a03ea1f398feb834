-- ===== src/Workers/Invariant.antt =====
-- What is true in every state that the two workers and main can get to.
use cpu_schedular.Base.{
  ℕ, suc, ◌+◌, ◌*◌, ◌≤◌, ◌<◌, ◌≡◌, refl, Option, none, some, List, [], ◌∷◌, ltb, ◌==◌,
  if◌then◌else◌, arith,
}
use cpu_schedular.Workers.{
  Process, Cpu, first, second, Worker, waiting, asleep, holding, running, Shared, start, set_at,
  process_of, Signal, nobody, wakes, wakes_both,
}

-- How often a process is in the hands of a worker.
abbrev pub has : ℕ → Worker → ℕ
has k waiting = 0
has k asleep = 0
has k (holding p) = if p.id == k then 1 else 0
has k (running p) = if p.id == k then 1 else 0

-- How often a process was freed.
abbrev pub count : ℕ → List Process → ℕ
count k [] = 0
count k (p ∷ ps) = (if p.id == k then 1 else 0) + count k ps

-- What a CPU shows.
abbrev pub shown : Worker → Option Process
shown waiting = none
shown asleep = none
shown (holding p) = none
shown (running p) = some p

-- How many steps of a worker its process has had since it was taken.
abbrev pub taken : Worker → ℕ
taken waiting = 0
taken asleep = 0
taken (holding p) = 1
taken (running p) = 2

-- Whether a worker has a process.
abbrev pub busy : Worker → ℕ
busy waiting = 0
busy asleep = 0
busy (holding p) = 1
busy (running p) = 1

abbrev pub length : List Process → ℕ
length [] = 0
length (p ∷ ps) = suc (length ps)

-- The steps that bring a process on: it is put into the queue, is taken, runs, and is freed.
abbrev pub progress : Shared → ℕ
progress s = s.i + taken (s.worker first) + taken (s.worker second) + 3 * length s.freed

-- The queue holds the processes that main has made, in their order. Each process before the front
-- is in the hands of one worker, or was freed, once, and no other is. Each CPU shows the process that
-- runs on it. Both workers are blocked with an empty queue only.
pub record Inv (s : Shared) : Type 0 where
  pub front : s.front ≤ s.rear
  pub rear : s.rear ≡ s.i
  pub i : s.i ≤ 5
  pub queued : (k : ℕ) → k < s.rear → s.ready_queue k ≡ some (process_of k)
  pub once :
      (k : ℕ)
      → has k (s.worker first) + has k (s.worker second) + count k s.freed
        ≡ (if ltb k s.front then 1 else 0)
  pub shows : (c : Cpu) → s.cpu_task c ≡ shown (s.worker c)
  pub blocked : s.worker first ≡ asleep → s.worker second ≡ asleep → s.front ≡ s.rear
  pub size : busy (s.worker first) + busy (s.worker second) + length s.freed ≡ s.front

pub start-Inv : Inv start
start-Inv = record {
  front = omega arith;
  rear = refl;
  i = omega arith;
  queued = λ k lt. absurd (omega arith);
  once = λ k. ground arith;
  shows = λ c. refl;
  blocked = λ a b. refl;
  size = refl;
}

-- What is seen of a worker at its place.
pub record Like (x y : Worker) : Type 0 where
  pub has : (k : ℕ) → has k x ≡ has k y
  pub shown : shown x ≡ shown y
  pub busy : busy x ≡ busy y
  pub taken : taken x ≡ taken y

pub waiting-Like : (x : Worker) → x ≡ asleep → Like waiting x
waiting-Like x e = record { has = λ k. rw e; shown = rw e; busy = rw e; taken = rw e }

pub asleep-Like : (x : Worker) → x ≡ waiting → Like asleep x
asleep-Like x e = record { has = λ k. rw e; shown = rw e; busy = rw e; taken = rw e }

-- A worker that is woken is not asleep.
pub woken :
    (s : Shared) (c : Cpu)
    → set_at s.worker c waiting first ≡ asleep
    → set_at s.worker c waiting second ≡ asleep
    → s.front ≡ s.rear
woken s first h k = absurd cc
woken s second h k = absurd cc

pub Signal-Like : (w w' : Cpu → Worker) → Signal w w' → (c : Cpu) → Like (w' c) (w c)
Signal-Like w w' (nobody h) c = record { has = λ k. refl; shown = refl; busy = refl; taken = refl }
Signal-Like w w' (wakes first e) first = waiting-Like (w first) e
Signal-Like w w' (wakes first e) second = record {
  has = λ k. refl;
  shown = refl;
  busy = refl;
  taken = refl;
}
Signal-Like w w' (wakes second e) first = record {
  has = λ k. refl;
  shown = refl;
  busy = refl;
  taken = refl;
}
Signal-Like w w' (wakes second e) second = waiting-Like (w second) e
Signal-Like w w' (wakes_both e) c = waiting-Like (w c) (e c)

pub Signal-awake :
    (w w' : Cpu → Worker) → Signal w w' → ¬ ((w' first ≡ asleep) × (w' second ≡ asleep))
Signal-awake w w' (nobody h) (a, b) = h first a
Signal-awake w w' (wakes first e) (a, b) = cc
Signal-awake w w' (wakes second e) (a, b) = cc
Signal-awake w w' (wakes_both e) (a, b) = cc
