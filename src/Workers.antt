-- ===== src/Workers.antt =====
-- proc_ex.c: two workers that take processes from one queue, an array with two indices, while main
-- puts them in. A step is a section under a mutex; the steps of the three threads come in any order.
pub mod Invariant
pub mod Keeps
pub mod Safety
pub mod Tests
use cpu_schedular.Base.{
  ℕ, suc, ◌+◌, ◌%◌, ◌<◌, ◌≡◌, ◌≢◌, Option, none, some, List, [], ◌∷◌, ltb, ◌==◌, if◌then◌else◌,
}

pub record Process : Type 0 where
  pub id : ℕ
  pub burst_time : ℕ

-- `cpu_id`, below `NCPU`.
pub data Cpu : Type 0 where
  first second : Cpu

-- The place of a worker in its loop: before the test of the queue under `queue_lock`, blocked in
-- `pthread_cond_wait`, before `cpu_task` is set, and before it is set back.
pub data Worker : Type 0 where
  waiting asleep : Worker
  holding running : Process → Worker

-- The global variables, the places of the workers, the loop counter of main, and the processes that
-- were freed, the last one first.
pub record Shared : Type 0 where
  pub ready_queue : ℕ → Option Process
  pub front : ℕ
  pub rear : ℕ
  pub cpu_task : Cpu → Option Process
  pub worker : Cpu → Worker
  pub i : ℕ
  pub freed : List Process

abbrev pub start : Shared
start = record {
  ready_queue = λ k. none;
  front = 0;
  rear = 0;
  cpu_task = λ c. none;
  worker = λ c. waiting;
  i = 0;
  freed = [];
}

abbrev pub set_at {ℓ} : {A : Type ℓ} → (Cpu → A) → Cpu → A → Cpu → A
set_at f first a first = a
set_at f second a second = a
set_at f first a second = f second
set_at f second a first = f first

-- The process that main makes in a round of its loop.
abbrev pub process_of : ℕ → Process
process_of i = record { id = i; burst_time = i % 3 + 1 }

abbrev pub enqueue : Process → Shared → Shared
enqueue p s = record s {
  ready_queue = λ k. if k == s.rear then some p else s.ready_queue k;
  rear = suc s.rear;
}

abbrev pub dequeue : Shared → Option Process × Shared
dequeue s =
    if ltb s.front s.rear
    then (s.ready_queue s.front, record s { front = suc s.front })
    else (none, s)

-- A worker with what it took from the queue: with the null pointer it goes back to the head of its
-- loop.
abbrev pub took : Cpu → Option Process → Shared → Shared
took c none s = s
took c (some p) s = record s { worker = set_at s.worker c (holding p) }

-- `pthread_cond_signal`, which wakes one thread or more of those that are blocked, if there are any.
pub data Signal (w : Cpu → Worker) : (Cpu → Worker) → Type 0 where
  nobody : ((c : Cpu) → w c ≢ asleep) → Signal w w
  wakes : (c : Cpu) → w c ≡ asleep → Signal w (set_at w c waiting)
  wakes_both : ((c : Cpu) → w c ≡ asleep) → Signal w (λ c. waiting)

-- A round of the loop of main, with `enqueue`. The test of a worker that finds the queue empty, after
-- which it is blocked; a blocked worker may also wake up without a signal. The section in which a
-- worker takes a process. The two sections in which a worker notes the process that runs on its CPU,
-- and that none does.
pub data Step (s : Shared) : Shared → Type 0 where
  arrive :
      (w : Cpu → Worker)
      → s.i < 5
      → Signal s.worker w
      → Step s (record (enqueue (process_of s.i) s) { i = suc s.i; worker = w })
  block :
      (c : Cpu)
      → s.worker c ≡ waiting
      → s.front ≡ s.rear
      → Step s (record s { worker = set_at s.worker c asleep })
  wake : (c : Cpu) → s.worker c ≡ asleep → Step s (record s { worker = set_at s.worker c waiting })
  take :
      (c : Cpu)
      → s.worker c ≡ waiting
      → s.front ≢ s.rear
      → Step s (took c (dequeue s).0 (dequeue s).1)
  run :
      (c : Cpu) (p : Process)
      → s.worker c ≡ holding p
      → Step s (record s {
        cpu_task = set_at s.cpu_task c (some p);
        worker = set_at s.worker c (running p);
      })
  finish :
      (c : Cpu) (p : Process)
      → s.worker c ≡ running p
      → Step s (record s {
        cpu_task = set_at s.cpu_task c none;
        worker = set_at s.worker c waiting;
        freed = p ∷ s.freed;
      })

-- The states that the three threads can get to.
pub data Reachable : Shared → Type 0 where
  begin : Reachable start
  after : {s t : Shared} → Reachable s → Step s t → Reachable t
