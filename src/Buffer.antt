-- ===== src/Buffer.antt =====
-- thread_ex.c: a producer and a consumer with a buffer of three places between them. A step is a call
-- on a semaphore or a section under the mutex; the steps of the two threads come in any order.
pub mod Invariant
pub mod Safety
pub mod Tests
use cpu_schedular.Base.{ℕ, zero, suc, ◌+◌, ◌%◌, ◌<◌, ◌≡◌, List, [], ◌∷◌, ◌++◌, ◌==◌, if◌then◌else◌}

-- The place of a thread in a round of its loop: before `sem_wait`, before the section under the
-- mutex, and before `sem_post`.
pub data Phase : Type 0 where
  waiting holding posting : Phase

-- The global variables, the loop counters and places of the threads, and what was printed as
-- consumed. The indices `in` and `out` are `into` and `out`.
pub record Shared : Type 0 where
  pub buffer : ℕ → ℕ
  pub into : ℕ
  pub out : ℕ
  pub wait_count : ℕ
  pub ready_count : ℕ
  pub item : ℕ
  pub producer : Phase
  pub i : ℕ
  pub consumer : Phase
  pub consumed : List ℕ

abbrev pub buf_size : ℕ
buf_size = 3

-- `main`, when both threads have been created. The buffer is a global variable and holds zeros.
abbrev pub start : Shared
start = record {
  buffer = λ k. 0;
  into = 0;
  out = 0;
  wait_count = buf_size;
  ready_count = 0;
  item = 0;
  producer = waiting;
  i = 0;
  consumer = waiting;
  consumed = [];
}

abbrev pub store_at : (ℕ → ℕ) → ℕ → ℕ → ℕ → ℕ
store_at buffer k x j = if j == k then x else buffer j

-- The section of the producer under the mutex.
abbrev pub produce : Shared → Shared
produce s = record s {
  buffer = store_at s.buffer s.into s.item;
  into = suc s.into % buf_size;
  producer = posting;
}

-- The section of the consumer under the mutex.
abbrev pub consume : Shared → Shared
consume s = record s {
  consumed = s.consumed ++ s.buffer s.out ∷ [];
  out = suc s.out % buf_size;
  consumer = posting;
}

pub data Step (s : Shared) : Shared → Type 0 where
  wait_slot :
      (k : ℕ)
      → s.producer ≡ waiting
      → s.item < 10
      → s.wait_count ≡ suc k
      → Step s (record s { wait_count = k; producer = holding })
  put : s.producer ≡ holding → Step s (produce s)
  post_item :
      s.producer ≡ posting
      → Step s (record s { ready_count = suc s.ready_count; item = suc s.item; producer = waiting })
  wait_item :
      (k : ℕ)
      → s.consumer ≡ waiting
      → s.i < 10
      → s.ready_count ≡ suc k
      → Step s (record s { ready_count = k; consumer = holding })
  get : s.consumer ≡ holding → Step s (consume s)
  post_slot :
      s.consumer ≡ posting
      → Step s (record s { wait_count = suc s.wait_count; i = suc s.i; consumer = waiting })

-- The states that the two threads can get to, by the number of steps.
pub data Reachable : ℕ → Shared → Type 0 where
  begin : Reachable 0 start
  after : {n : ℕ} {s t : Shared} → Reachable n s → Step s t → Reachable (suc n) t
