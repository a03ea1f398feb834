-- ===== src/Interleaved/Settled.antt =====
-- A state in which each thread may hold a process, seen as one between two rounds: a process that a
-- thread holds counts as being in the queue that it was taken from until the work on it is done, and
-- from then on as being in the queue that it is brought to.
pub mod Places
use cpu_schedular.Base.{
  ℕ, ◌+◌, ◌≤◌, ◌<◌, ◌≡◌, ◌≢◌, refl, ◌∙◌, Option, some, [], ◌∷◌, ◌++◌, length, length-append, pos,
  arith, inl, inr, ltb, tests, Bool-cases, ◌==◌, ==_iff, subst, sym,
}
use cpu_schedular.Interleaved.{Point, holding, putting, System}
use cpu_schedular.Process.{Process}
use cpu_schedular.Queue.{Ref, Item, Queue}
use cpu_schedular.Queue.Laws.{occurs, occurs-append}
use cpu_schedular.Sched.Invariant.{Inv, Placed, IsPlaced}
use cpu_schedular.Sched.Lifecycle.{Accounting, IsReady, IsAsleep, Writes, Forward}
use cpu_schedular.Sched.Progress.{Round, Progress, Writes-identity}
use cpu_schedular.Sched.Work.{Writes-work}
use cpu_schedular.Threads.{State}

abbrev pub item : Ref → Item
item r = record { task = r; priority = pos 0 }

-- The process that a thread has taken and not worked on yet.
abbrev pub taken : Point → Queue
taken (holding r) = item r ∷ []
taken _ = []

-- The process that a thread has worked on and not put into its queue yet.
abbrev pub worked : Point → Queue
worked (putting r) = item r ∷ []
worked _ = []

abbrev pub settled_ready : System → Queue
settled_ready x = taken x.cpu ++ (worked x.io ++ x.shared.ready_queue)

abbrev pub settled_wait : System → Queue
settled_wait x = taken x.io ++ (worked x.cpu ++ x.shared.wait_queue)

abbrev pub settled : System → State
settled x = record x.shared {
  ready_queue = settled_ready x;
  wait_queue = settled_wait x;
  ready_count = length (settled_ready x);
  wait_count = length (settled_wait x);
}

occurs-append_append :
    (r : Ref) (a b c : Queue) → occurs r (a ++ (b ++ c)) ≡ occurs r a + occurs r b + occurs r c
occurs-append_append r a b c = omega (arith, occurs-append r a (b ++ c), occurs-append r b c)

length-append_append : (a b c : Queue) → length (a ++ (b ++ c)) ≡ length a + length b + length c
length-append_append a b c = omega (arith, length-append a (b ++ c), length-append b c)

-- In which queue a process counts, and how many count in each.
module _ (x : System) where
  pub occurs-ready :
      (r : Ref)
      → occurs r (settled_ready x)
        ≡ occurs r (taken x.cpu) + occurs r (worked x.io) + occurs r x.shared.ready_queue
  occurs-ready r = occurs-append_append r (taken x.cpu) (worked x.io) x.shared.ready_queue

  pub occurs-wait :
      (r : Ref)
      → occurs r (settled_wait x)
        ≡ occurs r (taken x.io) + occurs r (worked x.cpu) + occurs r x.shared.wait_queue
  occurs-wait r = occurs-append_append r (taken x.io) (worked x.cpu) x.shared.wait_queue

  pub length-ready :
      length (settled_ready x)
      ≡ length (taken x.cpu) + length (worked x.io) + length x.shared.ready_queue
  length-ready = length-append_append (taken x.cpu) (worked x.io) x.shared.ready_queue

  pub length-wait :
      length (settled_wait x)
      ≡ length (taken x.io) + length (worked x.cpu) + length x.shared.wait_queue
  length-wait = length-append_append (taken x.io) (worked x.cpu) x.shared.wait_queue

-- From `s` to `t` no process went to another queue, and none was worked on.
pub record Same (s t : State) : Type 0 where
  pub store : t.store ≡ s.store
  pub t_process : t.t_process ≡ s.t_process
  pub total_process : t.total_process ≡ s.total_process
  pub terminated_process : t.terminated_process ≡ s.terminated_process
  pub quantum : t.quantum ≡ s.quantum
  pub task_list : t.task_list ≡ s.task_list
  pub ready_count : t.ready_count ≡ length t.ready_queue
  pub wait_count : t.wait_count ≡ length t.wait_queue
  pub ready : (r : Ref) → occurs r t.ready_queue ≡ occurs r s.ready_queue
  pub wait : (r : Ref) → occurs r t.wait_queue ≡ occurs r s.wait_queue
  pub length_ready : length t.ready_queue ≡ length s.ready_queue
  pub length_wait : length t.wait_queue ≡ length s.wait_queue

-- What is not in the queues and the semaphores stays as it is.
pub record Leaves (s t : State) : Type 0 where
  pub store : t.store ≡ s.store
  pub t_process : t.t_process ≡ s.t_process
  pub total_process : t.total_process ≡ s.total_process
  pub terminated_process : t.terminated_process ≡ s.terminated_process
  pub quantum : t.quantum ≡ s.quantum
  pub task_list : t.task_list ≡ s.task_list

pub queues-Leaves :
    (s : State) (ready wait : Queue) (m n : ℕ) (running sleeping : Option Ref)
    → Leaves s (record s {
      ready_queue = ready;
      wait_queue = wait;
      ready_count = m;
      wait_count = n;
      running_pd = running;
      sleeping_pd = sleeping;
    })
queues-Leaves s ready wait m n running sleeping = record {
  store = refl;
  t_process = refl;
  total_process = refl;
  terminated_process = refl;
  quantum = refl;
  task_list = refl;
}

-- How often a process counts in each queue, part by part.
abbrev pub ready_parts : System → Ref → ℕ
ready_parts x r = occurs r (taken x.cpu) + occurs r (worked x.io) + occurs r x.shared.ready_queue

abbrev pub wait_parts : System → Ref → ℕ
wait_parts x r = occurs r (taken x.io) + occurs r (worked x.cpu) + occurs r x.shared.wait_queue

abbrev pub ready_lengths : System → ℕ
ready_lengths x = length (taken x.cpu) + length (worked x.io) + length x.shared.ready_queue

abbrev pub wait_lengths : System → ℕ
wait_lengths x = length (taken x.io) + length (worked x.cpu) + length x.shared.wait_queue

pub parts-Same :
    (x y : System)
    → Leaves x.shared y.shared
    → ((r : Ref) → ready_parts y r ≡ ready_parts x r)
    → ((r : Ref) → wait_parts y r ≡ wait_parts x r)
    → ready_lengths y ≡ ready_lengths x
    → wait_lengths y ≡ wait_lengths x
    → Same (settled x) (settled y)
parts-Same x y l er ew nr nw = record {
  store = l.store;
  t_process = l.t_process;
  total_process = l.total_process;
  terminated_process = l.terminated_process;
  quantum = l.quantum;
  task_list = l.task_list;
  ready_count = refl;
  wait_count = refl;
  ready = λ r. omega (arith, occurs-ready x r, occurs-ready y r, er r);
  wait = λ r. omega (arith, occurs-wait x r, occurs-wait y r, ew r);
  length_ready = omega (arith, length-ready x, length-ready y, nr);
  length_wait = omega (arith, length-wait x, length-wait y, nw);
}

pub Same-refl : (x : System) → Same (settled x) (settled x)
Same-refl x = parts-Same x x (queues-Leaves x.shared _ _ _ _ _ _) (λ r. refl) (λ r. refl) refl refl

-- A step from `s` to `t` that moves the process `r` to another queue, or out of both.
pub record Changes (r : Ref) (s t : State) : Type 0 where
  pub ready : (q : Ref) → q ≢ r → occurs q t.ready_queue ≡ occurs q s.ready_queue
  pub wait : (q : Ref) → q ≢ r → occurs q t.wait_queue ≡ occurs q s.wait_queue
  pub ready_count : t.ready_count ≡ length t.ready_queue
  pub wait_count : t.wait_count ≡ length t.wait_queue
  pub counted :
      t.terminated_process + length t.ready_queue + length t.wait_queue
      ≡ s.terminated_process + length s.ready_queue + length s.wait_queue

pub settled-Writes :
    (r : Ref) (p : Process) (x y : System)
    → Writes r p x.shared y.shared
    → Writes r p (settled x) (settled y)
settled-Writes r p x y w = record {
  here = w.here;
  elsewhere = w.elsewhere;
  t_process = w.t_process;
  total_process = w.total_process;
  quantum = w.quantum;
  task_list = w.task_list;
}

pub parts-Changes :
    (r : Ref) (x y : System)
    → ((q : Ref) → q ≢ r → ready_parts y q ≡ ready_parts x q)
    → ((q : Ref) → q ≢ r → wait_parts y q ≡ wait_parts x q)
    → y.shared.terminated_process + ready_lengths y + wait_lengths y
      ≡ x.shared.terminated_process + ready_lengths x + wait_lengths x
    → Changes r (settled x) (settled y)
parts-Changes r x y er ew n = record {
  ready = λ q ne. omega (arith, occurs-ready x q, occurs-ready y q, er q ne);
  wait = λ q ne. omega (arith, occurs-wait x q, occurs-wait y q, ew q ne);
  ready_count = refl;
  wait_count = refl;
  counted = omega (arith, length-ready x, length-ready y, length-wait x, length-wait y, n);
}
