-- ===== src/Srtf/Burst.antt =====
-- The times and the tests around the loop of a burst.
use cpu_schedular.Base.{
  ℕ, ◌<◌, ◌≡◌, ◌≢◌, refl, ◌⊎◌, ℤ, some, List, [], ◌∷◌, length, ok, inl, inr, arith, tests, ltb,
  Bool-cases, get_elem?-lt,
}
use cpu_schedular.Process.{Process}
use cpu_schedular.Queue.{Ref, Queue}
use cpu_schedular.Queue.Laws.{occurs}
use cpu_schedular.Sched.Invariant.{Held}
use cpu_schedular.Srtf.{next_burst}
use cpu_schedular.Srtf.Steps.{runs}
use cpu_schedular.Srtf.Ticks.{Ticked, Front, CanTest, Beats}
use cpu_schedular.Threads.{State, LogLine, read_wall_start}

-- While a process is held, the front of the ready queue is another one.
module _ (r : Ref) (s : State) (h : Held runs r s) where
  held-Front : (q : Queue) → s.ready_queue ≡ q → (s.ready_queue ≡ []) ⊎ Front r s
  held-Front [] e = inl e
  held-Front (x ∷ q) e =
      let present : 0 < occurs x.task s.ready_queue = rw e (ground arith) in
      let ne : x.task ≢ r = λ same. omega (arith, h.held.0, rw same at present) in
      elim (Bool-cases (ltb x.task s.t_process)) [
        | inr out ↦ absurd (omega (arith, (h.absent x.task (omega tests)).0))
        | inl created ↦
            let (p, stored, place) = h.placed x.task (omega tests) ne in
            inr (record { item = x; rest = q; process = p; front = e; other = ne; stored = stored })
      ]

  pub held-CanTest : s.running_pd ≡ some r → CanTest r s
  held-CanTest run = (run, held-Front s.ready_queue refl)

-- The state at the beginning of a burst.
unfoldable pub begun : State → State
unfolding read_wall_start
begun s = let started = read_wall_start s in record started { start_time = started.global_counter }

pub begun-CanTest : (r : Ref) (s : State) → CanTest r s → CanTest r (begun s)
unfolding begun
begun-CanTest r s (run, inl e) = (run, inl e)
begun-CanTest r s (run, inr f) = (
  run,
  inr (record {
    item = f.item;
    rest = f.rest;
    process = f.process;
    front = f.front;
    other = f.other;
    stored = f.stored;
  }),
)

pub begun_here :
    (r : Ref) (p : Process) (s : State) → s.store r ≡ some p → (begun s).store r ≡ some p
unfolding begun
begun_here r p s e = e

-- The times and the log at the end of a burst make no difference.
abbrev pub noted : State → ℤ → List LogLine → State
noted t time log = record t { end_time = time; task_log = log }

pub Ticked-noted :
    (n : ℕ) (r : Ref) (p p' : Process) (s t : State) (time : ℤ) (log : List LogLine)
    → Ticked n r p p' (begun s) t
    → Ticked n r p p' s (noted t time log)
unfolding begun
Ticked-noted n r p p' s t time log k = record {
  ran = k.ran;
  remaining = k.remaining;
  here = k.here;
  elsewhere = k.elsewhere;
  ready_queue = k.ready_queue;
  wait_queue = k.wait_queue;
  task_list = k.task_list;
  t_process = k.t_process;
  total_process = k.total_process;
  terminated_process = k.terminated_process;
  ready_count = k.ready_count;
  wait_count = k.wait_count;
  quantum = k.quantum;
  running_pd = k.running_pd;
}

pub Beats-noted :
    (r : Ref) (p : Process) (t : State) (time : ℤ) (log : List LogLine)
    → Beats r p t
    → Beats r p (noted t time log)
Beats-noted r p t time log (f, less) = (
  record {
    item = f.item;
    rest = f.rest;
    process = f.process;
    front = f.front;
    other = f.other;
    stored = f.stored;
  },
  less,
)

-- The next burst is read in range.
pub next_burst-ok :
    (p : Process)
    → p.process_d.cpu_burst_size ≡ length p.process_d.cpu_burst
    → (priority : ℤ) × (remaining : ℤ) × (next_burst p
        ≡ ok (record p { priority = priority; remaining_time = remaining }))
unfolding next_burst
next_burst-ok p w = elim (Bool-cases (ltb p.cpu_index p.process_d.cpu_burst_size)) [
  | inl e ↦
      let (burst, found) = get_elem?-lt p.process_d.cpu_burst p.cpu_index (omega (tests, w)) in
      (burst, burst, rw (e, found))
  | inr e ↦ (p.priority, p.remaining_time, rw e)
]
