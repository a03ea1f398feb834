-- ===== src/Workers/Keeps.antt =====
-- Every step of the two workers and of main keeps the invariant.
use cpu_schedular.Base.{
  suc, ◌<◌, ◌≡◌, ◌≢◌, refl, sym, ◌∙◌, Option, none, some, ◌∷◌, ltb, true, arith,
}
use cpu_schedular.Workers.{
  Process, Cpu, first, second, Worker, waiting, asleep, holding, running, Shared, set_at,
  process_of, enqueue, dequeue, took, Signal, Step, arrive, block, wake, take, run, finish,
}
use cpu_schedular.Workers.Invariant.{
  shown, Inv, Like, waiting-Like, asleep-Like, woken, Signal-Like, Signal-awake,
}

module _ (s : Shared) (v : Inv s) where
  arrive-Inv :
      (w : Cpu → Worker)
      → s.i < 5
      → Signal s.worker w
      → Inv (record (enqueue (process_of s.i) s) { i = suc s.i; worker = w })
  arrive-Inv w lt g =
      let a = Signal-Like s.worker w g first in
      let b = Signal-Like s.worker w g second in
      record {
        front = omega (arith, v.front);
        rear = omega (arith, v.rear);
        i = lt;
        queued = λ k lt'. ground (arith, v.queued k, v.rear);
        once = λ k. rw (a.has k, b.has k) (v.once k);
        shows = λ c. v.shows c ∙ sym ((Signal-Like s.worker w g c).shown);
        blocked = λ h k. absurd (Signal-awake s.worker w g (h, k));
        size = rw (a.busy, b.busy) v.size;
      }

  shows-place :
      (c : Cpu) (x : Worker)
      → shown x ≡ shown (s.worker c)
      → (d : Cpu) → s.cpu_task d ≡ shown (set_at s.worker c x d)
  shows-place first x e first = v.shows first ∙ sym e
  shows-place first x e second = v.shows second
  shows-place second x e first = v.shows first
  shows-place second x e second = v.shows second ∙ sym e

  shows-set :
      (c : Cpu) (x : Worker) (m : Option Process)
      → m ≡ shown x
      → (d : Cpu) → set_at s.cpu_task c m d ≡ shown (set_at s.worker c x d)
  shows-set first x m e first = e
  shows-set first x m e second = v.shows second
  shows-set second x m e first = v.shows first
  shows-set second x m e second = e

  -- A worker that changes its place without a process.
  place-Inv :
      (c : Cpu) (x : Worker)
      → Like x (s.worker c)
      → (set_at s.worker c x first ≡ asleep
          → set_at s.worker c x second ≡ asleep
          → s.front ≡ s.rear)
      → Inv (record s { worker = set_at s.worker c x })
  place-Inv first x l h = record {
    front = v.front;
    rear = v.rear;
    i = v.i;
    queued = v.queued;
    once = λ k. rw (l.has k) (v.once k);
    shows = shows-place first x l.shown;
    blocked = h;
    size = rw l.busy v.size;
  }
  place-Inv second x l h = record {
    front = v.front;
    rear = v.rear;
    i = v.i;
    queued = v.queued;
    once = λ k. rw (l.has k) (v.once k);
    shows = shows-place second x l.shown;
    blocked = h;
    size = rw l.busy v.size;
  }

  pub took-front :
      (c : Cpu)
      → s.front ≢ s.rear
      → took c (dequeue s).0 (dequeue s).1 ≡ record s {
        front = suc s.front;
        worker = set_at s.worker c (holding (process_of s.front));
      }
  took-front c ne =
      let lt : s.front < s.rear = omega (arith, v.front) in
      let up : ltb s.front s.rear ≡ true = ground arith in rw (up, v.queued s.front lt)

  take-Inv :
      (c : Cpu)
      → s.worker c ≡ waiting
      → s.front ≢ s.rear
      → Inv (record s {
        front = suc s.front;
        worker = set_at s.worker c (holding (process_of s.front));
      })
  take-Inv first e ne = record {
    front = omega (arith, v.front);
    rear = v.rear;
    i = v.i;
    queued = v.queued;
    once = λ k. ground (arith, rw e at (v.once k));
    shows = shows-place first (holding (process_of s.front)) (rw e);
    blocked = λ h k. absurd cc;
    size = let old = rw e at v.size in omega (arith, old);
  }
  take-Inv second e ne = record {
    front = omega (arith, v.front);
    rear = v.rear;
    i = v.i;
    queued = v.queued;
    once = λ k. ground (arith, rw e at (v.once k));
    shows = shows-place second (holding (process_of s.front)) (rw e);
    blocked = λ h k. absurd cc;
    size = let old = rw e at v.size in omega (arith, old);
  }

  run-Inv :
      (c : Cpu) (p : Process)
      → s.worker c ≡ holding p
      → Inv (record s {
        cpu_task = set_at s.cpu_task c (some p);
        worker = set_at s.worker c (running p);
      })
  run-Inv first p e = record {
    front = v.front;
    rear = v.rear;
    i = v.i;
    queued = v.queued;
    once = λ k. let old = rw e at (v.once k) in old;
    shows = shows-set first (running p) (some p) refl;
    blocked = λ h k. absurd cc;
    size = let old = rw e at v.size in old;
  }
  run-Inv second p e = record {
    front = v.front;
    rear = v.rear;
    i = v.i;
    queued = v.queued;
    once = λ k. let old = rw e at (v.once k) in old;
    shows = shows-set second (running p) (some p) refl;
    blocked = λ h k. absurd cc;
    size = let old = rw e at v.size in old;
  }

  finish-Inv :
      (c : Cpu) (p : Process)
      → s.worker c ≡ running p
      → Inv (record s {
        cpu_task = set_at s.cpu_task c none;
        worker = set_at s.worker c waiting;
        freed = p ∷ s.freed;
      })
  finish-Inv first p e = record {
    front = v.front;
    rear = v.rear;
    i = v.i;
    queued = v.queued;
    once = λ k. let old = rw e at (v.once k) in omega (arith, old);
    shows = shows-set first waiting none refl;
    blocked = λ h k. absurd cc;
    size = let old = rw e at v.size in omega (arith, old);
  }
  finish-Inv second p e = record {
    front = v.front;
    rear = v.rear;
    i = v.i;
    queued = v.queued;
    once = λ k. let old = rw e at (v.once k) in omega (arith, old);
    shows = shows-set second waiting none refl;
    blocked = λ h k. absurd cc;
    size = let old = rw e at v.size in omega (arith, old);
  }

pub Step-Inv : (s t : Shared) → Inv s → Step s t → Inv t
Step-Inv s t v (arrive w lt g) = arrive-Inv s v w lt g
Step-Inv s t v (block c e empty) =
    place-Inv s v c asleep (asleep-Like (s.worker c) e) (λ h k. empty)
Step-Inv s t v (wake c e) = place-Inv s v c waiting (waiting-Like (s.worker c) e) (woken s c)
Step-Inv s t v (take c e ne) = rw (took-front s v c ne) (take-Inv s v c e ne)
Step-Inv s t v (run c p e) = run-Inv s v c p e
Step-Inv s t v (finish c p e) = finish-Inv s v c p e
