-- ===== src/Sched/Take.antt =====
-- What a thread gets from a queue: the front is a process of the store that is in that queue once.
use cpu_schedular.Base.{
  suc, ◌+◌, ◌<◌, ◌≡◌, refl, subst, ◌∙◌, ◌≢◌, inl, inr, some, ◌∷◌, length, arith, ltb, Bool-cases,
  tests,
}
use cpu_schedular.Process.{Process}
use cpu_schedular.Queue.{Ref, Item, Queue}
use cpu_schedular.Queue.Laws.{occurs}
use cpu_schedular.Sched.{take_ready, take_wait}
use cpu_schedular.Sched.Invariant.{IsAbsent, Inv, Held}
use cpu_schedular.Sched.Lifecycle.{Accounting, IsReady, IsAsleep}
use cpu_schedular.Threads.{State}

occurs-front : (x : Item) (q : Queue) → occurs x.task (x ∷ q) ≡ suc (occurs x.task q)
occurs-front x q = ground arith

occurs-behind : (r : Ref) (x : Item) (q : Queue) → r ≢ x.task → occurs r (x ∷ q) ≡ occurs r q
occurs-behind r x q ne = ground arith

-- From `s` to `t` nothing but the queues and the semaphores changed.
record TakesOut (s t : State) : Type 0 where
  store : t.store ≡ s.store
  t_process : t.t_process ≡ s.t_process
  terminated_process : t.terminated_process ≡ s.terminated_process
  quantum : t.quantum ≡ s.quantum

-- A process of the store that the thread has taken from its queue.
abbrev pub Takes : Accounting → State → Ref → (Process → Type 0) → Type 0
Takes acc t r P = Held acc r t × ((p : Process) × (t.store r ≡ some p) × P p)

module _ (acc : Accounting) (s t : State) (v : Inv acc s) (out : TakesOut s t) where
  created : (r : Ref) → ¬ IsAbsent acc s r → r < s.t_process
  created r present = elim (Bool-cases (ltb r s.t_process)) [
    | inl e ↦ omega tests
    | inr e ↦ absurd (present (v.absent r (omega tests)))
  ]

  take_out :
      (r : Ref)
      → ¬ IsAbsent acc s r
      → ((q : Ref) → q ≢ r → occurs q t.ready_queue ≡ occurs q s.ready_queue)
      → ((q : Ref) → q ≢ r → occurs q t.wait_queue ≡ occurs q s.wait_queue)
      → IsAbsent acc t r
      → suc (length t.ready_queue + length t.wait_queue)
        ≡ length s.ready_queue + length s.wait_queue
      → t.ready_count ≡ length t.ready_queue
      → t.wait_count ≡ length t.wait_queue
      → Held acc r t
  take_out r present er ew gone n cr cw = record {
    created = rw out.t_process (created r present);
    placed = λ q lt ne.
        let (p, stored, place) = v.placed q (rw out.t_process at lt) in
        (p, rw out.store stored, rw (er q ne, ew q ne, out.quantum) place);
    absent = λ q le.
        let old = v.absent q (rw out.t_process at le) in
        let ne : q ≢ r = λ same. present (subst (IsAbsent acc s) same old) in
        (er q ne ∙ old.0, ew q ne ∙ old.1);
    held = gone;
    counted = omega (arith, v.counted, out.t_process, out.terminated_process);
    ready_count = cr;
    wait_count = cw;
  }

  module _ (x : Item) (q : Queue) where
    ready_queue-Takes :
        s.ready_queue ≡ x ∷ q
        → t.ready_queue ≡ q
        → suc t.ready_count ≡ s.ready_count
        → t.wait_queue ≡ s.wait_queue
        → t.wait_count ≡ s.wait_count
        → Takes acc t x.task (IsReady acc t.quantum)
    ready_queue-Takes before after down same still =
        let once : occurs x.task s.ready_queue ≡ suc (occurs x.task q) =
          rw before (occurs-front x q) in
        let present : ¬ IsAbsent acc s x.task = λ a. omega (arith, once, a.0) in
        let n : length s.ready_queue ≡ suc (length q) = rw before in
        let (p, stored, place) = v.placed x.task (created x.task present) in
        let find : IsReady acc t.quantum p
            × (occurs x.task q ≡ 0)
            × (occurs x.task s.wait_queue ≡ 0) =
          elim place [
            | inl (one, never, is) ↦ (rw out.quantum is, omega (arith, once), never)
            | inr (inl (never, _, _)) ↦ absurd (omega (arith, once))
            | inr (inr (never, _, _)) ↦ absurd (omega (arith, once))
          ] in
        let (is, gone, never) = find in
        (
          take_out x.task present (λ r ne. rw (after, before, occurs-behind r x q ne))
              (λ r ne. rw same) (rw after gone, rw same never) (rw (after, same) (omega (arith, n)))
              (rw after (omega (arith, n, v.ready_count))) (rw same (omega (arith, v.wait_count))),
          (p, rw out.store stored, is),
        )

    wait_queue-Takes :
        s.wait_queue ≡ x ∷ q
        → t.wait_queue ≡ q
        → suc t.wait_count ≡ s.wait_count
        → t.ready_queue ≡ s.ready_queue
        → t.ready_count ≡ s.ready_count
        → Takes acc t x.task (IsAsleep acc t.quantum)
    wait_queue-Takes before after down same still =
        let once : occurs x.task s.wait_queue ≡ suc (occurs x.task q) =
          rw before (occurs-front x q) in
        let present : ¬ IsAbsent acc s x.task = λ a. omega (arith, once, a.1) in
        let n : length s.wait_queue ≡ suc (length q) = rw before in
        let (p, stored, place) = v.placed x.task (created x.task present) in
        let find : IsAsleep acc t.quantum p
            × (occurs x.task q ≡ 0)
            × (occurs x.task s.ready_queue ≡ 0) =
          elim place [
            | inl (_, never, _) ↦ absurd (omega (arith, once))
            | inr (inl (never, one, is)) ↦ (rw out.quantum is, omega (arith, once), never)
            | inr (inr (_, never, _)) ↦ absurd (omega (arith, once))
          ] in
        let (is, gone, never) = find in
        (
          take_out x.task present (λ r ne. rw same)
              (λ r ne. rw (after, before, occurs-behind r x q ne)) (rw same never, rw after gone)
              (rw (after, same) (omega (arith, n))) (rw same (omega (arith, v.ready_count)))
              (rw after (omega (arith, n, v.wait_count))),
          (p, rw out.store stored, is),
        )

module _ (acc : Accounting) (s : State) (x : Item) (q : Queue) (v : Inv acc s) where
  -- With a process in the ready queue the scheduler thread gets one that is ready.
  pub take_ready-Takes :
      s.ready_queue ≡ x ∷ q → Takes acc (take_ready s) x.task (IsReady acc s.quantum)
  unfolding take_ready
  take_ready-Takes e =
      let n : length s.ready_queue ≡ suc (length q) = rw e in
      ready_queue-Takes acc s (take_ready s) v
        (record { store = refl; t_process = refl; terminated_process = refl; quantum = refl }) x q e
        (ground arith) (ground (arith, v.ready_count)) refl refl

  pub take_wait-Takes :
      s.wait_queue ≡ x ∷ q → Takes acc (take_wait s) x.task (IsAsleep acc s.quantum)
  unfolding take_wait
  take_wait-Takes e =
      let n : length s.wait_queue ≡ suc (length q) = rw e in
      wait_queue-Takes acc s (take_wait s) v
        (record { store = refl; t_process = refl; terminated_process = refl; quantum = refl }) x q e
        (ground arith) (ground (arith, v.wait_count)) refl refl
