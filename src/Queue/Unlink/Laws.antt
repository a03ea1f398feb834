-- ===== src/Queue/Unlink/Laws.antt =====
-- `remove_node_by_pid` on a queue in memory does what it does on the list.
use cpu_schedular.Base.{
  ℕ, zero, suc, ◌+◌, ◌-◌, ◌<◌, ◌≡◌, refl, sym, ap, ◌∙◌, Bool, true, false, Option, none, some, List,
  [], ◌∷◌, length, Run, ok, ◌>>=◌, ◌==◌, if◌then◌else◌, Bool-cases, inl, inr, arith, Returns,
}
use cpu_schedular.Heap.{Addr, Node, Heap, write, set_next}
use cpu_schedular.Heap.Linked.{
  Cell, first, last_from, values, Away, Linked, write_here, write_other, Linked-write,
}
use cpu_schedular.Queue.{Ref, Item}
use cpu_schedular.Queue.Nodes.{Chain, dequeue_node}
use cpu_schedular.Queue.Remove.{rear, matches, remove_next}
use cpu_schedular.Queue.Unlink.{unlink, remove_node}

-- The node at the rear.
pub last-rear :
    (h : Heap Item) (a : Addr) (x : Item) (cs : List (Cell Item))
    → Linked h ((a, x) ∷ cs)
    → h (last_from a cs) ≡ some (record { value = rear x (values cs); next = none })
last-rear h a x [] (here, out, k) = here
last-rear h a x ((b, y) ∷ cs) (here, out, k) = last-rear h b y cs k

module _ (pid_of : Ref → ℕ) (pid : ℕ) where
  module _ (f : ℕ) (c : Chain) (t : Addr) (x : Item) where
    unlink-end :
        c.heap t ≡ some (record { value = x; next = none })
        → unlink pid_of pid (suc f) t c ≡ ok (none, c)
    unfolding unlink
    unlink-end here = rw here

    module _ (b : Addr) (y : Item) (next : Option Addr)
        (here : c.heap t ≡ some (record { value = x; next = some b }))
        (there : c.heap b ≡ some (record { value = y; next = next })) where
      step : Bool → Run (Option Ref × Chain)
      step found = elim found [
        | false ↦ unlink pid_of pid f b c
        | true ↦ (do
          h ← set_next c.heap t next
          ok (some y.task, record c { heap = write h b none; len = c.len - 1 }))
      ]

      unlink-step : unlink pid_of pid (suc f) t c ≡ step (matches pid_of pid y)
      unfolding unlink step
      unlink-step = rw (here, there)

      unlink-found :
          matches pid_of pid y ≡ true
          → unlink pid_of pid (suc f) t c
            ≡ ok (
              some y.task,
              record c {
                heap = write (write c.heap t (some (record { value = x; next = next }))) b none;
                len = c.len - 1;
              },
            )
      unfolding step set_next
      unlink-found e =
          let cut : step true
              ≡ ok (
                some y.task,
                record c {
                  heap = write (write c.heap t (some (record { value = x; next = next }))) b none;
                  len = c.len - 1;
                },
              ) =
            rw here in
          unlink-step ∙ ap step e ∙ cut

      unlink-next :
          matches pid_of pid y ≡ false → unlink pid_of pid (suc f) t c ≡ unlink pid_of pid f b c
      unfolding step
      unlink-next e = unlink-step ∙ ap step e

  -- What the loop leaves behind the node `t`, if the node at the rear is not the one to remove.
  pub record Unlinked (c : Chain) (t : Addr) (x : Item) (cs : List (Cell Item))
      (out : Option Ref × Chain) : Type 0 where
    pub rest : List (Cell Item)
    pub found : out.0 ≡ (remove_next pid_of pid (values cs)).0
    pub kept : values rest ≡ (remove_next pid_of pid (values cs)).1
    pub linked : Linked out.1.heap ((t, x) ∷ rest)
    pub front_same : out.1.front ≡ c.front
    pub rear_same : out.1.rear ≡ c.rear
    pub last : last_from t rest ≡ last_from t cs
    pub len : out.1.len + length cs ≡ c.len + length rest
    pub away : (d : Addr) → Away d cs → Away d rest
    pub same : (d : Addr) → Away d ((t, x) ∷ cs) → out.1.heap d ≡ c.heap d

  -- The node to remove is not the last one.
  last_from-other :
      (t b : Addr) (y : Item) (cs : List (Cell Item))
      → matches pid_of pid y ≡ true
      → matches pid_of pid (rear y (values cs)) ≡ false
      → last_from t cs ≡ last_from b cs
  last_from-other t b y [] e other = absurd (let both = sym e ∙ other in cc)
  last_from-other t b y ((d, z) ∷ cs) e other = refl

  pub unlink-Unlinked :
      (f : ℕ) (c : Chain) (t : Addr) (x : Item) (cs : List (Cell Item))
      → Linked c.heap ((t, x) ∷ cs)
      → matches pid_of pid (rear x (values cs)) ≡ false
      → length cs < f
      → length cs < c.len
      → Returns (Unlinked c t x cs) (unlink pid_of pid f t c)
  unfolding remove_next
  unlink-Unlinked zero c t x cs k other lt long = absurd (omega arith)
  unlink-Unlinked (suc f) c t x [] (here, out, k) other lt long = (
    (none, c),
    unlink-end f c t x here,
    record {
      rest = [];
      found = refl;
      kept = refl;
      linked = (here, out, k);
      front_same = refl;
      rear_same = refl;
      last = refl;
      len = refl;
      away = λ d far. far;
      same = λ d far. refl;
    },
  )
  unlink-Unlinked (suc f) c t x ((b, y) ∷ cs) (here, out, k) other lt long =
      elim (Bool-cases (matches pid_of pid y)) [
        | inl e ↦
            let (there, apart, behind) = k in
            let h = write c.heap t (some (record { value = x; next = first cs })) in
            (
              (some y.task, record c { heap = write h b none; len = c.len - 1 }),
              unlink-found f c t x b y (first cs) here there e,
              record {
                rest = cs;
                found = rw e;
                kept = rw e;
                linked = (
                  write_other h b t none out.0 ∙ write_here c.heap t _,
                  out.1,
                  Linked-write h b none cs (Linked-write c.heap t _ cs behind out.1) apart,
                );
                front_same = refl;
                rear_same = refl;
                last = last_from-other t b y cs e other;
                len = omega (arith, long);
                away = λ d far. far.1;
                same = λ d far. write_other h b d none far.1.0 ∙ write_other c.heap t d _ far.0;
              },
            )
        | inr e ↦
            let (end, is, u) = unlink-Unlinked f c b y cs k other (omega arith) (omega arith) in
            (
              end,
              unlink-next f c t x b y (first cs) here k.0 e ∙ is,
              record {
                rest = (b, y) ∷ u.rest;
                found = rw e u.found;
                kept = rw e (ap (y ∷◌) u.kept);
                linked = (u.same t out ∙ here, (out.0, u.away t out.1), u.linked);
                front_same = u.front_same;
                rear_same = u.rear_same;
                last = u.last;
                len = omega (arith, u.len);
                away = λ d far. (far.0, u.away d far.1);
                same = λ d far. u.same d far.1;
              },
            )
      ]

  module _ (f : ℕ) (c : Chain) where
    pub remove_node-none : c.len ≡ 0 → remove_node pid_of pid f c ≡ ok (none, c)
    unfolding remove_node
    remove_node-none e = rw e

    module _ (m : ℕ) (a b : Addr) (n k : Node Item) (len : c.len ≡ suc m) (front : c.front ≡ some a)
        (here : c.heap a ≡ some n) (back : c.rear ≡ some b) (there : c.heap b ≡ some k) where
      abbrev pub branch : Bool → Bool → Bool → Run (Option Ref × Chain)
      branch single at_front at_rear =
          if single
          then (if at_front
              then ok (
                some n.value.task,
                record { heap = write c.heap a none; front = none; rear = none; len = c.len - 1 },
              )
              else ok (none, c))
          else if at_front
          then ok (
            some n.value.task,
            record c { heap = write c.heap a none; front = n.next; len = c.len - 1 },
          )
          else if at_rear
          then dequeue_node c
          else unlink pid_of pid f a c

      remove_node-branch :
          remove_node pid_of pid f c
          ≡ branch (b == a) (matches pid_of pid n.value) (matches pid_of pid k.value)
      unfolding remove_node
      remove_node-branch =
          let some_left : (suc m == 0) ≡ false = ground arith in
          rw (len, some_left, front, here, back, there)

      -- The branch that is taken.
      pub remove_node-at :
          (single at_front at_rear : Bool)
          → (b == a) ≡ single
          → matches pid_of pid n.value ≡ at_front
          → matches pid_of pid k.value ≡ at_rear
          → remove_node pid_of pid f c ≡ branch single at_front at_rear
      remove_node-at single at_front at_rear e g r =
          remove_node-branch
          ∙ ap (λ s. branch s (matches pid_of pid n.value) (matches pid_of pid k.value)) e
          ∙ ap (λ s. branch single s (matches pid_of pid k.value)) g
          ∙ ap (branch single at_front) r
