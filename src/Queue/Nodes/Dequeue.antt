-- ===== src/Queue/Nodes/Dequeue.antt =====
-- `dequeue` on a queue in memory.
use cpu_schedular.Base.{
  ℕ, suc, ◌-◌, ◌≡◌, refl, ◌∙◌, false, Option, none, some, List, [], ◌∷◌, length, ok, ◌==◌,
  if◌then◌else◌, arith, Returns,
}
use cpu_schedular.Heap.{Addr, Node, Heap, write, set_next}
use cpu_schedular.Heap.Linked.{
  Cell, first, last_from, values, write_here, write_other, Linked-write,
}
use cpu_schedular.Queue.{Item, dequeue}
use cpu_schedular.Queue.Nodes.{Chain, dequeue_node}
use cpu_schedular.Queue.Nodes.Refines.{Represents, Stands}

-- The node that was in front is no longer in memory.
abbrev pub Freed : List (Cell Item) → Chain → Type 0
Freed cs c = (a : Addr) → first cs ≡ some a → c.heap a ≡ none

module _ (c : Chain) (a : Addr) (n : Node Item) (front : c.front ≡ some a)
    (here : c.heap a ≡ some n) where
  dequeue_node-one :
      c.len ≡ 1
      → dequeue_node c
        ≡ ok (
          some n.value.task,
          record { heap = write c.heap a none; front = none; rear = none; len = 0 },
        )
  unfolding dequeue_node
  dequeue_node-one e = rw (e, front, here)

  abbrev emptied : Heap Item
  emptied = write (write c.heap a (some (record n { next = none }))) a none

  dequeue_node-more :
      (k : ℕ)
      → c.len ≡ suc (suc k)
      → dequeue_node c
        ≡ ok (
          some n.value.task,
          record {
            heap = emptied;
            front = if suc (suc k) == 2 then c.rear else n.next;
            rear = c.rear;
            len = suc (suc k) - 1;
          },
        )
  unfolding dequeue_node set_next
  dequeue_node-more k e =
      let some_left : (suc (suc k) == 0) ≡ false = ground arith in
      let more : (suc (suc k) == 1) ≡ false = ground arith in rw (e, some_left, front, here, more)

-- Of two nodes, the one at the rear is the next one.
next_front :
    (rear : Option Addr) (b : Addr) (cs : List (Cell Item))
    → rear ≡ some (last_from b cs)
    → (if suc (suc (length cs)) == 2 then rear else some b) ≡ some b
next_front rear b [] e = e
next_front rear b ((c, y) ∷ cs) e =
    let more : (suc (suc (suc (length cs))) == 2) ≡ false = ground arith in rw more

-- `dequeue` on a queue in memory returns without a fault. It gives the process in front, or the null
-- pointer if there is none, and the queue stands for the rest of the list, its length and its
-- pointers are right, the node that was in front is freed, and no other memory has changed.
pub dequeue_node-Stands :
    (c : Chain) (cs : List (Cell Item))
    → Represents c cs
    → Returns
        (λ (p, c').
          (p ≡ (dequeue (values cs)).0) × Stands cs c.heap (dequeue (values cs)).1 c' × Freed cs c')
        (dequeue_node c)
unfolding dequeue dequeue_node
dequeue_node-Stands c [] r =
    ((none, c), rw r.len, (refl, ([], r, refl, λ a out. refl), λ a e. absurd cc))
dequeue_node-Stands c ((a, x) ∷ []) r = (
  _,
  dequeue_node-one c a _ r.front r.linked.0 r.len,
  (
    refl,
    (
      [],
      record { linked = tt; front = refl; rear = refl; len = refl },
      refl,
      λ b out. write_other c.heap a b none out.0,
    ),
    λ b e. let same : b ≡ a = cc in rw same (write_here c.heap a none),
  ),
)
dequeue_node-Stands c ((a, x) ∷ (b, y) ∷ cs) r =
    let n : Node Item = record { value = x; next = some b } in
    let h = write c.heap a (some (record n { next = none })) in
    (
      _,
      dequeue_node-more c a n r.front r.linked.0 (length cs) r.len,
      (
        refl,
        (
          (b, y) ∷ cs,
          record {
            linked =
                Linked-write h a none ((b, y) ∷ cs)
                  (Linked-write c.heap a (some (record n { next = none })) ((b, y) ∷ cs) r.linked.2
                    r.linked.1)
                  r.linked.1;
            front = next_front c.rear b cs r.rear;
            rear = r.rear;
            len = omega arith;
          },
          refl,
          λ d out. write_other h a d none out.0 ∙ write_other c.heap a d _ out.0,
        ),
        λ d e. let same : d ≡ a = cc in rw same (write_here h a none),
      ),
    )
