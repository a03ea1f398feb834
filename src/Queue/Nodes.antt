-- ===== src/Queue/Nodes.antt =====
-- src/queue.c and src/priority_queue.c on the nodes in memory. The address of a new node, which
-- `calloc` or `malloc` returns, is an argument.
pub mod Refines
pub mod Dequeue
pub mod Enqueue
pub mod Insert
use cpu_schedular.Base.{
  ℕ, zero, suc, ◌-◌, ℤ, pos, Bool, true, false, not, Option, none, some, Run, ok, fault,
  out_of_fuel, ◌>>=◌, read, ◌==◌, leb_ℤ, ltb_ℤ, if◌then◌else◌,
}
use cpu_schedular.Heap.{Addr, Node, Heap, write, load, set_next, traverse}
use cpu_schedular.Queue.{Ref, Item}

-- A `Queue`, with the memory that its nodes are in.
pub record Chain : Type 0 where
  pub heap : Heap Item
  pub front : Option Addr
  pub rear : Option Addr
  pub len : ℕ

abbrev pub item : Ref → ℤ → Item
item p n = record { task = p; priority = n }

-- A queue of the new node alone.
abbrev pub alone : Heap Item → Addr → Chain → Chain
alone h a c = record { heap = h; front = some a; rear = some a; len = suc c.len }

abbrev pub allocated : Addr → Ref → ℤ → Chain → Heap Item
allocated a p n c = write c.heap a (some (record { value = item p n; next = none }))

unfoldable pub enqueue_node : ℕ → Addr → Ref → Chain → Run Chain
enqueue_node f a p c =
    let h = allocated a p (pos 0) c in
    elim c.front [
      | none ↦ ok (alone h a c)
      | some b ↦ do
        t ← traverse f h b
        h' ← set_next h t (some a)
        n ← read (h' t)
        ok (record { heap = h'; front = c.front; rear = n.next; len = suc c.len })
    ]

-- The front node leaves the queue and is freed.
unfoldable pub dequeue_node : Chain → Run (Option Ref × Chain)
dequeue_node c = if c.len == 0 then ok (none, c) else (do
  a ← read c.front
  n ← read (c.heap a)
  if c.len == 1
      then ok (
        some n.value.task,
        record { heap = write c.heap a none; front = none; rear = none; len = c.len - 1 },
      )
      else (do
        h ← set_next c.heap a none
        let rest = if c.len == 2 then c.rear else n.next
        ok (
          some n.value.task,
          record { heap = write h a none; front = rest; rear = c.rear; len = c.len - 1 },
        )))

-- A pointer, compared with the address of a node.
abbrev pub is_at : Option Addr → Addr → Bool
is_at none a = false
is_at (some b) a = a == b

-- The loop of `p_enqueue`, from the node `t`: the last values of `tnode` and of `snode`.
unfoldable pub seek : ℕ → Heap Item → ℤ → Option Addr → Addr → Run (Addr × Option Addr)
seek zero h n s t = out_of_fuel
seek (suc f) h n s t = do
  m ← read (h t)
  elim m.next [
    | none ↦ ok (t, s)
    | some b ↦ do
      k ← read (h b)
      elim (ltb_ℤ n k.value.priority) [ true ↦ ok (t, some b) | false ↦ seek f h n (some b) b ]
  ]

-- The new node at `a` goes behind `t`.
unfoldable pub link : Heap Item → Addr → Addr → Option Addr → Chain → Run Chain
link h a t s c =
    if is_at c.rear t
    then (do
      h' ← set_next h t (some a)
      ok (record { heap = h'; front = c.front; rear = some a; len = suc c.len }))
    else (do
      h' ← set_next h t (some a)
      h'' ← set_next h' a s
      ok (record { heap = h''; front = c.front; rear = c.rear; len = suc c.len }))

unfoldable pub p_enqueue_node : ℕ → Addr → Ref → ℤ → Chain → Run Chain
p_enqueue_node f a p n c =
    let h = allocated a p n c in
    if c.len == 0 then ok (alone h a c) else (do
      b ← read c.front
      m ← read (h b)
      if ltb_ℤ n m.value.priority
          then (do
            h' ← set_next h a (some b)
            ok (record { heap = h'; front = some a; rear = c.rear; len = suc c.len }))
          else (do (t, s) ← seek f h n none b; link h a t s c))
