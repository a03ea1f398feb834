-- ===== src/LinkedList.antt =====
-- src/linkedList.c: a list of numbers, with `Traverse` to find its last node. The address of a new
-- node, which `calloc` returns, is an argument.
pub mod Laws
pub mod Remove
pub mod Tests
use cpu_schedular.Base.{ℕ, zero, suc, ℤ, Option, none, some, Run, ok, out_of_fuel, ◌>>=◌, read}
use cpu_schedular.Heap.{Addr, Node, Heap, write, load, set_next, traverse}

pub record LinkedList : Type 0 where
  pub heap : Heap ℤ
  pub front : Option Addr
  pub rear : Option Addr

-- The new node, which has no next one.
abbrev pub added : LinkedList → Addr → ℤ → Heap ℤ
added l a x = write l.heap a (some (record { value = x; next = none }))

-- In an empty list only the front is set.
unfoldable pub list_add : ℕ → LinkedList → Addr → ℤ → Run (Option Addr × LinkedList)
list_add f l a x = elim l.front [
  | none ↦ ok (some a, record { heap = added l a x; front = some a; rear = l.rear })
  | some b ↦ do
    t ← traverse f (added l a x) b
    h ← set_next (added l a x) t (some a)
    n ← read (h t)
    ok (l.front, record { heap = h; front = l.front; rear = n.next })
]

-- The loop that breaks before the last node, from the node at `a`.
unfoldable pub before_last : ℕ → Heap ℤ → Addr → Run Addr
before_last zero h a = out_of_fuel
before_last (suc f) h a = do
  n ← read (h a)
  elim n.next [
    | none ↦ ok a
    | some b ↦ do m ← read (h b); elim m.next [ none ↦ ok a | some _ ↦ before_last f h b ]
  ]

-- `free` of the null pointer does nothing.
abbrev pub release : Heap ℤ → Option Addr → Heap ℤ
release h none = h
release h (some a) = write h a none

-- The node behind `t` is cut off and freed.
unfoldable pub cut : Heap ℤ → Addr → Run (Heap ℤ)
cut h t = do n ← read (h t); h' ← set_next h t none; ok (release h' n.next)

unfoldable pub list_remove_from_end : ℕ → LinkedList → Run (Option Addr × LinkedList)
list_remove_from_end f l = do
  a ← read l.front
  t ← before_last f l.heap a
  h ← cut l.heap t
  ok (l.front, record { heap = h; front = l.front; rear = some t })

unfoldable pub list_remove_from_front : LinkedList → Run (Option Addr × LinkedList)
list_remove_from_front l = do
  a ← read l.front
  n ← read (l.heap a)
  ok (n.next, record { heap = write l.heap a none; front = n.next; rear = l.rear })
