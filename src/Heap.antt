-- ===== src/Heap.antt =====
-- The linked nodes in memory that src/queue.h and src/linkedList.h share: a node at an address has
-- a value and the address of the next node, or the null pointer.
pub mod Linked
use cpu_schedular.Base.{
  ℕ, zero, suc, Option, none, some, Run, ok, out_of_fuel, ◌>>=◌, read, ◌==◌, if◌then◌else◌,
}

abbrev pub Addr : Type 0
Addr = ℕ

pub record Node (A : Type 0) : Type 0 where
  pub value : A
  pub next : Option Addr

abbrev pub Heap : Type 0 → Type 0
Heap A = Addr → Option (Node A)

module _ {A : Type 0} where
  unfoldable pub write : Heap A → Addr → Option (Node A) → Heap A
  write h a c b = if b == a then c else h b

  -- `*p`, which faults on the null pointer and on memory that was freed.
  abbrev pub load : Heap A → Option Addr → Run (Node A)
  load h p = do a ← read p; read (h a)

  -- `p->next = q`
  unfoldable pub set_next : Heap A → Addr → Option Addr → Run (Heap A)
  set_next h a q = do n ← read (h a); ok (write h a (some (record n { next = q })))

  -- `Traverse(tnode, list);` from the node at `a`: the last node that it reaches.
  unfoldable pub traverse : ℕ → Heap A → Addr → Run Addr
  traverse zero h a = out_of_fuel
  traverse (suc f) h a = do n ← read (h a); elim n.next [ none ↦ ok a | some b ↦ traverse f h b ]
