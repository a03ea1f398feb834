-- ===== src/Queue.antt =====
-- src/queue.c and src/priority_queue.c as the scheduler threads see them, under the mutex that
-- guards each call: the nodes of a queue from front to rear, each with a reference to a process
-- and the priority that it was given.
pub mod Laws
pub mod Nodes
pub mod Valid
pub mod Unlink
pub mod Tests
pub mod Remove
pub mod Sorted
use cpu_schedular.Base.{
  ℕ, ℤ, pos, Bool, true, false, List, [], ◌∷◌, ◌++◌, Option, none, some, ltb_ℤ, if◌then◌else◌,
}

-- A `process_t *` that is not null: the place of the process in the store.
abbrev pub Ref : Type 0
Ref = ℕ

pub record Item : Type 0 where
  pub task : Ref
  pub priority : ℤ

abbrev pub Queue : Type 0
Queue = List Item

-- `calloc` leaves the priority of the new node at 0.
unfoldable pub enqueue : Ref → Queue → Queue
enqueue p q = q ++ record { task = p; priority = pos 0 } ∷ []

-- Behind every node whose priority is not greater.
unfoldable pub p_enqueue : Ref → ℤ → Queue → Queue
p_enqueue p n [] = record { task = p; priority = n } ∷ []
p_enqueue p n (x ∷ q) =
    if ltb_ℤ n x.priority then record { task = p; priority = n } ∷ x ∷ q else x ∷ p_enqueue p n q

-- `none` is the null pointer of an empty queue.
unfoldable pub dequeue : Queue → Option Ref × Queue
dequeue [] = (none, [])
dequeue (x ∷ q) = (some x.task, q)

unfoldable pub is_empty : Queue → Bool
is_empty [] = true
is_empty (_ ∷ _) = false
