-- ===== src/Queue/Remove.antt =====
-- src/queue.c, `remove_node_by_pid`, and schedule_algorithms/thread_op.c, `find_process`: the
-- functions that look for a process by its number. `pid_of` reads `data->pid` of a node.
pub mod Laws
use cpu_schedular.Base.{
  ℕ, Bool, List, [], ◌∷◌, Option, none, some, Run, ok, fault, ◌==◌, if◌then◌else◌,
}
use cpu_schedular.Queue.{Ref, Item, Queue, dequeue}

-- The node at the rear of a queue with this node in front.
abbrev pub rear : Item → Queue → Item
rear x [] = x
rear x (y ∷ q) = rear y q

module _ (pid_of : Ref → ℕ) (pid : ℕ) where
  abbrev pub matches : Item → Bool
  matches x = pid_of x.task == pid

  -- `Traverse(prev_node, queue)` over the nodes behind the first.
  unfoldable pub remove_next : Queue → Option Ref × Queue
  remove_next [] = (none, [])
  remove_next (y ∷ q) =
      let (found, rest) = remove_next q in if matches y then (some y.task, q) else (found, y ∷ rest)

  -- A match at the rear of several nodes calls `dequeue`, which removes at the front.
  unfoldable pub remove_node_by_pid : Queue → Option Ref × Queue
  unfolding dequeue
  remove_node_by_pid [] = (none, [])
  remove_node_by_pid (x ∷ []) = if matches x then (some x.task, []) else (none, x ∷ [])
  remove_node_by_pid (x ∷ y ∷ q) =
      if matches x
      then (some x.task, y ∷ q)
      else if matches (rear y q)
      then dequeue (x ∷ y ∷ q)
      else (let (found, rest) = remove_next (y ∷ q) in (found, x ∷ rest))

  -- `Traverse` reads a null pointer in an empty queue, and stops before the last node.
  unfoldable pub find_process : Queue → Run (Option Ref)
  find_process [] = fault
  find_process (x ∷ []) = ok none
  find_process (x ∷ y ∷ q) =
      let rest = find_process (y ∷ q) in if matches x then ok (some x.task) else rest
