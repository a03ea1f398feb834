-- ===== src/Queue/Unlink.antt =====
-- src/queue.c, `remove_node_by_pid` on the nodes in memory. `pid_of` reads `data->pid` of a node.
pub mod Laws
pub mod Stands
use cpu_schedular.Base.{
  ℕ, zero, suc, ◌-◌, Bool, true, false, Option, none, some, Run, ok, out_of_fuel, ◌>>=◌, read, ◌==◌,
  if◌then◌else◌,
}
use cpu_schedular.Heap.{Addr, write, set_next}
use cpu_schedular.Queue.{Ref}
use cpu_schedular.Queue.Nodes.{Chain, dequeue_node}
use cpu_schedular.Queue.Remove.{matches}

module _ (pid_of : Ref → ℕ) (pid : ℕ) where
  -- `Traverse(prev_node, queue)`, from the node `t`.
  unfoldable pub unlink : ℕ → Addr → Chain → Run (Option Ref × Chain)
  unlink zero t c = out_of_fuel
  unlink (suc f) t c = do
    n ← read (c.heap t)
    elim n.next [
      | none ↦ ok (none, c)
      | some b ↦ do
        m ← read (c.heap b)
        elim (matches pid_of pid m.value) [
          | false ↦ unlink f b c
          | true ↦ do
            h ← set_next c.heap t m.next
            ok (some m.value.task, record c { heap = write h b none; len = c.len - 1 })
        ]
    ]

  -- The node at the front is the one at the rear if the two pointers are equal.
  unfoldable pub remove_node : ℕ → Chain → Run (Option Ref × Chain)
  remove_node f c = if c.len == 0 then ok (none, c) else (do
    a ← read c.front
    n ← read (c.heap a)
    b ← read c.rear
    m ← read (c.heap b)
    if b == a
        then (if matches pid_of pid n.value
            then ok (
              some n.value.task,
              record { heap = write c.heap a none; front = none; rear = none; len = c.len - 1 },
            )
            else ok (none, c))
        else if matches pid_of pid n.value
        then ok (
          some n.value.task,
          record c { heap = write c.heap a none; front = n.next; len = c.len - 1 },
        )
        else if matches pid_of pid m.value
        then dequeue_node c
        else unlink f a c)
