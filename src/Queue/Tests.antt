-- ===== src/Queue/Tests.antt =====
-- The queue operations on three nodes in memory.
use cpu_schedular.Base.{ℕ, ◌≡◌, ◌↔◌, refl, true, pos, none, some, List, [], ◌∷◌, ok, Returns, arith}
use cpu_schedular.Heap.{Heap, write}
use cpu_schedular.Heap.Linked.{Cell, values}
use cpu_schedular.Queue.{Ref, Item, dequeue, p_enqueue}
use cpu_schedular.Queue.Nodes.{Chain, item, dequeue_node, p_enqueue_node}
use cpu_schedular.Queue.Nodes.Dequeue.{Freed, dequeue_node-Stands}
use cpu_schedular.Queue.Nodes.Insert.{p_enqueue_node-Stands}
use cpu_schedular.Queue.Nodes.Refines.{Represents, Stands}
use cpu_schedular.Queue.Sorted.{IsSorted}
use cpu_schedular.Queue.Remove.{remove_node_by_pid}
use cpu_schedular.Queue.Unlink.{remove_node}
use cpu_schedular.Queue.Unlink.Stands.{remove_node-Stands}
use cpu_schedular.Queue.Valid.{is_valid_queue, p_is_valid_queue}
use cpu_schedular.Queue.Valid.Laws.{is_valid_queue-true, p_is_valid_queue-IsSorted}

abbrev nodes : List (Cell Item)
nodes = (16, item 0 (pos 3)) ∷ (48, item 2 (pos 5)) ∷ (32, item 1 (pos 8)) ∷ []

abbrev memory : Heap Item
unfolding write
memory =
    write
      (write (write (λ a. none) 16 (some (record { value = item 0 (pos 3); next = some 48 }))) 48
        (some (record { value = item 2 (pos 5); next = some 32 })))
      32 (some (record { value = item 1 (pos 8); next = none }))

abbrev chain : Chain
chain = record { heap = memory; front = some 16; rear = some 32; len = 3 }

chain-Represents : Represents chain nodes
unfolding memory
chain-Represents = record {
  linked = (refl, (omega arith, (omega arith, tt)), (refl, (omega arith, tt), (refl, tt, tt)));
  front = refl;
  rear = refl;
  len = refl;
}

chain_free : memory 64 ≡ none
unfolding memory
chain_free = refl

p_enqueue_node-Stands_example :
    Returns
      (Stands ((64, item 7 (pos 5)) ∷ nodes) memory (p_enqueue 7 (pos 5) (values nodes)))
      (p_enqueue_node 3 64 7 (pos 5) chain)
p_enqueue_node-Stands_example =
    p_enqueue_node-Stands 3 64 7 (pos 5) chain chain_free nodes chain-Represents (omega arith)

dequeue_node-Stands_example :
    Returns
      (λ (p, c).
        (p ≡ (dequeue (values nodes)).0)
        × Stands nodes memory (dequeue (values nodes)).1 c
        × Freed nodes c)
      (dequeue_node chain)
dequeue_node-Stands_example = dequeue_node-Stands chain nodes chain-Represents

is_valid_queue-true_example : is_valid_queue 3 chain ≡ ok true
is_valid_queue-true_example = is_valid_queue-true 3 chain nodes chain-Represents (omega arith)

p_is_valid_queue-IsSorted_example :
    Returns (λ b. (b ≡ true) ↔ IsSorted (values nodes)) (p_is_valid_queue 3 chain)
p_is_valid_queue-IsSorted_example =
    p_is_valid_queue-IsSorted 3 chain nodes chain-Represents (omega arith)

-- The number of a process is its place in the store.
abbrev place : Ref → ℕ
place r = r

remove_node-Stands_example :
    Returns
      (λ (p, c).
        (p ≡ (remove_node_by_pid place 2 (values nodes)).0)
        × Stands nodes memory (remove_node_by_pid place 2 (values nodes)).1 c)
      (remove_node place 2 3 chain)
remove_node-Stands_example = remove_node-Stands place 2 3 chain nodes chain-Represents (omega arith)
