-- ===== src/LinkedList/Tests.antt =====
-- The operations on a linked list of two numbers in memory.
use cpu_schedular.Base.{◌≡◌, refl, ℤ, pos, none, some, List, [], ◌∷◌, Returns, arith}
use cpu_schedular.Heap.{Heap, write}
use cpu_schedular.Heap.Linked.{Cell}
use cpu_schedular.LinkedList.{LinkedList, list_remove_from_end}
use cpu_schedular.LinkedList.Laws.{HoldsValues, Holds}
use cpu_schedular.LinkedList.Remove.{trimmed, list_remove_from_end-HoldsValues}

abbrev nodes : List (Cell ℤ)
nodes = (16, pos 2) ∷ (32, pos 3) ∷ []

abbrev memory : Heap ℤ
unfolding write
memory =
    write (write (λ a. none) 16 (some (record { value = pos 2; next = some 32 }))) 32
      (some (record { value = pos 3; next = none }))

-- After two calls of `list_add`.
abbrev two : LinkedList
two = record { heap = memory; front = some 16; rear = some 32 }

two-Holds : Holds two nodes
unfolding memory
two-Holds = ((refl, (omega arith, tt), (refl, tt, tt)), refl)

two_free : memory 48 ≡ none
unfolding memory
two_free = refl

list_remove_from_end-HoldsValues_example :
    Returns
      (λ (front, l). (front ≡ l.front) × HoldsValues nodes memory (trimmed (pos 2) (pos 3 ∷ [])) l)
      (list_remove_from_end 2 two)
list_remove_from_end-HoldsValues_example =
    list_remove_from_end-HoldsValues 2 two 16 (pos 2) ((32, pos 3) ∷ []) two-Holds (omega arith)
