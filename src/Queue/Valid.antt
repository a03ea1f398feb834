-- ===== src/Queue/Valid.antt =====
-- The checks that src/queue.c and src/priority_queue.c make of a queue in memory before and after
-- their work, in a build with assertions.
pub mod Laws
use cpu_schedular.Base.{
  ℕ, zero, suc, Bool, true, false, not, ◌&&◌, Option, none, some, Run, ok, out_of_fuel, ◌>>=◌, read,
  ◌==◌, leb, leb_ℤ, if◌then◌else◌,
}
use cpu_schedular.Heap.{Addr, Heap}
use cpu_schedular.Queue.{Item}
use cpu_schedular.Queue.Nodes.{Chain, is_at}

abbrev pub same_pointer : Option Addr → Option Addr → Bool
same_pointer none none = true
same_pointer none (some b) = false
same_pointer (some a) q = is_at q a

-- The pointer behind `tnode`, which stays at the end.
unfoldable pub follow : Heap Item → Option Addr → Option Addr → Addr → Run (Option Addr)
follow h rear s t = if is_at rear t then ok s else (do a ← read s; m ← read (h a); ok m.next)

-- The loop of `isValidQueue`: the last node and the number of nodes, or a failed assertion.
unfoldable pub walk : ℕ → Heap Item → Option Addr → Option Addr → Addr → ℕ → Run (Option (Addr × ℕ))
walk zero h rear s t len = out_of_fuel
walk (suc f) h rear s t len = do
  n ← read (h t)
  elim n.next [
    | none ↦ ok (some (t, len))
    | some b ↦ elim (is_at s b && not (b == t)) [
      | false ↦ ok none
      | true ↦ do s' ← follow h rear s t; walk f h rear s' b (suc len)
    ]
  ]

abbrev pub counted : Chain → Option (Addr × ℕ) → Bool
counted c none = false
counted c (some (t, len)) = is_at c.rear t && (len == c.len)

-- Whether no assertion fails.
unfoldable pub is_valid_queue : ℕ → Chain → Run Bool
is_valid_queue f c =
    if c.len == 0
    then ok (same_pointer c.front none && same_pointer c.rear none)
    else if c.len == 1
    then ok (same_pointer c.front c.rear)
    else (do
      a ← read c.front
      n ← read (c.heap a)
      end ← walk f c.heap c.rear n.next a 1
      ok (counted c end))

-- The loop of `p_isValidQueue`.
unfoldable pub ordered : ℕ → Heap Item → Addr → Run Bool
ordered zero h t = out_of_fuel
ordered (suc f) h t = do
  n ← read (h t)
  elim n.next [
    | none ↦ ok true
    | some b ↦ do
      m ← read (h b)
      let rest = ordered f h b
      if leb_ℤ n.value.priority m.value.priority then rest else ok false
  ]

unfoldable pub p_is_valid_queue : ℕ → Chain → Run Bool
p_is_valid_queue f c = do
  valid ← is_valid_queue f c
  if valid && leb 2 c.len then (do a ← read c.front; ordered f c.heap a) else ok valid
