-- ===== src/LinkedList/Laws.antt =====
-- What a linked list in memory holds, and what adding a number does to it.
use cpu_schedular.Base.{
  ℕ, ◌≤◌, ◌≡◌, refl, ap, ◌∙◌, ℤ, none, some, List, [], ◌∷◌, ◌++◌, length, ok, Returns,
}
use cpu_schedular.Heap.{Addr, Node, Heap, set_next, traverse}
use cpu_schedular.Heap.Linked.{
  Cell, first, last_from, values, Away, Linked, write_here, write_other, Linked-write, Linked-Away,
  traverse-last_from, set_next-append, values-append, Linked-last,
}
use cpu_schedular.LinkedList.{LinkedList, added, list_add}

-- The list has these nodes, from its front on. The rear is not part of this.
abbrev pub Holds : LinkedList → List (Cell ℤ) → Type 0
Holds l cs = Linked l.heap cs × (l.front ≡ first cs)

-- A list that holds these numbers, with the memory away from `cs` as it was in `h`.
abbrev pub HoldsValues : List (Cell ℤ) → Heap ℤ → List ℤ → LinkedList → Type 0
HoldsValues cs h xs l =
    (ds : List (Cell ℤ)) × Holds l ds × (values ds ≡ xs) × ((a : Addr) → Away a cs → l.heap a ≡ h a)

module _ (f : ℕ) (l : LinkedList) (a : Addr) (x : ℤ) where
  list_add-empty :
      l.front ≡ none
      → list_add f l a x ≡ ok (some a, record { heap = added l a x; front = some a; rear = l.rear })
  unfolding list_add
  list_add-empty e = rw e

  list_add-behind :
      (b t : Addr) (h : Heap ℤ) (n : Node ℤ)
      → l.front ≡ some b
      → traverse f (added l a x) b ≡ ok t
      → set_next (added l a x) t (some a) ≡ ok h
      → h t ≡ some n
      → list_add f l a x ≡ ok (l.front, record { heap = h; front = l.front; rear = n.next })
  unfolding list_add
  list_add-behind b t h n e last step here = rw (e, last, step, here)

  -- `list_add`, with a free address for the new node and as many rounds as there are nodes, returns
  -- the front of a list that holds the number behind the others. No memory but that of the list and
  -- of the new node has changed.
  pub list_add-HoldsValues :
      (cs : List (Cell ℤ))
      → l.heap a ≡ none
      → Holds l cs
      → length cs ≤ f
      → Returns
          (λ (front, l').
            (front ≡ l'.front) × HoldsValues ((a, x) ∷ cs) l.heap (values cs ++ x ∷ []) l')
          (list_add f l a x)
  list_add-HoldsValues [] free (k, e) le = (
    _,
    list_add-empty e,
    (
      refl,
      (
        (a, x) ∷ [],
        ((write_here l.heap a _, tt, tt), refl),
        refl,
        λ b out. write_other l.heap a b _ out.0,
      ),
    ),
  )
  list_add-HoldsValues ((b, y) ∷ cs) free (k, e) le =
      let h = added l a x in
      let out = Linked-Away l.heap a ((b, y) ∷ cs) k free in
      let linked = Linked-write l.heap a _ ((b, y) ∷ cs) k out in
      let last = traverse-last_from f h b y cs linked le in
      let (h', step, (more, same)) =
        set_next-append h b a y x cs linked out (write_here l.heap a _) in
      let (v, at) = Linked-last h' b a y x cs more in
      (
        _,
        list_add-behind b (last_from b cs) h' _ e last step at,
        (
          refl,
          (
            (b, y) ∷ cs ++ (a, x) ∷ [],
            (more, e),
            ap (y ∷◌) (values-append cs a x),
            λ d far. same d far.1 ∙ write_other l.heap a d _ far.0,
          ),
        ),
      )
