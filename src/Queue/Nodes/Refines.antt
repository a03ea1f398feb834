-- ===== src/Queue/Nodes/Refines.antt =====
-- The queues in memory do what the lists of nodes do.
use cpu_schedular.Base.{
  ℕ, suc, ◌≤◌, ◌≡◌, refl, sym, ap, ◌∙◌, ℤ, pos, none, some, List, [], ◌∷◌, ◌++◌, length, ok,
  Returns,
}
use cpu_schedular.Heap.{Addr, Node, Heap, set_next, traverse}
use cpu_schedular.Heap.Linked.{
  Cell, first, last_from, last_of, values, Away, Linked, write_here, write_other, Linked-write,
  Linked-Away, traverse-last_from, set_next-append, values-append, last_from-append,
  length-append_one, Linked-last,
}
use cpu_schedular.Queue.{Ref, Item, Queue, enqueue}
use cpu_schedular.Queue.Nodes.{Chain, item, allocated, alone, enqueue_node}

-- The queue has these nodes, from front to rear.
pub record Represents (c : Chain) (cs : List (Cell Item)) : Type 0 where
  pub linked : Linked c.heap cs
  pub front : c.front ≡ first cs
  pub rear : c.rear ≡ last_of cs
  pub len : c.len ≡ length cs

-- A queue in memory that stands for the list `q`, with the memory away from `cs` as in `h`.
abbrev pub Stands : List (Cell Item) → Heap Item → Queue → Chain → Type 0
Stands cs h q c =
    (ds : List (Cell Item)) × Represents c ds
    × (values ds ≡ q)
    × ((a : Addr) → Away a cs → c.heap a ≡ h a)

module _ (a : Addr) (p : Ref) (n : ℤ) (c : Chain) (free : c.heap a ≡ none) where
  -- The new node is in memory, and the old ones are still there.
  pub allocated-Linked :
      (cs : List (Cell Item)) → Linked c.heap cs → Linked (allocated a p n c) cs × Away a cs
  allocated-Linked cs k =
      let out = Linked-Away c.heap a cs k free in
      (Linked-write c.heap a (some (record { value = item p n; next = none })) cs k out, out)

  pub alone-Stands :
      (cs : List (Cell Item))
      → cs ≡ []
      → Represents c cs
      → Stands ((a, item p n) ∷ cs) c.heap (item p n ∷ []) (alone (allocated a p n c) a c)
  alone-Stands cs e r =
      let none_left : c.len ≡ 0 = r.len ∙ ap length e in
      (
        (a, item p n) ∷ [],
        record {
          linked = (write_here c.heap a _, tt, tt);
          front = refl;
          rear = refl;
          len = ap suc none_left;
        },
        refl,
        λ b out. write_other c.heap a b _ out.0,
      )

module _ (f : ℕ) (a : Addr) (p : Ref) (c : Chain) where
  enqueue_node-alone :
      c.front ≡ none → enqueue_node f a p c ≡ ok (alone (allocated a p (pos 0) c) a c)
  unfolding enqueue_node
  enqueue_node-alone e = rw e

  enqueue_node-behind :
      (b t : Addr) (h : Heap Item) (n : Node Item)
      → c.front ≡ some b
      → traverse f (allocated a p (pos 0) c) b ≡ ok t
      → set_next (allocated a p (pos 0) c) t (some a) ≡ ok h
      → h t ≡ some n
      → enqueue_node f a p c
        ≡ ok (record { heap = h; front = c.front; rear = n.next; len = suc c.len })
  unfolding enqueue_node
  enqueue_node-behind b t h n e last step here = rw (e, last, step, here)

module _ (f : ℕ) (a : Addr) (p : Ref) (c : Chain) (free : c.heap a ≡ none) where
  -- `enqueue` on a queue in memory, with a free address for the new node and as many rounds as there
  -- are nodes, returns without a fault. The queue stands for the list with the process at the rear,
  -- its length and its rear pointer are right, and no memory but that of the queue and of the new
  -- node has changed.
  pub enqueue_node-Stands :
      (cs : List (Cell Item))
      → Represents c cs
      → length cs ≤ f
      → Returns
          (Stands ((a, item p (pos 0)) ∷ cs) c.heap (enqueue p (values cs)))
          (enqueue_node f a p c)
  unfolding enqueue
  enqueue_node-Stands [] r le = (
    alone (allocated a p (pos 0) c) a c,
    enqueue_node-alone f a p c r.front,
    alone-Stands a p (pos 0) c free [] refl r,
  )
  enqueue_node-Stands ((b, x) ∷ cs) r le =
      let h = allocated a p (pos 0) c in
      let y = item p (pos 0) in
      let (linked, out) = allocated-Linked a p (pos 0) c free ((b, x) ∷ cs) r.linked in
      let last = traverse-last_from f h b x cs linked le in
      let (h', step, (more, same)) =
        set_next-append h b a x y cs linked out (write_here c.heap a _) in
      let (v, at) = Linked-last h' b a x y cs more in
      let done = enqueue_node-behind f a p c b (last_from b cs) h' _ r.front last step at in
      (
        record { heap = h'; front = c.front; rear = some a; len = suc c.len },
        done,
        (
          (b, x) ∷ cs ++ (a, y) ∷ [],
          record {
            linked = more;
            front = r.front;
            rear = ap some (sym (last_from-append b cs a y));
            len = ap suc (r.len ∙ sym (length-append_one cs a y));
          },
          ap (x ∷◌) (values-append cs a y),
          λ d apart. same d apart.1 ∙ write_other c.heap a d _ apart.0,
        ),
      )
