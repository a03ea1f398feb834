-- ===== src/Queue/Nodes/Insert.antt =====
-- `p_enqueue` on a queue in memory stands for the insertion into the list.
use cpu_schedular.Base.{
  ℕ, suc, ◌≤◌, ◌≡◌, refl, sym, ap, ◌∙◌, ℤ, none, some, List, [], ◌∷◌, length, ltb_ℤ, Bool-cases,
  inl, inr, Returns,
}
use cpu_schedular.Heap.{Addr}
use cpu_schedular.Heap.Linked.{Cell, values, write_here, write_other, Linked-write}
use cpu_schedular.Queue.{Ref, Item, p_enqueue}
use cpu_schedular.Queue.Nodes.{Chain, item, allocated, alone, p_enqueue_node}
use cpu_schedular.Queue.Nodes.Enqueue.{
  joined, joined-values, joined-length, seek_link-Joins, p_enqueue_node-alone, p_enqueue_node-front,
  p_enqueue_node-behind,
}
use cpu_schedular.Queue.Nodes.Refines.{Represents, Stands, allocated-Linked, alone-Stands}

module _ (f : ℕ) (a : Addr) (p : Ref) (n : ℤ) (c : Chain) (free : c.heap a ≡ none) where
  -- `p_enqueue` on a queue in memory, with a free address for the new node and as many rounds as
  -- there are nodes, returns without a fault. The queue stands for the list with the process behind
  -- every node whose priority is not greater, its length, its front and its rear pointer are right,
  -- and no memory but that of the queue and of the new node has changed.
  pub p_enqueue_node-Stands :
      (cs : List (Cell Item))
      → Represents c cs
      → length cs ≤ f
      → Returns
          (Stands ((a, item p n) ∷ cs) c.heap (p_enqueue p n (values cs)))
          (p_enqueue_node f a p n c)
  unfolding p_enqueue
  p_enqueue_node-Stands [] r le = (
    alone (allocated a p n c) a c,
    p_enqueue_node-alone f a p n c r.len,
    alone-Stands a p n c free [] refl r,
  )
  p_enqueue_node-Stands ((b, x) ∷ cs) r le =
      let h = allocated a p n c in
      let (linked, out) = allocated-Linked a p n c free ((b, x) ∷ cs) r.linked in
      let new = write_here c.heap a (some (record { value = item p n; next = none })) in
      elim (Bool-cases (ltb_ℤ n x.priority)) [
        | inl less ↦ (
          _,
          p_enqueue_node-front f a p n c (length cs) b _ r.len r.front linked.0 less new,
          (
            (a, item p n) ∷ (b, x) ∷ cs,
            record {
              linked = (write_here h a _, out, Linked-write h a _ ((b, x) ∷ cs) linked out);
              front = refl;
              rear = r.rear;
              len = ap suc r.len;
            },
            rw less,
            λ d far. write_other h a d _ far.0 ∙ write_other c.heap a d _ far.0,
          ),
        )
        | inr more ↦
            let (c', is, j) = seek_link-Joins a p n f h c none b x cs new linked out r.rear le in
            (
              c',
              p_enqueue_node-behind f a p n c (length cs) b _ r.len r.front linked.0 more ∙ is,
              (
                (b, x) ∷ joined a p n cs,
                record {
                  linked = j.linked;
                  front = j.front ∙ r.front;
                  rear = j.rear;
                  len = j.len ∙ ap suc (r.len ∙ sym (joined-length a p n cs));
                },
                rw more (ap (x ∷◌) (joined-values a p n cs)),
                λ d far. j.same d far.0 far.1 ∙ write_other c.heap a d _ far.0,
              ),
            )
      ]
