-- ===== src/Queue/Unlink/Stands.antt =====
-- `remove_node_by_pid` on a queue in memory stands for the removal from the list.
use cpu_schedular.Base.{
  ℕ, suc, ◌≤◌, ◌≡◌, refl, sym, ap, ◌∙◌, true, false, none, some, List, [], ◌∷◌, length, ◌==◌,
  Bool-cases, inl, inr, arith, Returns,
}
use cpu_schedular.Heap.{Node}
use cpu_schedular.Heap.Linked.{Cell, last_from, values, write_other, Linked-write, Away-last}
use cpu_schedular.Queue.{Ref, Item}
use cpu_schedular.Queue.Nodes.{Chain}
use cpu_schedular.Queue.Nodes.Dequeue.{dequeue_node-Stands}
use cpu_schedular.Queue.Nodes.Refines.{Represents, Stands}
use cpu_schedular.Queue.Remove.{rear, matches, remove_node_by_pid}
use cpu_schedular.Queue.Unlink.{remove_node}
use cpu_schedular.Queue.Unlink.Laws.{last-rear, unlink-Unlinked, remove_node-none, remove_node-at}

module _ (pid_of : Ref → ℕ) (pid f : ℕ) (c : Chain) where
  -- `remove_node_by_pid` on a queue in memory, with as many rounds as there are nodes, returns
  -- without a fault. It gives the process, or the null pointer, that it gives on the list of the
  -- nodes, and the queue stands for the list that is left: its length, its front and its rear pointer
  -- are right, and no other memory has changed.
  pub remove_node-Stands :
      (cs : List (Cell Item))
      → Represents c cs
      → length cs ≤ f
      → Returns
          (λ (p, c').
            (p ≡ (remove_node_by_pid pid_of pid (values cs)).0)
            × Stands cs c.heap (remove_node_by_pid pid_of pid (values cs)).1 c')
          (remove_node pid_of pid f c)
  unfolding remove_node_by_pid
  remove_node-Stands [] r le =
      ((none, c), remove_node-none pid_of pid f c r.len, (refl, ([], r, refl, λ a out. refl)))
  remove_node-Stands ((a, x) ∷ []) r le =
      let n : Node Item = record { value = x; next = none } in
      let at = remove_node-at pid_of pid f c 0 a a n n r.len r.front r.linked.0 r.rear r.linked.0 in
      let same : (a == a) ≡ true = ground arith in
      elim (Bool-cases (matches pid_of pid x)) [
        | inl e ↦ (
          _,
          at true true true same e e,
          (
            rw e,
            (
              [],
              record {
                linked = tt;
                front = refl;
                rear = refl;
                len = let one = r.len in omega (arith, one);
              },
              rw e,
              λ d out. write_other c.heap a d none out.0,
            ),
          ),
        )
        | inr e ↦
            ((none, c), at true false false same e e, (rw e, ((a, x) ∷ [], r, rw e, λ d out. refl)))
      ]
  remove_node-Stands ((a, x) ∷ (b, y) ∷ cs) r le =
      let n : Node Item = record { value = x; next = some b } in
      let z = rear y (values cs) in
      let k : Node Item = record { value = z; next = none } in
      let behind = r.linked.2 in
      let at =
        remove_node-at pid_of pid f c (suc (length cs)) a (last_from b cs) n k r.len r.front
          r.linked.0 r.rear (last-rear c.heap b y cs behind) in
      let apart = Away-last a b y cs r.linked.1 in
      let two : (last_from b cs == a) ≡ false = ground arith in
      elim (Bool-cases (matches pid_of pid x)) [
        | inl e ↦ (
          _,
          at false true (matches pid_of pid z) two e refl,
          (
            rw e,
            (
              (b, y) ∷ cs,
              record {
                linked = Linked-write c.heap a none ((b, y) ∷ cs) behind r.linked.1;
                front = refl;
                rear = r.rear;
                len = let size = r.len in omega (arith, size);
              },
              rw e,
              λ d out. write_other c.heap a d none out.0,
            ),
          ),
        )
        | inr e ↦ elim (Bool-cases (matches pid_of pid z)) [
          | inl e' ↦
              let (out, is, (p, stands, freed)) = dequeue_node-Stands c ((a, x) ∷ (b, y) ∷ cs) r in
              (out, at false false true two e e' ∙ is, rw (e, e') (p, stands))
          | inr e' ↦
              let size = r.len in
              let (out, is, u) =
                unlink-Unlinked pid_of pid f c a x ((b, y) ∷ cs) r.linked e' (omega arith)
                  (omega (arith, size)) in
              (
                out,
                at false false false two e e' ∙ is,
                rw (e, e')
                    (
                      u.found,
                      (
                        (a, x) ∷ u.rest,
                        record {
                          linked = u.linked;
                          front = u.front_same ∙ r.front;
                          rear = u.rear_same ∙ r.rear ∙ ap some (sym u.last);
                          len = omega (arith, u.len, size);
                        },
                        ap (x ∷◌) u.kept,
                        u.same,
                      ),
                    ),
              )
        ]
      ]
