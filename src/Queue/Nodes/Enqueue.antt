-- ===== src/Queue/Nodes/Enqueue.antt =====
-- `p_enqueue` on a queue in memory.
use cpu_schedular.Base.{
  ℕ, zero, suc, ◌<◌, ◌≡◌, ◌≢◌, refl, sym, ap, ◌∙◌, ℤ, Bool, true, false, Option, none, some, List,
  [], ◌∷◌, length, Run, ok, ◌>>=◌, ◌==◌, ltb_ℤ, if◌then◌else◌, Bool-cases, inl, inr, arith, Returns,
}
use cpu_schedular.Heap.{Addr, Node, Heap, write, set_next}
use cpu_schedular.Heap.Linked.{
  Cell, last_from, values, Away, Linked, write_here, write_other, Linked-write, Away-last,
}
use cpu_schedular.Queue.{Ref, Item, p_enqueue}
use cpu_schedular.Queue.Nodes.{Chain, item, allocated, alone, is_at, seek, link, p_enqueue_node}

module _ (a : Addr) (p : Ref) (n : ℤ) where
  -- The nodes with the new one among them.
  abbrev pub joined : List (Cell Item) → List (Cell Item)
  joined [] = (a, item p n) ∷ []
  joined ((b, x) ∷ cs) =
      if ltb_ℤ n x.priority then (a, item p n) ∷ (b, x) ∷ cs else (b, x) ∷ joined cs

  pub joined-values : (cs : List (Cell Item)) → values (joined cs) ≡ p_enqueue p n (values cs)
  unfolding p_enqueue
  joined-values [] = refl
  joined-values ((b, x) ∷ cs) = elim (Bool-cases (ltb_ℤ n x.priority)) [
    | inl less ↦ rw less
    | inr more ↦ rw more (ap (x ∷◌) (joined-values cs))
  ]

  pub joined-length : (cs : List (Cell Item)) → length (joined cs) ≡ suc (length cs)
  joined-length [] = refl
  joined-length ((b, x) ∷ cs) = elim (Bool-cases (ltb_ℤ n x.priority)) [
    | inl less ↦ rw less
    | inr more ↦ rw more (ap suc (joined-length cs))
  ]

  joined-Away : (b : Addr) (cs : List (Cell Item)) → Away b cs → b ≢ a → Away b (joined cs)
  joined-Away b [] out ne = (ne, tt)
  joined-Away b ((c, x) ∷ cs) (other, out) ne = elim (Bool-cases (ltb_ℤ n x.priority)) [
    | inl less ↦ rw less (ne, (other, out))
    | inr more ↦ rw more (other, joined-Away b cs out ne)
  ]

  -- What the nodes behind `b` have become.
  pub record Joins (c : Chain) (b : Addr) (x : Item) (cs : List (Cell Item)) (h : Heap Item)
      (c' : Chain) : Type 0 where
    pub linked : Linked c'.heap ((b, x) ∷ joined cs)
    pub front : c'.front ≡ c.front
    pub rear : c'.rear ≡ some (last_from b (joined cs))
    pub len : c'.len ≡ suc c.len
    pub same : (d : Addr) → d ≢ a → Away d ((b, x) ∷ cs) → c'.heap d ≡ h d

  -- The end of the loop and the insertion after it.
  pub seek_link : ℕ → Heap Item → Chain → Option Addr → Addr → Run Chain
  seek_link f h c s t = do (t', s') ← seek f h n s t; link h a t' s' c

  module _ (h : Heap Item) (c : Chain)
      (new : h a ≡ some (record { value = item p n; next = none })) where
    link-rear :
        (t : Addr) (x : Item) (s : Option Addr)
        → c.rear ≡ some t
        → h t ≡ some (record { value = x; next = none })
        → link h a t s c
          ≡ ok (record {
            heap = write h t (some (record { value = x; next = some a }));
            front = c.front;
            rear = some a;
            len = suc c.len;
          })
    unfolding link set_next
    link-rear t x s e here = rw (e, here) (ground arith)

    link-between :
        (t b : Addr) (x : Item) (next : Option Addr)
        → is_at c.rear t ≡ false
        → a ≢ t
        → h t ≡ some (record { value = x; next = next })
        → link h a t (some b) c
          ≡ ok (record {
            heap =
                write
                  (write h t (some (record { value = x; next = some a })))
                  a
                  (some (record { value = item p n; next = some b }));
            front = c.front;
            rear = c.rear;
            len = suc c.len;
          })
    unfolding link set_next
    link-between t b x next e ne here = rw (e, here, write_other h t a _ ne, new)

  -- Behind each node that the loop passes.
  seek_link-rear :
      (f : ℕ) (h : Heap Item) (c : Chain) (s : Option Addr) (t : Addr) (x : Item)
      → h t ≡ some (record { value = x; next = none })
      → seek_link (suc f) h c s t ≡ link h a t s c
  unfolding seek_link seek
  seek_link-rear f h c s t x here = rw here

  module _ (f : ℕ) (h : Heap Item) (c : Chain) (s : Option Addr) (t b : Addr) (x y : Item)
      (next : Option Addr) (here : h t ≡ some (record { value = x; next = some b }))
      (there : h b ≡ some (record { value = y; next = next })) where
    abbrev step : Bool → Run (Addr × Option Addr)
    step stop = elim stop [ true ↦ ok (t, some b) | false ↦ seek f h n (some b) b ]

    seek-stop : ltb_ℤ n y.priority ≡ true → seek (suc f) h n s t ≡ ok (t, some b)
    unfolding seek
    seek-stop less = rw (here, there) (ap step less)

    seek-next : ltb_ℤ n y.priority ≡ false → seek (suc f) h n s t ≡ seek f h n (some b) b
    unfolding seek
    seek-next more = rw (here, there) (ap step more)

    seek_link-stop : ltb_ℤ n y.priority ≡ true → seek_link (suc f) h c s t ≡ link h a t (some b) c
    unfolding seek_link
    seek_link-stop less = rw (seek-stop less)

    seek_link-next :
        ltb_ℤ n y.priority ≡ false → seek_link (suc f) h c s t ≡ seek_link f h c (some b) b
    unfolding seek_link
    seek_link-next more = rw (seek-next more)

  -- The loop stops where the new node belongs.
  pub seek_link-Joins :
      (f : ℕ) (h : Heap Item) (c : Chain) (s : Option Addr) (t : Addr) (x : Item)
      (cs : List (Cell Item))
      → h a ≡ some (record { value = item p n; next = none })
      → Linked h ((t, x) ∷ cs)
      → Away a ((t, x) ∷ cs)
      → c.rear ≡ some (last_from t cs)
      → length cs < f
      → Returns (Joins c t x cs h) (seek_link f h c s t)
  seek_link-Joins zero h c s t x cs new k out rear lt = absurd (omega arith)
  seek_link-Joins (suc f) h c s t x [] new (here, away, k) (ne, out) rear lt =
      let g = write h t (some (record { value = x; next = some a })) in
      (
        record { heap = g; front = c.front; rear = some a; len = suc c.len },
        seek_link-rear f h c s t x here ∙ link-rear h c new t x s rear here,
        record {
          linked =
              (write_here h t _, ((λ e. ne (sym e)), tt), (write_other h t a _ ne ∙ new, tt, tt));
          front = refl;
          rear = refl;
          len = refl;
          same = λ d other apart. write_other h t d _ apart.0;
        },
      )
  seek_link-Joins (suc f) h c s t x ((b, y) ∷ cs) new (here, away, k) (ne, out) rear lt =
      elim (Bool-cases (ltb_ℤ n y.priority)) [
        | inl less ↦
            let g = write h t (some (record { value = x; next = some a })) in
            let g' = write g a (some (record { value = item p n; next = some b })) in
            let apart = Away-last t b y cs away in
            let here' = write_here h t (some (record { value = x; next = some a })) in
            let between : is_at c.rear t ≡ false = rw rear (ground arith) in
            (
              record { heap = g'; front = c.front; rear = c.rear; len = suc c.len },
              seek_link-stop f h c s t b x y _ here k.0 less
                  ∙ link-between h c new t b x _ between ne here,
              record {
                linked = rw less (
                  write_other g a t _ (λ e. ne (sym e)) ∙ here',
                  ((λ e. ne (sym e)), away),
                  (
                    write_here g a _,
                    out,
                    Linked-write g a _ ((b, y) ∷ cs) (Linked-write h t _ ((b, y) ∷ cs) k away) out,
                  ),
                );
                front = refl;
                rear = rw less rear;
                len = refl;
                same = λ d other far. write_other g a d _ other ∙ write_other h t d _ far.0;
              },
            )
        | inr more ↦
            let (c', is, j) = seek_link-Joins f h c (some b) b y cs new k out rear (omega arith) in
            (
              c',
              seek_link-next f h c s t b x y _ here k.0 more ∙ is,
              record {
                linked = rw more (
                  j.same t (λ e. ne (sym e)) away ∙ here,
                  (away.0, joined-Away t cs away.1 (λ e. ne (sym e))),
                  j.linked,
                );
                front = j.front;
                rear = rw more j.rear;
                len = j.len;
                same = λ d other far. j.same d other far.1;
              },
            )
      ]

module _ (f : ℕ) (a : Addr) (p : Ref) (n : ℤ) (c : Chain) where
  pub p_enqueue_node-alone :
      c.len ≡ 0 → p_enqueue_node f a p n c ≡ ok (alone (allocated a p n c) a c)
  unfolding p_enqueue_node
  p_enqueue_node-alone e = rw e

  module _ (k : ℕ) (b : Addr) (m : Node Item) (len : c.len ≡ suc k) (front : c.front ≡ some b)
      (here : allocated a p n c b ≡ some m) where
    pub p_enqueue_node-front :
        ltb_ℤ n m.value.priority ≡ true
        → allocated a p n c a ≡ some (record { value = item p n; next = none })
        → p_enqueue_node f a p n c
          ≡ ok (record {
            heap = write (allocated a p n c) a (some (record { value = item p n; next = some b }));
            front = some a;
            rear = c.rear;
            len = suc c.len;
          })
    unfolding p_enqueue_node set_next
    p_enqueue_node-front less new =
        let more : (suc k == 0) ≡ false = ground arith in rw (len, more, front, here, less, new)

    pub p_enqueue_node-behind :
        ltb_ℤ n m.value.priority ≡ false
        → p_enqueue_node f a p n c ≡ seek_link a p n f (allocated a p n c) c none b
    unfolding p_enqueue_node seek_link
    p_enqueue_node-behind less =
        let more : (suc k == 0) ≡ false = ground arith in rw (len, more, front, here, less)
