-- ===== src/Queue/Valid/Laws.antt =====
-- A queue in memory passes the checks, and the check of a priority queue tells whether it is sorted.
use cpu_schedular.Base.{
  ◌>>=◌, ℕ, zero, suc, ◌+◌, ◌<◌, ◌≤◌, ◌≡◌, ◌≢◌, ◌↔◌, refl, ap, ◌∙◌, ◌≤ℤ◌, Bool, true, false, not,
  ◌&&◌, Option, none, some, List, [], ◌∷◌, length, Run, ok, ◌==◌, leb, leb_ℤ, if◌then◌else◌,
  Bool-cases, inl, inr, arith, tests, Returns,
}
use cpu_schedular.Heap.{Addr, Node, Heap}
use cpu_schedular.Heap.Linked.{Cell, first, last_from, values, Linked, Away-last}
use cpu_schedular.Queue.{Item}
use cpu_schedular.Queue.Nodes.{Chain, is_at}
use cpu_schedular.Queue.Nodes.Refines.{Represents}
use cpu_schedular.Queue.Sorted.{AllItems, AllItems-mono, IsSorted}
use cpu_schedular.Queue.Valid.{follow, walk, counted, is_valid_queue, ordered, p_is_valid_queue}

module _ (f : ℕ) (h : Heap Item) (rear : Option Addr) where
  follow-next :
      (t b : Addr) (y : Item) (next : Option Addr)
      → is_at rear t ≡ false
      → h b ≡ some (record { value = y; next = next })
      → follow h rear (some b) t ≡ ok next
  unfolding follow
  follow-next t b y next e there = rw (e, there)

  walk-end :
      (s : Option Addr) (t : Addr) (x : Item) (k : ℕ)
      → h t ≡ some (record { value = x; next = none })
      → walk (suc f) h rear s t k ≡ ok (some (t, k))
  unfolding walk
  walk-end s t x k here = rw here

  walk-next :
      (t b : Addr) (x : Item) (s : Option Addr) (k : ℕ)
      → h t ≡ some (record { value = x; next = some b })
      → t ≢ b
      → follow h rear (some b) t ≡ ok s
      → walk (suc f) h rear (some b) t k ≡ walk f h rear s b (suc k)
  unfolding walk
  walk-next t b x s k here ne moved =
      let step : Bool → Run (Option (Addr × ℕ)) = λ fits. elim fits [
        | false ↦ ok none
        | true ↦ (do s' ← follow h rear (some b) t; walk f h rear s' b (suc k))
      ] in
      let fits : ((b == b) && not (b == t)) ≡ true = ground arith in
      let on : step true ≡ walk f h rear s b (suc k) = rw moved in rw here (ap step fits ∙ on)

walk-last_from :
    (f : ℕ) (h : Heap Item) (rear : Option Addr) (t : Addr) (x : Item) (cs : List (Cell Item))
    (k : ℕ)
    → Linked h ((t, x) ∷ cs)
    → rear ≡ some (last_from t cs)
    → length cs < f
    → walk f h rear (first cs) t k ≡ ok (some (last_from t cs, k + length cs))
walk-last_from zero h rear t x cs k linked e lt = absurd (omega arith)
walk-last_from (suc f) h rear t x [] k linked e lt =
    walk-end f h rear none t x k linked.0
    ∙ ap (λ n. ok (some (t, n))) (let same : k ≡ k + 0 = omega arith in same)
walk-last_from (suc f) h rear t x ((b, y) ∷ cs) k (here, away, linked) e lt =
    let apart = Away-last t b y cs away in
    let between : is_at rear t ≡ false = rw e (ground arith) in
    let moved = follow-next f h rear t b y (first cs) between linked.0 in
    let more : suc k + length cs ≡ k + suc (length cs) = omega arith in
    walk-next f h rear t b x (first cs) k here away.0 moved
    ∙ walk-last_from f h rear b y cs (suc k) linked e (omega arith)
    ∙ ap (λ n. ok (some (last_from b cs, n))) more

module _ (f : ℕ) (c : Chain) where
  is_valid_queue-none : c.len ≡ 0 → c.front ≡ none → c.rear ≡ none → is_valid_queue f c ≡ ok true
  unfolding is_valid_queue
  is_valid_queue-none n e e' = rw (n, e, e')

  is_valid_queue-one :
      (a : Addr) → c.len ≡ 1 → c.front ≡ some a → c.rear ≡ some a → is_valid_queue f c ≡ ok true
  unfolding is_valid_queue
  is_valid_queue-one a n e e' = rw (n, e, e') (ground arith)

  is_valid_queue-more :
      (k : ℕ) (a : Addr) (n : Node Item) (end : Option (Addr × ℕ))
      → c.len ≡ suc (suc k)
      → c.front ≡ some a
      → c.heap a ≡ some n
      → walk f c.heap c.rear n.next a 1 ≡ ok end
      → is_valid_queue f c ≡ ok (counted c end)
  unfolding is_valid_queue
  is_valid_queue-more k a n end len e here is =
      let some_left : (suc (suc k) == 0) ≡ false = ground arith in
      let more : (suc (suc k) == 1) ≡ false = ground arith in rw (len, some_left, more, e, here, is)

  -- On a queue in memory, with as many rounds as there are nodes, no assertion of `isValidQueue`
  -- fails and no null pointer is read.
  pub is_valid_queue-true :
      (cs : List (Cell Item)) → Represents c cs → length cs ≤ f → is_valid_queue f c ≡ ok true
  is_valid_queue-true [] r le = is_valid_queue-none r.len r.front r.rear
  is_valid_queue-true ((a, x) ∷ []) r le = is_valid_queue-one a r.len r.front r.rear
  is_valid_queue-true ((a, x) ∷ (b, y) ∷ cs) r le =
      let k = length cs in
      let is = walk-last_from f c.heap c.rear a x ((b, y) ∷ cs) 1 r.linked r.rear le in
      let same : counted c (some (last_from b cs, 1 + suc k)) ≡ true =
        rw (r.rear, r.len) (ground arith) in
      is_valid_queue-more k a _ _ r.len r.front r.linked.0 is ∙ ap ok same

-- The next node has no lower priority.
abbrev pub Rises : Item → List (Cell Item) → Type 0
Rises x [] = Unit {0}
Rises x ((b, y) ∷ cs) = x.priority ≤ℤ y.priority

Rises-AllItems :
    (x : Item) (cs : List (Cell Item))
    → Rises x cs
    → IsSorted (values cs)
    → AllItems (λ y. x.priority ≤ℤ y.priority) (values cs)
Rises-AllItems x [] le s = tt
Rises-AllItems x ((b, y) ∷ cs) le s = (le, AllItems-mono (values cs) (λ z above. omega arith) s.0)

AllItems-Rises :
    (x : Item) (cs : List (Cell Item))
    → AllItems (λ y. x.priority ≤ℤ y.priority) (values cs)
    → Rises x cs
AllItems-Rises x [] all = tt
AllItems-Rises x ((b, y) ∷ cs) all = all.0

module _ (f : ℕ) (h : Heap Item) (t b : Addr) (x y : Item) (next : Option Addr)
    (here : h t ≡ some (record { value = x; next = some b }))
    (there : h b ≡ some (record { value = y; next = next })) where
  ordered-next :
      ordered (suc f) h t ≡ (if leb_ℤ x.priority y.priority then ordered f h b else ok false)
  unfolding ordered
  ordered-next = rw (here, there)

ordered-end :
    (f : ℕ) (h : Heap Item) (t : Addr) (x : Item)
    → h t ≡ some (record { value = x; next = none })
    → ordered (suc f) h t ≡ ok true
unfolding ordered
ordered-end f h t x here = rw here

-- The loop tells whether the nodes from `t` on are in order.
ordered-IsSorted :
    (f : ℕ) (h : Heap Item) (t : Addr) (x : Item) (cs : List (Cell Item))
    → Linked h ((t, x) ∷ cs)
    → length cs < f
    → Returns (λ b. (b ≡ true) ↔ IsSorted (values ((t, x) ∷ cs))) (ordered f h t)
ordered-IsSorted zero h t x cs k lt = absurd (omega arith)
ordered-IsSorted (suc f) h t x [] k lt = (true, ordered-end f h t x k.0, (λ e. (tt, tt), λ s. refl))
ordered-IsSorted (suc f) h t x ((b, y) ∷ cs) (here, away, k) lt =
    let step = ordered-next f h t b x y (first cs) here k.0 in
    elim (Bool-cases (leb_ℤ x.priority y.priority)) [
      | inr more ↦
          (false, step ∙ (rw more), (λ e. absurd cc, λ s. absurd (let le = s.0.0 in omega tests)))
      | inl le ↦
          let (v, is, (there, back)) = ordered-IsSorted f h b y cs k (omega arith) in
          let rises : x.priority ≤ℤ y.priority = omega tests in
          (
            v,
            step ∙ (rw (le, is)),
            (λ e. (Rises-AllItems x ((b, y) ∷ cs) rises (there e), there e), λ s. back s.1),
          )
    ]

module _ (f : ℕ) (c : Chain) where
  p_is_valid_queue-short :
      is_valid_queue f c ≡ ok true → leb 2 c.len ≡ false → p_is_valid_queue f c ≡ ok true
  unfolding p_is_valid_queue
  p_is_valid_queue-short valid short = rw (valid, short)

  p_is_valid_queue-long :
      (a : Addr)
      → is_valid_queue f c ≡ ok true
      → leb 2 c.len ≡ true
      → c.front ≡ some a
      → p_is_valid_queue f c ≡ ordered f c.heap a
  unfolding p_is_valid_queue
  p_is_valid_queue-long a valid long e = rw (valid, long, e)

  -- On a queue in memory, with as many rounds as there are nodes, the check of `p_isValidQueue` ends
  -- without a fault, and no assertion of it fails if and only if the priorities rise from front to
  -- rear.
  pub p_is_valid_queue-IsSorted :
      (cs : List (Cell Item))
      → Represents c cs
      → length cs ≤ f
      → Returns (λ b. (b ≡ true) ↔ IsSorted (values cs)) (p_is_valid_queue f c)
  p_is_valid_queue-IsSorted [] r le =
      let n = r.len in
      let short : leb 2 c.len ≡ false = ground arith in
      (true, p_is_valid_queue-short (is_valid_queue-true f c [] r le) short, (λ e. tt, λ s. refl))
  p_is_valid_queue-IsSorted ((a, x) ∷ []) r le =
      let n : c.len ≡ 1 = r.len in
      let short : leb 2 c.len ≡ false = ground arith in
      (
        true,
        p_is_valid_queue-short (is_valid_queue-true f c ((a, x) ∷ []) r le) short,
        (λ e. (tt, tt), λ s. refl),
      )
  p_is_valid_queue-IsSorted ((a, x) ∷ (b, y) ∷ cs) r le =
      let n : c.len ≡ suc (suc (length cs)) = r.len in
      let long : leb 2 c.len ≡ true = ground arith in
      let valid = is_valid_queue-true f c ((a, x) ∷ (b, y) ∷ cs) r le in
      let (v, is, same) = ordered-IsSorted f c.heap a x ((b, y) ∷ cs) r.linked le in
      (v, p_is_valid_queue-long a valid long r.front ∙ is, same)
