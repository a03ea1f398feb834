-- ===== src/Queue/Sorted.antt =====
-- The order of a priority queue: priorities rise from front to rear, and a new node stands behind
-- the nodes of its own priority.
use cpu_schedular.Base.{
  ℤ, ◌≡◌, refl, ◌≤ℤ◌, ◌<ℤ◌, [], ◌∷◌, ◌++◌, arith, tests, ltb_ℤ, Bool-cases, inl, inr,
}
use cpu_schedular.Queue.{Ref, Item, Queue, p_enqueue}

abbrev pub AllItems : (Item → Type 0) → Queue → Type 0
AllItems P [] = Unit {0}
AllItems P (x ∷ q) = P x × AllItems P q

abbrev pub IsSorted : Queue → Type 0
IsSorted [] = Unit {0}
IsSorted (x ∷ q) = AllItems (λ y. x.priority ≤ℤ y.priority) q × IsSorted q

pub AllItems-mono :
    {P Q : Item → Type 0} (q : Queue) → ((x : Item) → P x → Q x) → AllItems P q → AllItems Q q
AllItems-mono [] f h = tt
AllItems-mono (x ∷ q) f h = (f x h.0, AllItems-mono q f h.1)

pub AllItems-p_enqueue :
    (P : Item → Type 0) (p : Ref) (n : ℤ) (q : Queue)
    → P (record { task = p; priority = n })
    → AllItems P q
    → AllItems P (p_enqueue p n q)
unfolding p_enqueue
AllItems-p_enqueue P p n [] new h = (new, tt)
AllItems-p_enqueue P p n (x ∷ q) new h = elim (Bool-cases (ltb_ℤ n x.priority)) [
  | inl e ↦ rw e (new, h)
  | inr e ↦ rw e (h.0, AllItems-p_enqueue P p n q new h.1)
]

-- `p_enqueue` keeps a sorted priority queue sorted.
pub p_enqueue-IsSorted : (p : Ref) (n : ℤ) (q : Queue) → IsSorted q → IsSorted (p_enqueue p n q)
unfolding p_enqueue
p_enqueue-IsSorted p n [] s = (tt, tt)
p_enqueue-IsSorted p n (x ∷ q) s = elim (Bool-cases (ltb_ℤ n x.priority)) [
  | inl e ↦
      let below : n ≤ℤ x.priority = omega tests in
      rw e ((below, AllItems-mono q (λ y h. omega arith) s.0), s)
  | inr e ↦
      let above : x.priority ≤ℤ n = omega tests in
      rw e (
        AllItems-p_enqueue (λ y. x.priority ≤ℤ y.priority) p n q above s.0,
        p_enqueue-IsSorted p n q s.1,
      )
]

-- In a sorted queue the new node stands behind all nodes of its own priority or a lower one and
-- in front of all others, which keep their order.
pub p_enqueue-IsStable :
    (p : Ref) (n : ℤ) (q : Queue)
    → IsSorted q
    → (front : Queue) × (back : Queue) × (q ≡ front ++ back)
      × (p_enqueue p n q ≡ front ++ record { task = p; priority = n } ∷ back)
      × AllItems (λ x. x.priority ≤ℤ n) front
      × AllItems (λ x. n <ℤ x.priority) back
unfolding p_enqueue
p_enqueue-IsStable p n [] s = ([], [], refl, refl, tt, tt)
p_enqueue-IsStable p n (x ∷ q) s = elim (Bool-cases (ltb_ℤ n x.priority)) [
  | inl e ↦
      let below : n <ℤ x.priority = omega tests in
      ([], x ∷ q, refl, rw e, tt, (below, AllItems-mono q (λ y h. omega arith) s.0))
  | inr e ↦
      let above : x.priority ≤ℤ n = omega tests in
      let (front, back, split, join, low, high) = p_enqueue-IsStable p n q s.1 in
      (x ∷ front, back, rw split, rw (e, join), (above, low), high)
]
