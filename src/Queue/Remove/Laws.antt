-- ===== src/Queue/Remove/Laws.antt =====
-- What the functions that look for a process by its number find and remove.
use cpu_schedular.Base.{
  ℕ, ◌≡◌, refl, ap, sym, subst, ◌⊎◌, inl, inr, true, false, [], ◌∷◌, ◌++◌, Option, none, some, ok,
  if◌then◌else◌, Bool-cases, arith,
}
use cpu_schedular.Queue.{Ref, Item, Queue, dequeue}
use cpu_schedular.Queue.Remove.{rear, matches, remove_next, remove_node_by_pid, find_process}
use cpu_schedular.Queue.Sorted.{AllItems}

module _ (pid_of : Ref → ℕ) (pid : ℕ) where
  -- The node is not one of the process.
  abbrev pub Misses : Item → Type 0
  Misses x = matches pid_of pid x ≡ false

  -- There is no node of the process, or the first one is taken out.
  abbrev pub Removes : Queue → Option Ref × Queue → Type 0
  Removes q (found, rest) =
      ((found ≡ none) × (rest ≡ q) × AllItems Misses q)
      ⊎ ((front : Queue) × (x : Item) × (back : Queue) × (q ≡ front ++ x ∷ back)
          × (found ≡ some x.task)
          × (rest ≡ front ++ back)
          × (matches pid_of pid x ≡ true)
          × AllItems Misses front)

  -- Another process is at the front of several nodes, and the process is at the rear.
  abbrev pub IsAtRear : Queue → Type 0
  IsAtRear [] = ⊥
  IsAtRear (x ∷ []) = ⊥
  IsAtRear (x ∷ y ∷ q) = Misses x × (matches pid_of pid (rear y q) ≡ true)

  Removes-behind :
      (x : Item) (q : Queue) (found : Option Ref) (rest : Queue)
      → Misses x
      → Removes q (found, rest)
      → Removes (x ∷ q) (found, x ∷ rest)
  Removes-behind x q found rest m (inl (none_found, same, all)) =
      inl (none_found, ap (◌∷◌ x) same, (m, all))
  Removes-behind x q found rest m (inr (front, y, back, split, is, joined, hit, all)) =
      inr (x ∷ front, y, back, ap (◌∷◌ x) split, is, ap (◌∷◌ x) joined, hit, (m, all))

  Removes-front :
      (x : Item) (q : Queue) → matches pid_of pid x ≡ true → Removes (x ∷ q) (some x.task, q)
  Removes-front x q hit = inr ([], x, q, refl, refl, refl, hit, tt)

  remove_next-hit :
      (y : Item) (q : Queue)
      → matches pid_of pid y ≡ true
      → remove_next pid_of pid (y ∷ q) ≡ (some y.task, q)
  unfolding remove_next
  remove_next-hit y q hit = rw hit

  remove_next-miss :
      (y : Item) (q : Queue)
      → Misses y
      → remove_next pid_of pid (y ∷ q)
        ≡ ((remove_next pid_of pid q).0, y ∷ (remove_next pid_of pid q).1)
  unfolding remove_next
  remove_next-miss y q miss = rw miss

  remove_next-Removes : (q : Queue) → Removes q (remove_next pid_of pid q)
  unfolding remove_next
  remove_next-Removes [] = inl (refl, refl, tt)
  remove_next-Removes (y ∷ q) = elim (Bool-cases (matches pid_of pid y)) [
    | inl hit ↦ subst (Removes (y ∷ q)) (sym (remove_next-hit y q hit)) (Removes-front y q hit)
    | inr miss ↦
        subst (Removes (y ∷ q)) (sym (remove_next-miss y q miss))
          (Removes-behind y q _ _ miss (remove_next-Removes q))
  ]

  remove_node_by_pid-hit :
      (x : Item) (q : Queue)
      → matches pid_of pid x ≡ true
      → remove_node_by_pid pid_of pid (x ∷ q) ≡ (some x.task, q)
  unfolding remove_node_by_pid
  remove_node_by_pid-hit x [] hit = rw hit
  remove_node_by_pid-hit x (y ∷ q) hit = rw hit

  remove_node_by_pid-rear :
      (x y : Item) (q : Queue)
      → Misses x
      → matches pid_of pid (rear y q) ≡ true
      → remove_node_by_pid pid_of pid (x ∷ y ∷ q) ≡ dequeue (x ∷ y ∷ q)
  unfolding remove_node_by_pid
  remove_node_by_pid-rear x y q miss hit = rw (miss, hit)

  remove_node_by_pid-behind :
      (x y : Item) (q : Queue)
      → Misses x
      → Misses (rear y q)
      → remove_node_by_pid pid_of pid (x ∷ y ∷ q)
        ≡ ((remove_next pid_of pid (y ∷ q)).0, x ∷ (remove_next pid_of pid (y ∷ q)).1)
  unfolding remove_node_by_pid
  remove_node_by_pid-behind x y q miss other = rw (miss, other)

  remove_node_by_pid-one :
      (x : Item) → Misses x → remove_node_by_pid pid_of pid (x ∷ []) ≡ (none, x ∷ [])
  unfolding remove_node_by_pid
  remove_node_by_pid-one x miss = rw miss

  -- The result is that for a process at the rear, or that for any other.
  abbrev pub RemovesOrDequeues : Queue → Option Ref × Queue → Type 0
  RemovesOrDequeues q result =
      (IsAtRear q × (result ≡ dequeue q)) ⊎ ((¬ IsAtRear q) × Removes q result)

  -- The process is not at the front.
  remove_node_by_pid-miss :
      (x : Item) (q : Queue)
      → Misses x
      → RemovesOrDequeues (x ∷ q) (remove_node_by_pid pid_of pid (x ∷ q))
  remove_node_by_pid-miss x [] miss = inr (
    λ at_rear. at_rear,
    subst (Removes (x ∷ [])) (sym (remove_node_by_pid-one x miss)) (inl (refl, refl, (miss, tt))),
  )
  remove_node_by_pid-miss x (y ∷ q) miss = elim (Bool-cases (matches pid_of pid (rear y q))) [
    | inl last ↦ inl ((miss, last), remove_node_by_pid-rear x y q miss last)
    | inr other ↦ inr (
      λ (_, last). cc,
      subst (Removes (x ∷ y ∷ q)) (sym (remove_node_by_pid-behind x y q miss other))
          (Removes-behind x (y ∷ q) _ _ miss (remove_next-Removes (y ∷ q))),
    )
  ]

  -- The process is at the front, so that it is not only at the rear.
  hit-IsAtRear : (x : Item) (q : Queue) → matches pid_of pid x ≡ true → ¬ IsAtRear (x ∷ q)
  hit-IsAtRear x [] hit at_rear = at_rear
  hit-IsAtRear x (y ∷ q) hit (miss, _) = cc

  -- If a queue has several nodes, and the number is that of the process at the rear and not of the
  -- one at the front, `remove_node_by_pid` takes out the node at the front, as `dequeue` does. Of
  -- any other queue it takes out the first node with the number, or it changes nothing and returns
  -- none if there is no such node.
  pub remove_node_by_pid-Removes :
      (q : Queue)
      → (IsAtRear q × (remove_node_by_pid pid_of pid q ≡ dequeue q))
        ⊎ ((¬ IsAtRear q) × Removes q (remove_node_by_pid pid_of pid q))
  unfolding remove_node_by_pid
  remove_node_by_pid-Removes [] = inr (λ at_rear. at_rear, inl (refl, refl, tt))
  remove_node_by_pid-Removes (x ∷ q) = elim (Bool-cases (matches pid_of pid x)) [
    | inl hit ↦ inr (
      hit-IsAtRear x q hit,
      subst (Removes (x ∷ q)) (sym (remove_node_by_pid-hit x q hit)) (Removes-front x q hit),
    )
    | inr miss ↦ remove_node_by_pid-miss x q miss
  ]

  -- The first node of the process.
  abbrev pub first : Queue → Option Ref
  first [] = none
  first (x ∷ q) = let rest = first q in if matches pid_of pid x then some x.task else rest

  -- In a queue that is not empty, `find_process` returns the first process with the number among
  -- all nodes but the last, whatever the last one holds.
  pub find_process-first :
      (q : Queue) (last : Item) → find_process pid_of pid (q ++ last ∷ []) ≡ ok (first q)
  unfolding find_process
  find_process-first [] last = refl
  find_process-first (x ∷ []) last = ground arith
  find_process-first (x ∷ y ∷ q) last = elim (Bool-cases (matches pid_of pid x)) [
    | inl hit ↦ rw hit
    | inr miss ↦ rw (miss, find_process-first (y ∷ q) last)
  ]
