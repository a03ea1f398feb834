-- ===== src/LinkedList/Remove.antt =====
-- Removing a node of a linked list, at either end.
use cpu_schedular.Base.{
  ℕ, zero, suc, ◌<◌, ◌≡◌, refl, ap, ◌∙◌, ℤ, none, some, List, [], ◌∷◌, length, ok, fault, arith,
  Returns,
}
use cpu_schedular.Heap.{Addr, Heap, write, set_next}
use cpu_schedular.Heap.Linked.{
  Cell, first, values, Away, Linked, write_here, write_other, Linked-write,
}
use cpu_schedular.LinkedList.{
  LinkedList, before_last, cut, list_remove_from_end, list_remove_from_front,
}
use cpu_schedular.LinkedList.Laws.{Holds, HoldsValues}

-- `list_RemoveFromFront` on a list that is not empty returns the new front: the list holds the rest,
-- and no memory but that of the list has changed.
pub list_remove_from_front-HoldsValues :
    (l : LinkedList) (a : Addr) (x : ℤ) (cs : List (Cell ℤ))
    → Holds l ((a, x) ∷ cs)
    → Returns
        (λ (front, l').
          (front ≡ l'.front) × HoldsValues ((a, x) ∷ cs) l.heap (values cs) l' × (l'.heap a ≡ none))
        (list_remove_from_front l)
unfolding list_remove_from_front
list_remove_from_front-HoldsValues l a x cs ((here, away, k), e) = (
  (first cs, record { heap = write l.heap a none; front = first cs; rear = l.rear }),
  rw (e, here),
  (
    refl,
    (
      cs,
      (Linked-write l.heap a none cs k away, refl),
      refl,
      λ d far. write_other l.heap a d none far.0,
    ),
    write_here l.heap a none,
  ),
)

-- The numbers of a list that is not empty, without the last one.
abbrev pub all_but_last : ℤ → List ℤ → List ℤ
all_but_last x [] = []
all_but_last x (y ∷ xs) = x ∷ all_but_last y xs

-- Of two or more nodes from `a` on, the last one is cut off.
module _ (h : Heap ℤ) (a b : Addr) (x y : ℤ) where
  cut-last :
      h a ≡ some (record { value = x; next = some b })
      → cut h a ≡ ok (write (write h a (some (record { value = x; next = none }))) b none)
  unfolding cut set_next
  cut-last here = rw here

  before_last-here :
      (f : ℕ)
      → h a ≡ some (record { value = x; next = some b })
      → h b ≡ some (record { value = y; next = none })
      → before_last (suc f) h a ≡ ok a
  unfolding before_last
  before_last-here f here there = rw (here, there)

  before_last-next :
      (f : ℕ) (c : Addr)
      → h a ≡ some (record { value = x; next = some b })
      → h b ≡ some (record { value = y; next = some c })
      → before_last (suc f) h a ≡ before_last f h b
  unfolding before_last
  before_last-next f c here there = rw (here, there)

before_last-cut :
    (f : ℕ) (h : Heap ℤ) (a b : Addr) (x y : ℤ) (cs : List (Cell ℤ))
    → Linked h ((a, x) ∷ (b, y) ∷ cs)
    → length cs < f
    → Returns
        (λ t.
          Returns
            (λ h'.
              (ds : List (Cell ℤ)) × Linked h' ((a, x) ∷ ds)
              × (values ((a, x) ∷ ds) ≡ all_but_last x (values ((b, y) ∷ cs)))
              × ((d : Addr) → Away d ((a, x) ∷ (b, y) ∷ cs) → h' d ≡ h d)
              × ((d : Addr) → Away d ((b, y) ∷ cs) → Away d ds))
            (cut h t))
        (before_last f h a)
before_last-cut zero h a b x y cs k lt = absurd (omega arith)
before_last-cut (suc f) h a b x y [] (here, away, (there, out, k)) lt = (
  a,
  before_last-here h a b x y f here there,
  (
    write (write h a (some (record { value = x; next = none }))) b none,
    cut-last h a b x y here,
    (
      [],
      (write_other (write h a _) b a none away.0 ∙ write_here h a _, tt, tt),
      refl,
      (λ d far. write_other (write h a _) b d none far.1.0 ∙ write_other h a d _ far.0),
      λ d far. tt,
    ),
  ),
)
before_last-cut (suc f) h a b x y ((c, z) ∷ cs) (here, away, k) lt =
    let (t, is, (h', done, (ds, linked, same_values, same, behind))) =
      before_last-cut f h b c y z cs k (omega arith) in
    (
      t,
      before_last-next h a b x y f c here k.0 ∙ is,
      (
        h',
        done,
        (
          (b, y) ∷ ds,
          (same a away ∙ here, (away.0, behind a away.1), linked),
          ap (x ∷◌) same_values,
          (λ d far. same d far.1),
          λ d far. (far.0, behind d far.1),
        ),
      ),
    )

-- What `list_RemoveFromEnd` leaves: a number that is alone stays in the list.
abbrev pub trimmed : ℤ → List ℤ → List ℤ
trimmed x [] = x ∷ []
trimmed x (y ∷ xs) = all_but_last x (y ∷ xs)

before_last-alone :
    (f : ℕ) (h : Heap ℤ) (a : Addr) (x : ℤ)
    → 0 < f
    → h a ≡ some (record { value = x; next = none })
    → before_last f h a ≡ ok a
unfolding before_last
before_last-alone zero h a x lt here = absurd (omega arith)
before_last-alone (suc f) h a x lt here = rw here

module _ (f : ℕ) (l : LinkedList) where
  list_remove_from_end-cut :
      (a t : Addr) (h : Heap ℤ)
      → l.front ≡ some a
      → before_last f l.heap a ≡ ok t
      → cut l.heap t ≡ ok h
      → list_remove_from_end f l ≡ ok (l.front, record { heap = h; front = l.front; rear = some t })
  unfolding list_remove_from_end
  list_remove_from_end-cut a t h e is done = rw (e, is, done)

  cut-alone :
      (a : Addr) (x : ℤ)
      → l.heap a ≡ some (record { value = x; next = none })
      → cut l.heap a ≡ ok (write l.heap a (some (record { value = x; next = none })))
  unfolding cut set_next
  cut-alone a x here = rw here

  -- `list_RemoveFromEnd` on a list that is not empty, with as many rounds as there are nodes, returns
  -- the front of the list. Of two or more numbers the last one is gone; a number that is alone
  -- stays. No memory but that of the list has changed.
  pub list_remove_from_end-HoldsValues :
      (a : Addr) (x : ℤ) (cs : List (Cell ℤ))
      → Holds l ((a, x) ∷ cs)
      → length cs < f
      → Returns
          (λ (front, l').
            (front ≡ l'.front) × HoldsValues ((a, x) ∷ cs) l.heap (trimmed x (values cs)) l')
          (list_remove_from_end f l)
  list_remove_from_end-HoldsValues a x [] ((here, away, k), e) lt = (
    _,
    list_remove_from_end-cut a a _ e (before_last-alone f l.heap a x (omega arith) here)
        (cut-alone a x here),
    (
      refl,
      (
        (a, x) ∷ [],
        ((write_here l.heap a _, tt, tt), e),
        refl,
        λ d far. write_other l.heap a d _ far.0,
      ),
    ),
  )
  list_remove_from_end-HoldsValues a x ((b, y) ∷ cs) (k, e) lt =
      let (t, is, (h, done, (ds, linked, same_values, same, behind))) =
        before_last-cut f l.heap a b x y cs k (omega arith) in
      (
        _,
        list_remove_from_end-cut a t h e is done,
        (refl, ((a, x) ∷ ds, (linked, e), same_values, same)),
      )

  -- To remove a node from an empty list is to read through the null pointer, at either end.
  pub list_remove-fault :
      l.front ≡ none → (list_remove_from_end f l ≡ fault) × (list_remove_from_front l ≡ fault)
  unfolding list_remove_from_end list_remove_from_front
  list_remove-fault e = (rw e, rw e)
