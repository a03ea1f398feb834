-- ===== src/Heap/Linked.antt =====
-- The nodes of a list in memory, in order.
use cpu_schedular.Base.{
  ℕ, zero, suc, ◌<◌, ◌≡◌, ◌≢◌, refl, sym, ap, ◌∙◌, Option, none, some, List, [], ◌∷◌, ◌++◌, length,
  ok, arith, Returns,
}
use cpu_schedular.Heap.{Addr, Node, Heap, write, set_next, traverse}

-- An address, and the value of the node there.
abbrev pub Cell : Type 0 → Type 0
Cell A = Addr × A

module _ {A : Type 0} where
  abbrev pub first : List (Cell A) → Option Addr
  first [] = none
  first ((a, x) ∷ cs) = some a

  -- The address of the last of the nodes that follow the one at `a`.
  abbrev pub last_from : Addr → List (Cell A) → Addr
  last_from a [] = a
  last_from a ((b, x) ∷ cs) = last_from b cs

  abbrev pub last_of : List (Cell A) → Option Addr
  last_of [] = none
  last_of ((a, x) ∷ cs) = some (last_from a cs)

  abbrev pub values : List (Cell A) → List A
  values [] = []
  values ((a, x) ∷ cs) = x ∷ values cs

  -- No node is at this address.
  abbrev pub Away : Addr → List (Cell A) → Type 0
  Away a [] = Unit {0}
  Away a ((b, x) ∷ cs) = (a ≢ b) × Away a cs

  -- The nodes are in memory, each at an address of its own and with that of the next one.
  abbrev pub Linked : Heap A → List (Cell A) → Type 0
  Linked h [] = Unit {0}
  Linked h ((a, x) ∷ cs) =
      (h a ≡ some (record { value = x; next = first cs })) × Away a cs × Linked h cs

  pub write_here : (h : Heap A) (a : Addr) (c : Option (Node A)) → write h a c a ≡ c
  unfolding write
  write_here h a c = ground arith

  pub write_other : (h : Heap A) (a b : Addr) (c : Option (Node A)) → b ≢ a → write h a c b ≡ h b
  unfolding write
  write_other h a b c ne = ground arith

  -- What is at other addresses makes no difference.
  pub Linked-same :
      (h h' : Heap A) (cs : List (Cell A))
      → Linked h cs
      → ((b : Addr) → ¬ Away b cs → h' b ≡ h b)
      → Linked h' cs
  Linked-same h h' [] k same = tt
  Linked-same h h' ((a, x) ∷ cs) (here, away, k) same = (
    same a (λ out. out.0 refl) ∙ here,
    away,
    Linked-same h h' cs k (λ b near. same b (λ out. near out.1)),
  )

  pub Linked-write :
      (h : Heap A) (a : Addr) (c : Option (Node A)) (cs : List (Cell A))
      → Linked h cs
      → Away a cs
      → Linked (write h a c) cs
  Linked-write h a c [] k away = tt
  Linked-write h a c ((b, x) ∷ cs) (here, apart, k) (ne, away) =
      (write_other h a b c (λ e. ne (sym e)) ∙ here, apart, Linked-write h a c cs k away)

  -- A free address is away from every node.
  pub Linked-Away :
      (h : Heap A) (a : Addr) (cs : List (Cell A)) → Linked h cs → h a ≡ none → Away a cs
  Linked-Away h a [] k free = tt
  Linked-Away h a ((b, x) ∷ cs) (here, apart, k) free =
      (λ e. absurd (let at = sym here ∙ ap h (sym e) ∙ free in cc), Linked-Away h a cs k free)

  pub Away-last :
      (a b : Addr) (x : A) (cs : List (Cell A)) → Away a ((b, x) ∷ cs) → a ≢ last_from b cs
  Away-last a b x [] (ne, out) = ne
  Away-last a b x ((c, y) ∷ cs) (ne, out) = Away-last a c y cs out

  pub Away-append :
      (a b : Addr) (x : A) (cs : List (Cell A)) → Away a cs → a ≢ b → Away a (cs ++ (b, x) ∷ [])
  Away-append a b x [] out ne = (ne, tt)
  Away-append a b x ((c, y) ∷ cs) (other, out) ne = (other, Away-append a b x cs out ne)

  -- `Traverse` ends at the last node, if it may make a round for each node.
  pub traverse-last_from :
      (f : ℕ) (h : Heap A) (a : Addr) (x : A) (cs : List (Cell A))
      → Linked h ((a, x) ∷ cs)
      → length cs < f
      → traverse f h a ≡ ok (last_from a cs)
  unfolding traverse
  traverse-last_from zero h a x cs k lt = absurd (omega arith)
  traverse-last_from (suc f) h a x [] (here, out, k) lt = rw here
  traverse-last_from (suc f) h a x ((b, y) ∷ cs) (here, away, k) lt =
      rw here (traverse-last_from f h b y cs k (omega arith))

  -- A new node behind the last one.
  pub set_next-append :
      (h : Heap A) (a b : Addr) (x y : A) (cs : List (Cell A))
      → Linked h ((a, x) ∷ cs)
      → Away b ((a, x) ∷ cs)
      → h b ≡ some (record { value = y; next = none })
      → Returns
          (λ h'.
            Linked h' ((a, x) ∷ cs ++ (b, y) ∷ [])
            × ((c : Addr) → Away c ((a, x) ∷ cs) → h' c ≡ h c))
          (set_next h (last_from a cs) (some b))
  unfolding set_next
  set_next-append h a b x y [] (here, apart, k) (ne, out) new = (
    write h a (some (record { value = x; next = some b })),
    rw here,
    (
      (write_here h a _, (λ e. ne (sym e), tt), (write_other h a b _ ne ∙ new, tt, tt)),
      λ c away. write_other h a c _ away.0,
    ),
  )
  set_next-append h a b x y ((c, z) ∷ cs) (here, away, k) (ne, out) new =
      let (h', is, (linked, same)) = set_next-append h c b z y cs k out new in
      (
        h',
        is,
        (
          (same a away ∙ here, Away-append a b y ((c, z) ∷ cs) away (λ e. ne (sym e)), linked),
          λ d apart. same d apart.1,
        ),
      )

  pub values-append :
      (cs : List (Cell A)) (a : Addr) (x : A) → values (cs ++ (a, x) ∷ []) ≡ values cs ++ x ∷ []
  values-append [] a x = refl
  values-append ((b, y) ∷ cs) a x = rw (values-append cs a x)

  pub last_from-append :
      (b : Addr) (cs : List (Cell A)) (a : Addr) (x : A) → last_from b (cs ++ (a, x) ∷ []) ≡ a
  last_from-append b [] a x = refl
  last_from-append b ((c, y) ∷ cs) a x = last_from-append c cs a x

  pub length-append_one :
      (cs : List (Cell A)) (a : Addr) (x : A) → length (cs ++ (a, x) ∷ []) ≡ suc (length cs)
  length-append_one [] a x = refl
  length-append_one ((c, y) ∷ cs) a x = rw (length-append_one cs a x)

  -- The last node before a new one points to it.
  pub Linked-last :
      (h : Heap A) (a b : Addr) (x y : A) (cs : List (Cell A))
      → Linked h ((a, x) ∷ cs ++ (b, y) ∷ [])
      → (v : A) × (h (last_from a cs) ≡ some (record { value = v; next = some b }))
  Linked-last h a b x y [] (here, out, k) = (x, here)
  Linked-last h a b x y ((c, z) ∷ cs) (here, away, k) = Linked-last h c b z y cs k
