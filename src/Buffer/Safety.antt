-- ===== src/Buffer/Safety.antt =====
-- What the two threads guarantee in every state that they can get to.
use cpu_schedular.Base.{
  ℕ, zero, suc, ◌+◌, ◌*◌, ◌%◌, ◌<◌, ◌≤◌, ◌≡◌, ◌≢◌, ◌⊎◌, refl, sym, ap, ◌∙◌, inl, inr, Bool-cases,
  ltb, arith, tests,
}
use cpu_schedular.Buffer.{
  Phase, waiting, holding, posting, Shared, produce, consume, Step, wait_slot, put, post_item,
  wait_item, get, post_slot, Reachable, begin, after,
}
use cpu_schedular.Buffer.Invariant.{Inv, held, done, puts, gets, upto, Reachable-Inv, other_place}

-- The consumer gets the items in the order in which they are produced, each once: at any time it has
-- consumed the first of the ten items, no more than were put into the buffer, and the producer is
-- never more than three items ahead.
pub Reachable-consumed :
    (n : ℕ) (s : Shared)
    → Reachable n s
    → (s.consumed ≡ upto (gets s)) × (gets s ≤ puts s) × (puts s ≤ gets s + 3) × (puts s ≤ 10)
Reachable-consumed n s h =
    let v = Reachable-Inv n s h in
    let items = v.items in
    let slots = v.slots in (v.consumed, omega (arith, items), omega (arith, slots), v.made)

-- When the producer is about to write, the place that it writes to holds no item that the consumer
-- has still to take: each of those is in a place of its own, another one.
pub Reachable-put :
    (n : ℕ) (s : Shared)
    → Reachable n s
    → s.producer ≡ holding
    → (j : ℕ) → gets s ≤ j
    → j < puts s
    → (s.buffer (j % 3) ≡ j) × (j % 3 ≢ s.into)
Reachable-put n s h e j le lt =
    let v = Reachable-Inv n s h in
    let slots = rw e at v.slots in
    let m : puts s ≡ s.item = rw e (omega arith) in
    (
      v.unread j le lt,
      λ same. other_place (puts s) j lt (omega (arith, slots, m, le)) (same ∙ v.into),
    )

Phase-cases : (p : Phase) → (p ≡ waiting) ⊎ (p ≡ holding) ⊎ (p ≡ posting)
Phase-cases waiting = inl refl
Phase-cases holding = inr (inl refl)
Phase-cases posting = inr (inr refl)

ℕ-cases : (n : ℕ) → (n ≡ 0) ⊎ ((k : ℕ) × (n ≡ suc k))
ℕ-cases zero = inl refl
ℕ-cases (suc k) = inr (k, refl)

-- Both threads are at the beginning of a round.
module _ (s : Shared) (v : Inv s) (e : s.producer ≡ waiting) (e' : s.consumer ≡ waiting) where
  both_item : s.ready_count + s.i ≡ s.item
  both_item = let items = rw e' at v.items in omega (arith, items)

  both_slot : s.wait_count + s.item ≡ 3 + s.i
  both_slot = let slots = rw e at v.slots in omega (arith, slots)

  both_made : s.item ≤ 10
  both_made = let made = rw e at v.made in omega (arith, made)

  both_end : s.ready_count ≡ 0 → s.wait_count ≡ 0 ⊎ (10 ≤ s.item) → s.consumed ≡ upto 10
  both_end none_ready full =
      let items = both_item in
      let slots = both_slot in
      let made = both_made in
      let n : gets s ≡ 10 = rw e' (elim full [
        | inl c ↦ absurd (omega (arith, items, slots, none_ready, c))
        | inr c ↦ omega (arith, items, made, none_ready, c)
      ]) in
      v.consumed ∙ ap upto n

  take_item : (k : ℕ) → s.ready_count ≡ suc k → (t : Shared) × Step s t
  take_item k count =
      let items = both_item in
      let made = both_made in (_, wait_item k e' (omega (arith, items, made, count)) count)

  both_wait : ((t : Shared) × Step s t) ⊎ (s.consumed ≡ upto 10)
  both_wait = elim (ℕ-cases s.ready_count) [
    | inr (k, count) ↦ inl (take_item k count)
    | inl none_ready ↦ elim (ℕ-cases s.wait_count) [
      | inl full ↦ inr (both_end none_ready (inl full))
      | inr (k, count) ↦ elim (Bool-cases (ltb s.item 10)) [
        | inl more ↦ inl (_, wait_slot k e (omega tests) count)
        | inr all ↦ inr (both_end none_ready (inr (omega tests)))
      ]
    ]
  ]

-- The threads do not block each other: in every state that they can get to there is a step, or all
-- ten items have been consumed in their order.
pub Reachable-Step :
    (n : ℕ) (s : Shared) → Reachable n s → ((t : Shared) × Step s t) ⊎ (s.consumed ≡ upto 10)
Reachable-Step n s h =
    let v = Reachable-Inv n s h in
    elim (Phase-cases s.producer) [
      | inr (inl e) ↦ inl (produce s, put e)
      | inr (inr e) ↦ inl (_, post_item e)
      | inl e ↦ elim (Phase-cases s.consumer) [
        | inr (inl e') ↦ inl (consume s, get e')
        | inr (inr e') ↦ inl (_, post_slot e')
        | inl e' ↦ both_wait s v e e'
      ]
    ]

-- The steps that a thread has made in its round.
abbrev rank : Phase → ℕ
rank waiting = 0
rank holding = 1
rank posting = 2

steps : Shared → ℕ
steps s = 3 * s.item + rank s.producer + 3 * s.i + rank s.consumer

Step-steps : (s t : Shared) → Step s t → steps t ≡ suc (steps s)
unfolding steps
Step-steps s t (wait_slot k e lt count) = rw e (omega arith)
Step-steps s t (put e) = rw e (omega arith)
Step-steps s t (post_item e) = rw e (omega arith)
Step-steps s t (wait_item k e lt count) = rw e (omega arith)
Step-steps s t (get e) = rw e (omega arith)
Step-steps s t (post_slot e) = rw e (omega arith)

Reachable-steps : (n : ℕ) (s : Shared) → Reachable n s → n ≡ steps s
unfolding steps
Reachable-steps n s begin = refl
Reachable-steps n s (after {n = m} {s = r} h step) =
    ap suc (Reachable-steps m r h) ∙ sym (Step-steps r s step)

rank-le : (p : Phase) (n : ℕ) → n + held p + done p ≤ 10 → 3 * n + rank p ≤ 30
rank-le waiting n le = omega arith
rank-le holding n le = omega arith
rank-le posting n le = omega arith

-- In whatever order they take their turns, the threads make 60 steps at most.
pub Reachable-bound : (n : ℕ) (s : Shared) → Reachable n s → n ≤ 60
unfolding steps
Reachable-bound n s h =
    let v = Reachable-Inv n s h in
    let count = Reachable-steps n s h in
    let made : s.item + held s.producer + done s.producer ≤ 10 = elim (Phase-cases s.producer) [
      | inl e ↦ let made = rw e at v.made in rw e (omega (arith, made))
      | inr (inl e) ↦ rw e (omega (arith, v.going e))
      | inr (inr e) ↦ let made = rw e at v.made in rw e (omega (arith, made))
    ] in
    let taken : s.i + held s.consumer + done s.consumer ≤ 10 = omega (arith, v.items, v.made) in
    omega (arith, count, rank-le s.producer s.item made, rank-le s.consumer s.i taken)
