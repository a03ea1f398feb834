-- ===== src/Buffer/Invariant.antt =====
-- The items go through the buffer in their order, each once, and the threads do not block each other.
use cpu_schedular.Base.{
  ℕ, zero, suc, ◌+◌, ◌%◌, ◌<◌, ◌≤◌, ◌≡◌, ◌≢◌, refl, sym, ap, ◌∙◌, inl, inr, List, [], ◌∷◌, ◌++◌,
  ◌==◌, ==_iff, Bool-cases, arith,
}
use cpu_schedular.Buffer.{
  Phase, waiting, holding, posting, Shared, start, produce, consume, Step, wait_slot, put,
  post_item, wait_item, get, post_slot, Reachable, begin, after,
}

abbrev pub held : Phase → ℕ
held waiting = 0
held holding = 1
held posting = 0

abbrev pub done : Phase → ℕ
done waiting = 0
done holding = 0
done posting = 1

-- How many items were put into the buffer, and how many were taken out.
abbrev pub puts : Shared → ℕ
puts s = s.item + done s.producer

abbrev pub gets : Shared → ℕ
gets s = s.i + done s.consumer

-- The first items that are produced.
abbrev pub upto : ℕ → List ℕ
upto zero = []
upto (suc n) = upto n ++ n ∷ []

pub record Inv (s : Shared) : Type 0 where
  pub into : s.into ≡ puts s % 3
  pub out : s.out ≡ gets s % 3
  pub slots : s.wait_count + held s.producer + puts s ≡ 3 + s.i
  pub items : s.ready_count + held s.consumer + gets s ≡ s.item
  pub made : puts s ≤ 10
  pub going : s.producer ≡ holding → s.item < 10
  pub consumed : s.consumed ≡ upto (gets s)
  pub unread : (j : ℕ) → gets s ≤ j → j < puts s → s.buffer (j % 3) ≡ j

start-Inv : Inv start
start-Inv = record {
  into = refl;
  out = refl;
  slots = refl;
  items = refl;
  made = omega arith;
  going = λ e. absurd cc;
  consumed = refl;
  unread = λ j le lt. absurd (omega arith);
}

suc-mod : (n k : ℕ) → k ≡ n % 3 → suc k % 3 ≡ suc n % 3
suc-mod n k e = omega arith

-- Among the last three items no two share a place.
pub other_place : (n j : ℕ) → j < n → n < j + 3 → j % 3 ≢ n % 3
other_place n j lt near e = omega arith

-- `puts` and `gets` at each place.
module _ (s : Shared) (v : Inv s) where
  put-Inv : s.producer ≡ holding → Inv (produce s)
  put-Inv e =
      let slots = rw e at v.slots in
      let items = v.items in
      let n : puts s ≡ s.item = rw e (omega arith) in
      let room : s.item < gets s + 3 = omega (arith, slots) in
      record {
        into = suc-mod s.item s.into (v.into ∙ ap (λ k. k % 3) n) ∙ (omega arith);
        out = v.out;
        slots = omega (arith, slots);
        items = v.items;
        made = omega (arith, v.going e);
        going = λ e'. absurd cc;
        consumed = v.consumed;
        unread = λ j le lt. elim (Bool-cases (j == s.item)) [
          | inl same ↦
              let at : j ≡ s.item = (==_iff j s.item).0 same in
              let place : j % 3 ≡ s.into = ap (λ k. k % 3) (at ∙ sym n) ∙ sym v.into in
              rw place (ground arith)
          | inr other ↦
              let before : j < s.item = ground (arith, lt) in
              let apart : j % 3 ≢ s.into = λ same.
                other_place s.item j before (omega (arith, room, le))
                  (same ∙ v.into ∙ ap (λ k. k % 3) n) in
              ground (arith, v.unread j le (omega (arith, before, n)))
        ];
      }

  get-Inv : s.consumer ≡ holding → Inv (consume s)
  get-Inv e =
      let items = rw e at v.items in
      let n : gets s ≡ s.i = rw e (omega arith) in
      let there : s.buffer s.out ≡ s.i =
        ap s.buffer (v.out ∙ ap (λ k. k % 3) n)
        ∙ v.unread s.i (omega (arith, n)) (omega (arith, items)) in
      record {
        into = v.into;
        out = suc-mod s.i s.out (v.out ∙ ap (λ k. k % 3) n) ∙ (omega arith);
        slots = v.slots;
        items = omega (arith, items);
        made = v.made;
        going = v.going;
        consumed =
            let more : suc s.i ≡ s.i + 1 = omega arith in
            rw (there, v.consumed) (ap (λ k. upto k ++ s.i ∷ []) n ∙ ap upto more);
        unread = λ j le lt. v.unread j (omega (arith, le, n)) lt;
      }

  wait_slot-Inv :
      (k : ℕ)
      → s.producer ≡ waiting
      → s.item < 10
      → s.wait_count ≡ suc k
      → Inv (record s { wait_count = k; producer = holding })
  wait_slot-Inv k e lt count = record {
    into = rw e at v.into;
    out = v.out;
    slots = let slots = rw e at v.slots in omega (arith, slots, count);
    items = v.items;
    made = omega (arith, lt);
    going = λ e'. lt;
    consumed = v.consumed;
    unread = rw e at v.unread;
  }

  post_item-Inv :
      s.producer ≡ posting
      → Inv (record s { ready_count = suc s.ready_count; item = suc s.item; producer = waiting })
  post_item-Inv e =
      let n : puts s ≡ suc s.item + 0 = rw e (omega arith) in
      record {
        into = v.into ∙ ap (λ k. k % 3) n;
        out = v.out;
        slots = let slots = rw e at v.slots in omega (arith, slots);
        items = omega (arith, v.items);
        made = omega (arith, v.made, n);
        going = λ e'. absurd cc;
        consumed = v.consumed;
        unread = λ j le lt. v.unread j le (omega (arith, lt, n));
      }

  wait_item-Inv :
      (k : ℕ)
      → s.consumer ≡ waiting
      → s.ready_count ≡ suc k
      → Inv (record s { ready_count = k; consumer = holding })
  wait_item-Inv k e count =
      let items = rw e at v.items in
      record {
        into = v.into;
        out = rw e at v.out;
        slots = v.slots;
        items = omega (arith, items, count);
        made = v.made;
        going = v.going;
        consumed = rw e at v.consumed;
        unread = rw e at v.unread;
      }

  post_slot-Inv :
      s.consumer ≡ posting
      → Inv (record s { wait_count = suc s.wait_count; i = suc s.i; consumer = waiting })
  post_slot-Inv e =
      let n : gets s ≡ suc s.i + 0 = rw e (omega arith) in
      let items = rw e at v.items in
      record {
        into = v.into;
        out = v.out ∙ ap (λ k. k % 3) n;
        slots = omega (arith, v.slots);
        items = omega (arith, items);
        made = v.made;
        going = v.going;
        consumed = v.consumed ∙ ap upto n;
        unread = λ j le lt. v.unread j (omega (arith, le, n)) lt;
      }

pub Step-Inv : (s t : Shared) → Inv s → Step s t → Inv t
Step-Inv s t v (wait_slot k e lt count) = wait_slot-Inv s v k e lt count
Step-Inv s t v (put e) = put-Inv s v e
Step-Inv s t v (post_item e) = post_item-Inv s v e
Step-Inv s t v (wait_item k e lt count) = wait_item-Inv s v k e count
Step-Inv s t v (get e) = get-Inv s v e
Step-Inv s t v (post_slot e) = post_slot-Inv s v e

pub Reachable-Inv : (n : ℕ) (s : Shared) → Reachable n s → Inv s
Reachable-Inv n s begin = start-Inv
Reachable-Inv n s (after {n = m} {s = r} h step) = Step-Inv r s (Reachable-Inv m r h) step
