-- ===== src/Queue/Laws.antt =====
-- How often a reference stands in a queue, and how the operations change that.
use cpu_schedular.Base.{
  ℕ, suc, ◌+◌, ℤ, ◌≡◌, refl, [], ◌∷◌, ◌++◌, arith, ◌==◌, if◌then◌else◌, length, length-append, pos,
}
use cpu_schedular.Queue.{Ref, Queue, enqueue, p_enqueue}

abbrev pub occurs : Ref → Queue → ℕ
occurs r [] = 0
occurs r (x ∷ q) = (if x.task == r then 1 else 0) + occurs r q

pub occurs-append : (r : Ref) (q s : Queue) → occurs r (q ++ s) ≡ occurs r q + occurs r s
occurs-append r [] s = omega arith
occurs-append r (x ∷ q) s = omega (arith, occurs-append r q s)

pub occurs-enqueue :
    (r p : Ref) (q : Queue) → occurs r (enqueue p q) ≡ occurs r q + (if p == r then 1 else 0)
unfolding enqueue
occurs-enqueue r p q = omega (arith, occurs-append r q (record { task = p; priority = pos 0 } ∷ []))

pub occurs-p_enqueue :
    (r p : Ref) (n : ℤ) (q : Queue)
    → occurs r (p_enqueue p n q) ≡ occurs r q + (if p == r then 1 else 0)
unfolding p_enqueue
occurs-p_enqueue r p n [] = omega arith
occurs-p_enqueue r p n (x ∷ q) = ground (arith, occurs-p_enqueue r p n q)

pub length-enqueue : (p : Ref) (q : Queue) → length (enqueue p q) ≡ suc (length q)
unfolding enqueue
length-enqueue p q = omega (arith, length-append q (record { task = p; priority = pos 0 } ∷ []))

pub length-p_enqueue : (p : Ref) (n : ℤ) (q : Queue) → length (p_enqueue p n q) ≡ suc (length q)
unfolding p_enqueue
length-p_enqueue p n [] = refl
length-p_enqueue p n (x ∷ q) = ground (arith, length-p_enqueue p n q)
