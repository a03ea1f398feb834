-- ===== src/Buffer/Tests.antt =====
-- A run of the producer and the consumer, with the first item put into the buffer and a second one
-- on its way.
use cpu_schedular.Base.{◌+◌, ◌%◌, ◌≤◌, ◌≡◌, ◌≢◌, ◌⊎◌, refl, arith}
use cpu_schedular.Buffer.{
  holding, waiting, Shared, start, produce, Step, wait_slot, put, post_item, Reachable, begin,
  after,
}
use cpu_schedular.Buffer.Invariant.{puts, gets, upto}
use cpu_schedular.Buffer.Safety.{Reachable-consumed, Reachable-put, Reachable-Step}

abbrev first_slot : Shared
first_slot = record start { wait_count = 2; producer = holding }

abbrev first_put : Shared
first_put = produce first_slot

abbrev first_item : Shared
first_item = record first_put { ready_count = 1; item = 1; producer = waiting }

abbrev second_slot : Shared
second_slot = record first_item { wait_count = 1; producer = holding }

second_slot-Reachable : Reachable 4 second_slot
second_slot-Reachable =
    after
      (after (after (after begin (wait_slot 2 refl (omega arith) refl)) (put refl))
        (post_item refl))
      (wait_slot 1 refl (omega arith) refl)

Reachable-consumed_example :
    (second_slot.consumed ≡ upto (gets second_slot))
    × (gets second_slot ≤ puts second_slot)
    × (puts second_slot ≤ gets second_slot + 3)
    × (puts second_slot ≤ 10)
Reachable-consumed_example = Reachable-consumed 4 second_slot second_slot-Reachable

Reachable-put_example : (second_slot.buffer (0 % 3) ≡ 0) × (0 % 3 ≢ second_slot.into)
Reachable-put_example =
    Reachable-put 4 second_slot second_slot-Reachable refl 0 (omega arith) (omega arith)

Reachable-Step_example : ((t : Shared) × Step second_slot t) ⊎ (second_slot.consumed ≡ upto 10)
Reachable-Step_example = Reachable-Step 4 second_slot second_slot-Reachable
