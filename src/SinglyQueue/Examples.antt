-- ===== src/SinglyQueue/Examples.antt =====
-- The theorems of the queue at a concrete queue, and a run.
use phlox.Common.{ℕ, ◌≡◌, ◌⊎◌, refl, arith, List, [], ◌∷◌}
use phlox.Common.Chains.{null, link}
use phlox.SinglyQueue.{Queue, queue_enqueue, queue_dequeue}
use phlox.SinglyQueue.Refines.{IsQueue, queue_enqueue-IsQueue, queue_dequeue-IsQueue}

-- Two elements, at the addresses 10 and 20.
abbrev two : Queue
two = record { head = 10; tail = 20; count = 2; next = link (λ _. null) 10 20 }

abbrev elements : List ℕ
elements = 10 ∷ 20 ∷ []

two-IsQueue : IsQueue two (10 ∷ 20 ∷ [])
two-IsQueue = record {
  run = (refl, omega arith, (refl, omega arith, refl));
  tail = refl;
  distinct = (refl, (refl, tt));
  count = refl;
  small = omega arith;
}

queue_enqueue-IsQueue_example : IsQueue (queue_enqueue two 30) (10 ∷ 20 ∷ 30 ∷ [])
queue_enqueue-IsQueue_example =
    queue_enqueue-IsQueue two (10 ∷ 20 ∷ []) 30 two-IsQueue (omega arith) refl (omega arith)

queue_dequeue-IsQueue_example :
    ((elements ≡ []) × ((queue_dequeue two).0 ≡ null) × IsQueue (queue_dequeue two).1 [])
    ⊎ ((x : ℕ) × (ys : List ℕ) × (elements ≡ x ∷ ys)
        × ((queue_dequeue two).0 ≡ x)
        × IsQueue (queue_dequeue two).1 ys
        × ((queue_dequeue two).1.next ≡ two.next))
queue_dequeue-IsQueue_example = queue_dequeue-IsQueue two elements two-IsQueue
