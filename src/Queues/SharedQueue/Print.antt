-- ===== src/Queues/SharedQueue/Print.antt =====
-- A shared_queue is printed as a hazard_queue with the same nodes.
use cpp_util.Prelude.{ℕ, zero, suc, ◌<◌, ◌≡◌, refl, List, length, ok}
use cpp_util.Queues.HazardQueue as Hazard
use cpp_util.Queues.HazardQueue.{Ptr}
use cpp_util.Util.Container.{container_print}
use cpp_util.Queues.HazardQueue.Fifo.{Represents}
use cpp_util.Queues.HazardQueue.Print.{print-container_print}
use cpp_util.Queues.SharedQueue.{SharedQueue, print_from, print}
use cpp_util.Queues.SharedQueue.Fifo.{view}

module _ {ℓ} {T : Type ℓ} where
  print_from-view :
      (fuel : ℕ) (i : Ptr) (q : SharedQueue T)
      → print_from fuel i q ≡ Hazard.print_from fuel i (view q)
  unfolding print_from Hazard.print_from
  print_from-view zero i q = refl
  print_from-view (suc fuel) i q = rw (print_from-view fuel (q.next i) q) refl

  -- A shared_queue with the values `xs` is printed as `container_print` prints a container of those values
  -- in the order in which they would be dequeued, when the fuel is above their number.
  pub shared_print-container_print :
      (fuel : ℕ) (q : SharedQueue T) (xs : List T)
      → Represents (view q) xs
      → length xs < fuel
      → print fuel q ≡ ok (container_print xs)
  unfolding print Hazard.print
  shared_print-container_print fuel q xs r enough =
      rw (print_from-view fuel q.head q) (print-container_print fuel (view q) xs r enough)
