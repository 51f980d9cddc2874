-- ===== src/WriteQueue/Tests.antt =====
-- A write queue of 20 bytes, and the theorems of bluetoe/write_queue.hpp at it.
use bluetoe.Shared.{◌≡◌, refl, arith, false, none, some, [], ◌∷◌}
use bluetoe.Shared.Memory.{bytes_at}
use bluetoe.WriteQueue.{
  WriteQueue, empty_queue, is_taken, allocate_from_write_queue, free_write_queue,
  first_write_queue_element,
}
use bluetoe.WriteQueue.Elements.{Holds}
use bluetoe.WriteQueue.Clients.{
  allocate, free, run_calls, with_size, allocate_from_write_queue-Holds, client_isolation,
}

abbrev blank : WriteQueue
blank = empty_queue (λ p. 0)

-- Client 1 has an element of five bytes.
abbrev one : WriteQueue
one = record { current_client = some 1; buffer = with_size (λ p. 0) 0 5; buffer_end = 7 }

runs :
    (allocate_from_write_queue 20 blank 5 1 ≡ (one, some 2))
    × (allocate_from_write_queue 20 one 12 1 ≡ (one, none))
    × (allocate_from_write_queue 20 one 3 2 ≡ (one, none))
unfolding allocate_from_write_queue is_taken
runs = (refl, refl, refl)

one_free : is_taken one 1 ≡ false
unfolding is_taken
one_free = refl

allocate_from_write_queue-Holds_example :
    (q' : WriteQueue) × (allocate_from_write_queue 20 one 4 1 ≡ (q', some 9))
    × Holds 20 q' 1 (5 ∷ 4 ∷ [])
    × (bytes_at q'.buffer 0 7 ≡ bytes_at one.buffer 0 7)
allocate_from_write_queue-Holds_example =
    allocate_from_write_queue-Holds 20 one 4 1 (5 ∷ []) (omega arith) one_free (refl, refl)
      (omega arith)

-- Client 2 tries in vain while client 1 has its element, and gets the first place afterwards.
client_isolation_example :
    (run_calls 20 2 one (allocate 3 ∷ free ∷ allocate 16 ∷ []) ≡ (one, none ∷ none ∷ []))
    × (first_write_queue_element one 2 ≡ none)
    × (first_write_queue_element (free_write_queue one 1) 2 ≡ none)
    × (q' : WriteQueue) × (allocate_from_write_queue 20 (free_write_queue one 1) 18 2
        ≡ (q', some 2))
    × Holds 20 q' 2 (18 ∷ [])
client_isolation_example =
    client_isolation 20 one 1 2 18 (allocate 3 ∷ free ∷ allocate 16 ∷ []) refl (omega arith)
      (omega arith) (omega arith)
