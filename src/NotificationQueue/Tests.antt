-- ===== src/NotificationQueue/Tests.antt =====
-- Witnesses and tests for the notification queue.
use bluetoe.Shared.{
  ℕ, ◌≡◌, refl, Bool, true, false, ◌&&◌, ◌||◌, ◌==◌, same, none, some, [], ◌∷◌, arith,
}
use bluetoe.Shared.Memory.{IsBytes}
use bluetoe.NotificationQueue.{
  EntryType, notification, EntryQueue, Dequeued, several, single, NotificationQueue,
  queue_indication, queue_entry, add, at_index, remove, dequeue, dequeue_loop, dequeue_levels,
  then_lower, queue_single, dequeue_indication_or_confirmation,
}
use bluetoe.NotificationQueue.Circle.{Outcome, dequeue-Ends}
use bluetoe.NotificationQueue.Levels.{accepts, pending}
use bluetoe.NotificationQueue.Levels.Queue.{
  IsWellFormed, queue_for, queue_for-Adds, Dequeues, dequeue_indication_or_confirmation-Dequeues,
}

-- The second of three characteristics has both pending, and the third a notification.
abbrev three : EntryQueue
three = record { next = 2; queue = λ p. 28 }

abbrev queue : NotificationQueue
queue = record {
  levels = several 3 three ∷ single notification ∷ [];
  outstanding_confirmation_index = some 1;
}

three-IsBytes : IsBytes three.queue
three-IsBytes p = omega arith

queue-IsWellFormed : IsWellFormed queue
queue-IsWellFormed = ((omega arith, three-IsBytes), (omega arith, tt))

dequeue-Ends_example :
    (r : Dequeued EntryQueue) × (dequeue 3 4 three none ≡ some r) × Outcome 3 4 three none r
dequeue-Ends_example = dequeue-Ends 3 4 three none (omega arith)

queue_for-Adds_example :
    let r : Bool × NotificationQueue = queue_for true queue 3 in
    (r.0 ≡ accepts queue.levels true 3)
    × ((other : Bool) (j : ℕ)
        → pending r.1.levels other j ≡ (
            (same true other && (3 == j) && accepts queue.levels true 3)
            || pending queue.levels other j))
    × IsWellFormed r.1
    × (r.1.outstanding_confirmation_index ≡ some 1)
queue_for-Adds_example = queue_for-Adds true queue 3 queue-IsWellFormed

dequeue_indication_or_confirmation-Dequeues_example :
    (r : (EntryType × ℕ) × NotificationQueue) × (dequeue_indication_or_confirmation queue ≡ some r)
    × Dequeues queue r
    × IsWellFormed r.1
dequeue_indication_or_confirmation-Dequeues_example =
    dequeue_indication_or_confirmation-Dequeues queue queue-IsWellFormed

-- An indication of the only characteristic of its priority is lost behind a notification.
indication_lost : (queue_for true queue 3).0 ≡ false
unfolding queue_indication queue_entry queue_single add
indication_lost = refl

-- The third is next; then the second has its turn.
third_first :
    (r : (EntryType × ℕ) × NotificationQueue) × (dequeue_indication_or_confirmation queue ≡ some r)
    × (r.0 ≡ (notification, 2))
unfolding dequeue_indication_or_confirmation dequeue_levels then_lower dequeue dequeue_loop at_index
    remove
third_first = (_, refl, refl)
