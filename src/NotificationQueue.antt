-- ===== src/NotificationQueue.antt =====
-- bluetoe/notification_queue.hpp: which characteristics have a notification or an indication to be sent, two bits for
-- each of them, in one queue for each priority.
pub mod Bits
pub mod Circle
pub mod Levels
mod Tests
use bluetoe.Shared.{
  ℕ, zero, suc, ◌+◌, ◌-◌, ◌*◌, ◌/◌, ◌%◌, ◌^◌, Bool, true, false, not, ◌&&◌, ◌||◌, Option, none,
  some, List, [], ◌∷◌, ◌==◌, if◌then◌else◌, ltb, has_flag, set_flag, clear_flag, map, map_option,
  bind,
}
use bluetoe.Shared.Memory.{Memory, store}

-- `notification_queue_entry_type`
pub data EntryType : Type 0 where
  empty : EntryType
  notification : EntryType
  indication : EntryType

abbrev pub bits_per_characteristic : ℕ
bits_per_characteristic = 2

abbrev pub notification_bit : ℕ
notification_bit = 1

abbrev pub indication_bit : ℕ
indication_bit = 2

-- `notification_queue_impl`, for more than one characteristic
pub record EntryQueue : Type 0 where
  pub next : ℕ
  pub queue : Memory

abbrev pub bit_offset : ℕ → ℕ
bit_offset index = index * bits_per_characteristic % 8

abbrev pub byte_offset : ℕ → ℕ
byte_offset index = index * bits_per_characteristic / 8

unfoldable pub at_index : Memory → ℕ → ℕ
at_index mem index = mem (byte_offset index) / 2 ^ bit_offset index % 4

-- `add`: whether the bit was not set, and the queue with it.
unfoldable pub add : Memory → ℕ → ℕ → Bool × Memory
add mem index bits =
    let mask : ℕ = bits * 2 ^ bit_offset index in
    let old : ℕ = mem (byte_offset index) in
    (not (has_flag mask old), store mem (byte_offset index) (set_flag mask old))

unfoldable pub remove : Memory → ℕ → ℕ → Memory
remove mem index bits =
    store mem (byte_offset index)
      (clear_flag (bits * 2 ^ bit_offset index) (mem (byte_offset index)))

abbrev pub cleared : EntryQueue
cleared = record { next = 0; queue = λ p. 0 }

abbrev pub queue_bits : EntryQueue → ℕ → ℕ → Bool × EntryQueue
queue_bits q index bits =
    let (result, mem) = add q.queue index bits in (result, record q { queue = mem })

-- What is dequeued, the queue after that, and the indication that waits for its confirmation; `none` stands for
-- `no_outstanding_indicaton`.
pub record Dequeued {ℓ} (Q : Type ℓ) : Type ℓ where
  pub entry : EntryType
  pub index : ℕ
  pub rest : Q
  pub outstanding : Option ℕ

abbrev pub is_none : Option ℕ → Bool
is_none none = true
is_none (some i) = false

-- `entry & indication_bit && outstanding_confirmation == no_outstanding_indicaton`
abbrev pub sends_indication : Option ℕ → ℕ → Bool
sends_indication outstanding entry = has_flag indication_bit entry && is_none outstanding

abbrev pub take_entry : ℕ → EntryQueue → ℕ → ℕ → EntryQueue
take_entry size q i bits = record { next = (i + 1) % size; queue = remove q.queue i bits }

module _ (size offset : ℕ) (q : EntryQueue) (outstanding : Option ℕ) where
  abbrev pub nothing_to_send : Dequeued EntryQueue
  nothing_to_send = record { entry = empty; index = 0; rest = q; outstanding = outstanding }

  -- The loop from an index on, with fuel: `none` if it has not ended.
  unfoldable pub dequeue_loop : ℕ → Bool → ℕ → Option (Dequeued EntryQueue)
  dequeue_loop zero ignore_first i = none
  dequeue_loop (suc fuel) ignore_first i =
      if not ignore_first && (i == q.next)
      then some nothing_to_send
      else if sends_indication outstanding (at_index q.queue i)
      then some (record {
        entry = indication;
        index = i + offset;
        rest = take_entry size q i indication_bit;
        outstanding = some (i + offset);
      })
      else if has_flag notification_bit (at_index q.queue i)
      then some (record {
        entry = notification;
        index = i + offset;
        rest = take_entry size q i notification_bit;
        outstanding = outstanding;
      })
      else dequeue_loop fuel false ((i + 1) % size)

  unfoldable pub dequeue : Option (Dequeued EntryQueue)
  dequeue = dequeue_loop (size + 1) true q.next

-- The specialisation for one characteristic, whose state is an entry.
unfoldable pub queue_single : EntryType → EntryType → Bool × EntryType
queue_single entry empty = (true, entry)
queue_single entry notification = (false, notification)
queue_single entry indication = (false, indication)

unfoldable pub dequeue_single : ℕ → EntryType → Option ℕ → Dequeued EntryType
dequeue_single offset empty outstanding = record {
  entry = empty;
  index = 0;
  rest = empty;
  outstanding = outstanding;
}
dequeue_single offset notification outstanding = record {
  entry = notification;
  index = offset;
  rest = empty;
  outstanding = outstanding;
}
dequeue_single offset indication none = record {
  entry = indication;
  index = offset;
  rest = empty;
  outstanding = some offset;
}
dequeue_single offset indication (some i) = record {
  entry = empty;
  index = 0;
  rest = indication;
  outstanding = some i;
}

-- The queue of one priority.
pub data LevelQueue : Type 0 where
  several : ℕ → EntryQueue → LevelQueue
  single : EntryType → LevelQueue

abbrev pub level_size : LevelQueue → ℕ
level_size (several size q) = size
level_size (single state) = 1

abbrev pub entry_bits : EntryType → ℕ
entry_bits empty = 0
entry_bits notification = notification_bit
entry_bits indication = indication_bit

abbrev pub queue_level : EntryType → LevelQueue → ℕ → Bool × LevelQueue
queue_level entry (several size q) index =
    let (result, q') = queue_bits q index (entry_bits entry) in (result, several size q')
queue_level entry (single state) index =
    let (result, state') = queue_single entry state in (result, single state')

abbrev pub map_rest {ℓ κ} : {Q : Type ℓ} {R : Type κ} → (Q → R) → Dequeued Q → Dequeued R
map_rest g r = record {
  entry = r.entry;
  index = r.index;
  rest = g r.rest;
  outstanding = r.outstanding;
}

abbrev pub dequeue_level : ℕ → LevelQueue → Option ℕ → Option (Dequeued LevelQueue)
dequeue_level offset (several size q) outstanding =
    map_option (map_rest (several size)) (dequeue size offset q outstanding)
dequeue_level offset (single state) outstanding =
    some (map_rest single (dequeue_single offset state outstanding))

-- `notification_queue_impl_base`: `queue_notification` and `queue_indication`, by the kind of entry.
unfoldable pub queue_entry : EntryType → List LevelQueue → ℕ → Bool × List LevelQueue
queue_entry entry [] index = (false, [])
queue_entry entry (p ∷ ps) index =
    let (rest_result, ps') = queue_entry entry ps (index - level_size p) in
    if ltb index (level_size p)
    then (let (result, p') = queue_level entry p index in (result, p' ∷ ps))
    else (rest_result, p ∷ ps')

abbrev pub is_empty : EntryType → Bool
is_empty empty = true
is_empty notification = false
is_empty indication = false

-- The lower priorities are asked if there was nothing to send.
unfoldable pub then_lower :
    List LevelQueue
    → (Option ℕ → Option (Dequeued (List LevelQueue)))
    → Dequeued LevelQueue
    → Option (Dequeued (List LevelQueue))
then_lower ps lower r =
    if is_empty r.entry
    then map_option (map_rest (λ ps'. r.rest ∷ ps')) (lower r.outstanding)
    else some (map_rest (λ p. p ∷ ps) r)

unfoldable pub dequeue_levels : ℕ → List LevelQueue → Option ℕ → Option (Dequeued (List LevelQueue))
dequeue_levels offset [] outstanding =
    some (record { entry = empty; index = 0; rest = []; outstanding = outstanding })
dequeue_levels offset (p ∷ ps) outstanding =
    bind (dequeue_level offset p outstanding)
      (then_lower ps (dequeue_levels (offset + level_size p) ps))

-- `notification_queue`: the queues of all priorities, and the indication that waits for its confirmation.
pub record NotificationQueue : Type 0 where
  pub levels : List LevelQueue
  pub outstanding_confirmation_index : Option ℕ

abbrev pub queue_into : NotificationQueue → EntryType → ℕ → Bool × NotificationQueue
queue_into n entry index =
    let (result, ps) = queue_entry entry n.levels index in (result, record n { levels = ps })

unfoldable pub queue_notification : NotificationQueue → ℕ → Bool × NotificationQueue
queue_notification n = queue_into n notification

unfoldable pub queue_indication : NotificationQueue → ℕ → Bool × NotificationQueue
queue_indication n = queue_into n indication

unfoldable pub indication_confirmed : NotificationQueue → NotificationQueue
indication_confirmed n = record n { outstanding_confirmation_index = none }

-- The entry and its index, if the loops end.
unfoldable pub dequeue_indication_or_confirmation :
    NotificationQueue → Option ((EntryType × ℕ) × NotificationQueue)
dequeue_indication_or_confirmation n =
    map_option
      (λ r. (
        (r.entry, r.index),
        record { levels = r.rest; outstanding_confirmation_index = r.outstanding },
      ))
      (dequeue_levels 0 n.levels n.outstanding_confirmation_index)

abbrev pub clear_level : LevelQueue → LevelQueue
clear_level (several size q) = several size cleared
clear_level (single state) = single empty

unfoldable pub clear_indications_and_confirmations : NotificationQueue → NotificationQueue
clear_indications_and_confirmations n = record {
  levels = map clear_level n.levels;
  outstanding_confirmation_index = none;
}
