-- ===== src/NotificationQueue/Levels.antt =====
-- bluetoe/notification_queue.hpp: one priority behind the other. The abstract view is the set of what is pending.
pub mod Dequeue
pub mod Queue
use bluetoe.Shared.{
  ℕ, zero, suc, ◌+◌, ◌-◌, ◌%◌, ◌<◌, ◌≤◌, ◌≡◌, Bool, true, false, not, ◌&&◌, ◌||◌, ◌==◌, ==_iff,
  if◌then◌else◌, arith, ltb, same, refl, sym, ap, ap₂, subst, ◌∙◌, Bool-cases, if-elim, inl, inr,
  Option, none, some, List, [], ◌∷◌, Every,
}
use bluetoe.Shared.Memory.{Memory, IsBytes}
use bluetoe.NotificationQueue.{
  EntryType, empty, notification, indication, EntryQueue, Dequeued, is_none, LevelQueue, several,
  single, level_size, take_entry,
}
use bluetoe.NotificationQueue.Bits.{
  is_pending, bit, is_pending-add, is_pending-remove, add-IsBytes, remove-IsBytes,
}
use bluetoe.NotificationQueue.Circle.{
  Outcome, nothing, one, dequeue-Ends, sendable, entry_of, wait_for,
}

abbrev pub IsValid : LevelQueue → Type 0
IsValid (several size q) = (q.next < size) × IsBytes q.queue
IsValid (single state) = 0 < 1

abbrev pub holds : EntryType → Bool → Bool
holds empty kind = false
holds notification kind = not kind
holds indication kind = kind

-- Whether a notification or, for `true`, an indication is pending for a characteristic.
abbrev pub pending_in : LevelQueue → Bool → ℕ → Bool
pending_in (several size q) kind j = is_pending q.queue kind j
pending_in (single state) kind j = holds state kind

unfoldable pub pending : List LevelQueue → Bool → ℕ → Bool
pending [] kind j = false
pending (p ∷ ps) kind j =
    let rest : Bool = pending ps kind (j - level_size p) in
    if ltb j (level_size p) then pending_in p kind j else rest

-- An indication has to wait while another one is not confirmed.
abbrev pub may_send : Option ℕ → Bool → Bool
may_send outstanding kind = not (kind && not (is_none outstanding))

-- The priority of a characteristic, 0 for the highest.
unfoldable pub level : List LevelQueue → ℕ → ℕ
level [] j = 0
level (p ∷ ps) j =
    let rest : ℕ = level ps (j - level_size p) in if ltb j (level_size p) then 0 else rest + 1

-- What a queue takes: a queue of a single characteristic, only if it is empty.
abbrev pub accepts_in : LevelQueue → Bool → ℕ → Bool
accepts_in (several size q) kind j = not (is_pending q.queue kind j)
accepts_in (single state) kind j = not (holds state true) && not (holds state false)

unfoldable pub accepts : List LevelQueue → Bool → ℕ → Bool
accepts [] kind j = false
accepts (p ∷ ps) kind j =
    let rest : Bool = accepts ps kind (j - level_size p) in
    if ltb j (level_size p) then accepts_in p kind j else rest
