-- ===== src/NotificationQueue/Levels/Queue.antt =====
-- bluetoe/notification_queue.hpp: what `queue_notification` and `queue_indication` add, and the whole queue.
use bluetoe.Shared.{
  ℕ, ◌-◌, ◌<◌, ◌≡◌, Bool, true, false, not, ◌&&◌, ◌||◌, ◌==◌, arith, ltb, same, refl, sym, ap, ap₂,
  ◌∙◌, inl, inr, some, List, [], ◌∷◌, Every,
}
use bluetoe.NotificationQueue.{
  EntryType, empty, notification, indication, LevelQueue, several, single, level_size, queue_level,
  queue_single, queue_entry, NotificationQueue, dequeue_indication_or_confirmation,
  queue_notification, queue_indication,
}
use bluetoe.NotificationQueue.Bits.{is_pending, is_pending-add, add-IsBytes, add_result}
use bluetoe.NotificationQueue.Circle.{entry_of}
use bluetoe.NotificationQueue.Levels.{IsValid, holds, pending_in, pending, accepts_in, accepts}
use bluetoe.NotificationQueue.Levels.Dequeue.{
  OfLevels, dequeue_levels-End, pending_here, pending_below, either_level,
}

record InLevel (kind : Bool) (p : LevelQueue) (i : ℕ) (r : Bool × LevelQueue) : Type 0 where
  result : r.0 ≡ accepts_in p kind i
  added :
      (other : Bool) (j : ℕ)
      → j < level_size p
      → pending_in r.1 other j
        ≡ ((same kind other && (i == j) && accepts_in p kind i) || pending_in p other j)
  valid : IsValid r.1
  same_size : level_size r.1 ≡ level_size p

set_anyway : (t a b : Bool) → (t ≡ true → a ≡ b) → (t || b) ≡ ((t && not a) || b)
set_anyway true false b h = refl
set_anyway true true b h = h refl
set_anyway false a b h = refl

same_entry :
    (set : Bool → ℕ → Bool) (kind other : Bool) (i j : ℕ)
    → (same kind other && (i == j)) ≡ true
    → set kind i ≡ set other j
same_entry set true true i j h = ap (set true) (ground arith)
same_entry set false false i j h = ap (set false) (ground arith)
same_entry set true false i j h = ground arith
same_entry set false true i j h = ground arith

-- A bit that is set anyway may be set again.
set_again :
    (set : Bool → ℕ → Bool) (kind other : Bool) (i j : ℕ)
    → ((same kind other && (i == j)) || set other j)
      ≡ ((same kind other && (i == j) && not (set kind i)) || set other j)
set_again set kind other i j =
    set_anyway (same kind other && (i == j)) (set kind i) (set other j)
      (same_entry set kind other i j)

single_result :
    (kind : Bool) (state : EntryType)
    → (queue_single (entry_of kind) state).0 ≡ (not (holds state true) && not (holds state false))
unfolding queue_single
single_result kind empty = refl
single_result kind notification = refl
single_result kind indication = refl

single_added :
    (kind other : Bool) (state : EntryType) (t : Bool)
    → t ≡ true
    → holds (queue_single (entry_of kind) state).1 other ≡ (
        (same kind other && t && (not (holds state true) && not (holds state false)))
        || holds state other)
unfolding queue_single
single_added true true empty t h = ground arith
single_added true false empty t h = ground arith
single_added false true empty t h = ground arith
single_added false false empty t h = ground arith
single_added kind other notification t h = ground arith
single_added kind other indication t h = ground arith

queue_level-InLevel :
    (kind : Bool) (p : LevelQueue) (i : ℕ)
    → i < level_size p
    → IsValid p
    → InLevel kind p i (queue_level (entry_of kind) p i)
unfolding queue_single
queue_level-InLevel true (several size q) i h v = record {
  result = add_result q.queue true i v.1;
  added = λ other j g.
      is_pending-add q.queue true i v.1 other j ∙ set_again (is_pending q.queue) true other i j;
  valid = (v.0, add-IsBytes q.queue true i v.1);
  same_size = refl;
}
queue_level-InLevel false (several size q) i h v = record {
  result = add_result q.queue false i v.1;
  added = λ other j g.
      is_pending-add q.queue false i v.1 other j ∙ set_again (is_pending q.queue) false other i j;
  valid = (v.0, add-IsBytes q.queue false i v.1);
  same_size = refl;
}
queue_level-InLevel kind (single state) i h v = record {
  result = single_result kind state;
  added = λ other j g. single_added kind other state (i == j) (ground arith);
  valid = omega arith;
  same_size = refl;
}

-- Every queue adds what it accepts, and nothing else.
abbrev pub Adds : Bool → List LevelQueue → ℕ → Bool × List LevelQueue → Type 0
Adds kind ps i r =
    (r.0 ≡ accepts ps kind i)
    × ((other : Bool) (j : ℕ)
        → pending r.1 other j
          ≡ ((same kind other && (i == j) && accepts ps kind i) || pending ps other j))
    × Every IsValid r.1

elsewhere : (a e x b : Bool) → e ≡ false → ((a && e && x) || b) ≡ b
elsewhere a e x b h = ground arith

queue_entry-Adds :
    (kind : Bool) (ps : List LevelQueue) (i : ℕ)
    → Every IsValid ps
    → Adds kind ps i (queue_entry (entry_of kind) ps i)
unfolding queue_entry pending accepts
queue_entry-Adds kind [] i v = (refl, λ other j. ground arith, v)
queue_entry-Adds kind (p ∷ ps) i v = elim (either_level p i) [
  | inl here ↦
      let a = queue_level-InLevel kind p i here v.0 in
      let t : ltb i (level_size p) ≡ true = ground arith in
      rw (queue_entry, accepts, t)
        (
          a.result,
          (λ other j. elim (either_level p j) [
            | inl j_here ↦
                pending_here (queue_level (entry_of kind) p i).1 ps other j (ground arith)
                ∙ a.added other j j_here
                ∙ ap (λ b. (same kind other && (i == j) && accepts_in p kind i) || b)
                    (sym (pending_here p ps other j j_here))
            | inr j_below ↦
                pending_below (queue_level (entry_of kind) p i).1 ps other j (ground arith)
                ∙ ap (λ n. pending ps other (j - n)) a.same_size
                ∙ sym (
                    elsewhere (same kind other) (i == j) (accepts_in p kind i) _ (ground arith)
                    ∙ pending_below p ps other j j_below)
          ]),
          (a.valid, v.1),
        )
  | inr below ↦
      let (result, added, valid) = queue_entry-Adds kind ps (i - level_size p) v.1 in
      let t : ltb i (level_size p) ≡ false = ground arith in
      rw (queue_entry, accepts, t)
        (
          result,
          (λ other j. elim (either_level p j) [
            | inl j_here ↦
                pending_here p (queue_entry (entry_of kind) ps (i - level_size p)).1 other j j_here
                ∙ sym (
                    elsewhere (same kind other) (i == j) (accepts ps kind (i - level_size p)) _
                      (ground arith)
                    ∙ pending_here p ps other j j_here)
            | inr j_below ↦
                let test : (i - level_size p == j - level_size p) ≡ (i == j) = ground arith in
                pending_below p (queue_entry (entry_of kind) ps (i - level_size p)).1 other j
                  j_below
                ∙ added other (j - level_size p)
                ∙ ap₂ (λ e b. (same kind other && e && accepts ps kind (i - level_size p)) || b)
                    test (sym (pending_below p ps other j j_below))
          ]),
          (v.0, valid),
        )
]

abbrev pub IsWellFormed : NotificationQueue → Type 0
IsWellFormed n = Every IsValid n.levels

-- How a characteristic is queued, for a notification or for an indication.
abbrev pub queue_for : Bool → NotificationQueue → ℕ → Bool × NotificationQueue
queue_for false = queue_notification
queue_for true = queue_indication

-- In a well-formed notification queue, queue_notification and queue_indication return true exactly
-- if the queue of the characteristic accepts the entry, whether or not a confirmation is awaited;
-- then this entry becomes pending, and in any case all others are as before and the queue stays
-- well-formed. The queue of several characteristics accepts what is not pending, that of a single
-- one only if nothing is pending.
pub queue_for-Adds :
    (kind : Bool) (n : NotificationQueue) (i : ℕ)
    → IsWellFormed n
    → let r : Bool × NotificationQueue = queue_for kind n i in
      (r.0 ≡ accepts n.levels kind i)
      × ((other : Bool) (j : ℕ)
          → pending r.1.levels other j ≡ (
              (same kind other && (i == j) && accepts n.levels kind i) || pending n.levels other j))
      × IsWellFormed r.1
      × (r.1.outstanding_confirmation_index ≡ n.outstanding_confirmation_index)
unfolding queue_notification queue_indication
queue_for-Adds true n i v = let (a, b, c) = queue_entry-Adds true n.levels i v in (a, b, c, refl)
queue_for-Adds false n i v = let (a, b, c) = queue_entry-Adds false n.levels i v in (a, b, c, refl)

-- What is dequeued from the whole queue.
abbrev pub Dequeues : NotificationQueue → (EntryType × ℕ) × NotificationQueue → Type 0
Dequeues n r = OfLevels 0 n.levels n.outstanding_confirmation_index (record {
  entry = r.0.0;
  index = r.0.1;
  rest = r.1.levels;
  outstanding = r.1.outstanding_confirmation_index;
})

-- In a well-formed notification queue, dequeue_indication_or_confirmation ends and keeps the queue
-- well-formed. It gives nothing and changes nothing exactly if nothing that is pending may be
-- sent, where an indication has to wait for the confirmation of the last one; else it gives a
-- pending entry that may be sent and whose priority is not lower than that of any other such
-- entry, takes just this entry out, and an indication then waits for its confirmation.
pub dequeue_indication_or_confirmation-Dequeues :
    (n : NotificationQueue)
    → IsWellFormed n
    → (r : (EntryType × ℕ) × NotificationQueue) × (dequeue_indication_or_confirmation n ≡ some r)
      × Dequeues n r
      × IsWellFormed r.1
unfolding dequeue_indication_or_confirmation
dequeue_indication_or_confirmation-Dequeues n v =
    let (r, e, found, w) = dequeue_levels-End 0 n.levels n.outstanding_confirmation_index v in
    (
      (
        (r.entry, r.index),
        record { levels = r.rest; outstanding_confirmation_index = r.outstanding },
      ),
      rw (dequeue_indication_or_confirmation, e) refl,
      found,
      w,
    )
