-- ===== src/NotificationQueue/Circle.antt =====
-- bluetoe/notification_queue.hpp: the loop over the entries of one priority, in a circle.
use native.Mathlib.Nat.{mod-eq_of_lt, mod_self}
use bluetoe.Shared.{
  ℕ, zero, suc, ◌+◌, ◌-◌, ◌%◌, ◌<◌, ◌≤◌, ◌≡◌, Bool, true, false, not, ◌&&◌, ◌||◌, ◌==◌, ==_iff,
  if◌then◌else◌, arith, leb, refl, sym, ap, subst, ◌∙◌, Bool-cases, if-elim, inl, inr, Option, some,
  has_flag,
}
use bluetoe.Shared.Memory.{Memory}
use bluetoe.NotificationQueue.{
  EntryType, notification, indication, EntryQueue, Dequeued, is_none, sends_indication, at_index,
  take_entry, nothing_to_send, dequeue_loop, dequeue, notification_bit,
}
use bluetoe.NotificationQueue.Bits.{is_pending, bit}

-- Whether an entry may be sent: an indication, only if none waits for its confirmation.
abbrev pub sendable : Option ℕ → Memory → ℕ → Bool
sendable outstanding mem j =
    (is_pending mem true j && is_none outstanding) || is_pending mem false j

-- How far an entry lies ahead of the next one, in the circle.
abbrev pub ahead : ℕ → ℕ → ℕ → ℕ
ahead size next j = if leb next j then j - next else j + size - next

abbrev pub entry_of : Bool → EntryType
entry_of false = notification
entry_of true = indication

abbrev pub wait_for : Bool → ℕ → Option ℕ → Option ℕ
wait_for false index outstanding = outstanding
wait_for true index outstanding = some index

module _ (size offset : ℕ) (q : EntryQueue) (outstanding : Option ℕ) where
  abbrev pub sent : Bool → ℕ → Dequeued EntryQueue
  sent kind i = record {
    entry = entry_of kind;
    index = i + offset;
    rest = take_entry size q i (bit kind);
    outstanding = wait_for kind (i + offset) outstanding;
  }

  -- Either nothing can be sent, or the first entry in the circle that can.
  pub data Outcome : Dequeued EntryQueue → Type 0 where
    nothing :
        ((j : ℕ) → j < size → sendable outstanding q.queue j ≡ false)
        → Outcome (nothing_to_send size offset q outstanding)
    one :
        (kind : Bool) (i : ℕ)
        → i < size
        → is_pending q.queue kind i ≡ true
        → (kind && not (is_none outstanding)) ≡ false
        → ((j : ℕ)
            → j < size
            → ahead size q.next j < ahead size q.next i
            → sendable outstanding q.queue j ≡ false)
        → Outcome (sent kind i)

next_index : (size i : ℕ) → i < size → (i + 1) % size ≡ (if i + 1 == size then 0 else i + 1)
next_index size i h = elim (Bool-cases (i + 1 == size)) [
  | inl e ↦
      let last : i + 1 ≡ size = (==_iff (i + 1) size).0 e in
      rw e (ap (λ n. n % size) last ∙ mod_self size)
  | inr e ↦ rw e (mod-eq_of_lt (ground arith))
]

-- The index after `k` steps.
abbrev after_steps : ℕ → ℕ → ℕ → ℕ
after_steps size next k = if leb size (next + k) then next + k - size else next + k

next_step :
    (size next k : ℕ)
    → next < size
    → k < size
    → (after_steps size next k + 1) % size ≡ after_steps size next (k + 1)
next_step size next k h g = next_index size (after_steps size next k) (ground arith) ∙ ground arith

ahead_of_steps :
    (size next k : ℕ) → next < size → k < size → ahead size next (after_steps size next k) ≡ k
ahead_of_steps size next k h g = ground arith

steps_of_ahead :
    (size next j : ℕ) → next < size → j < size → after_steps size next (ahead size next j) ≡ j
steps_of_ahead size next j h g = ground arith

module _ (size offset : ℕ) (q : EntryQueue) (outstanding : Option ℕ)
    (in_circle : q.next < size) where
  abbrev Ends : Option (Dequeued EntryQueue) → Type 0
  Ends o = (r : Dequeued EntryQueue) × (o ≡ some r) × Outcome size offset q outstanding r

  abbrev Passed : ℕ → Type 0
  Passed k = (j : ℕ) → j < size → ahead size q.next j < k → sendable outstanding q.queue j ≡ false

  pass_one :
      (k : ℕ)
      → k < size
      → Passed k
      → sendable outstanding q.queue (after_steps size q.next k) ≡ false
      → Passed (k + 1)
  pass_one k more p e j h l = elim (Bool-cases (ahead size q.next j == k)) [
    | inl here ↦
        let same : after_steps size q.next k ≡ j =
          ap (after_steps size q.next) (sym ((==_iff (ahead size q.next j) k).0 here))
          ∙ steps_of_ahead size q.next j in_circle h in
        subst (λ n. sendable outstanding q.queue n ≡ false) same e
    | inr before ↦ p j h (ground arith)
  ]

  dequeue_loop-Ends :
      (fuel k : ℕ)
      → fuel + k ≡ size + 1
      → k ≤ size
      → Passed k
      → Ends (dequeue_loop size offset q outstanding fuel (k == 0) (after_steps size q.next k))
  unfolding dequeue_loop
  dequeue_loop-Ends zero k f b p = ground arith
  dequeue_loop-Ends (suc fuel) k f b p =
      let i : ℕ = after_steps size q.next k in
      let entry : ℕ = at_index q.queue i in
      if-elim Ends (not (k == 0) && (i == q.next))
        (λ stop.
          (nothing_to_send size offset q outstanding, refl, nothing (λ j h. p j h (ground arith))))
        (λ go.
          let more : k < size = ground arith in
          let place : ahead size q.next i ≡ k = ahead_of_steps size q.next k in_circle more in
          let inside : i < size = ground arith in
          let earlier : (j : ℕ)
              → j < size
              → ahead size q.next j < ahead size q.next i
              → sendable outstanding q.queue j ≡ false =
            λ j h l. p j h (ground arith) in
          if-elim Ends (sends_indication outstanding entry)
            (λ t. (
              sent size offset q outstanding true i,
              refl,
              one true i inside (ground arith) (ground arith) earlier,
            ))
            (λ no_indication.
              if-elim Ends (has_flag notification_bit entry)
                (λ t.
                  (sent size offset q outstanding false i, refl, one false i inside t refl earlier))
                (λ no_notification.
                  let not_first : (k + 1 == 0) ≡ false = ground arith in
                  let passed : Passed (k + 1) = λ j h l. pass_one k more p (ground arith) j h l in
                  subst (λ t. Ends (dequeue_loop size offset q outstanding fuel t ((i + 1) % size)))
                    not_first
                    (subst (λ n. Ends (dequeue_loop size offset q outstanding fuel (k + 1 == 0) n))
                      (sym (next_step size q.next k in_circle more))
                      (dequeue_loop-Ends fuel (k + 1) (omega arith) (omega arith) passed)))))

  -- If the next index lies within the queue of one priority, the loop of
  -- dequeue_indication_or_confirmation ends, and it gives nothing if no entry may be sent and else
  -- the first entry in the circle, from the next index on, that may be sent.
  pub dequeue-Ends : Ends (dequeue size offset q outstanding)
  unfolding dequeue
  dequeue-Ends =
      subst (λ i. Ends (dequeue_loop size offset q outstanding (size + 1) true i)) (ground arith)
        (dequeue_loop-Ends (size + 1) 0 (omega arith) (omega arith) (λ j h l. ground arith))
