-- ===== src/NotificationQueue/Levels/Dequeue.antt =====
-- bluetoe/notification_queue.hpp: what `dequeue_indication_or_confirmation` takes out.
use native.Mathlib.Nat.{mod-lt}
use bluetoe.Shared.{
  ℕ, ◌+◌, ◌-◌, ◌%◌, ◌<◌, ◌≤◌, ◌≡◌, Bool, true, false, not, ◌&&◌, ◌==◌, arith, same, refl, sym, ap,
  ap₂, ◌∙◌, inl, inr, ◌⊎◌, Option, none, some, map_option, bind, List, [], ◌∷◌, Every,
}
use bluetoe.Shared.Memory.{Memory}
use bluetoe.NotificationQueue.{
  EntryType, empty, notification, indication, EntryQueue, Dequeued, LevelQueue, several, single,
  level_size, dequeue_level, dequeue_levels, then_lower, dequeue_single, map_rest, is_empty,
}
use bluetoe.NotificationQueue.Bits.{is_pending, is_pending-remove, remove-IsBytes}
use bluetoe.NotificationQueue.Circle.{
  Outcome, nothing, one, dequeue-Ends, sendable, entry_of, wait_for,
}
use bluetoe.NotificationQueue.Levels.{IsValid, pending_in, pending, may_send, level}

-- What one priority gives: nothing, if nothing of it may be sent, or one pending entry, which is taken out.
pub data OfLevel (offset : ℕ) (p : LevelQueue) (outstanding : Option ℕ) (r : Dequeued LevelQueue)
    : Type 0 where
  no_entry :
      r.entry ≡ empty
      → r.rest ≡ p
      → r.outstanding ≡ outstanding
      → ((kind : Bool) (j : ℕ)
          → j < level_size p
          → (pending_in p kind j && may_send outstanding kind) ≡ false)
      → OfLevel offset p outstanding r
  entry :
      (kind : Bool) (i : ℕ)
      → i < level_size p
      → r.entry ≡ entry_of kind
      → r.index ≡ i + offset
      → r.outstanding ≡ wait_for kind (i + offset) outstanding
      → (pending_in p kind i && may_send outstanding kind) ≡ true
      → level_size r.rest ≡ level_size p
      → ((other : Bool) (j : ℕ)
          → j < level_size p
          → pending_in r.rest other j ≡ (not (same kind other && (i == j)) && pending_in p other j))
      → OfLevel offset p outstanding r

remainder : (size next : ℕ) → next < size → (k : ℕ) → k % size < size
remainder size next h k = mod-lt k (ground arith)

neither :
    (mem : Memory) (outstanding : Option ℕ) (kind : Bool) (j : ℕ)
    → sendable outstanding mem j ≡ false
    → (is_pending mem kind j && may_send outstanding kind) ≡ false
neither mem outstanding true j h = ground arith
neither mem outstanding false j h = ground arith

dequeue_several-OfLevel :
    (size offset : ℕ) (q : EntryQueue) (outstanding : Option ℕ) (r : Dequeued EntryQueue)
    → IsValid (several size q)
    → Outcome size offset q outstanding r
    → OfLevel offset (several size q) outstanding (map_rest (several size) r)
      × IsValid (several size r.rest)
dequeue_several-OfLevel size offset q outstanding r v (nothing unsendable) =
    (no_entry refl refl refl (λ kind j h. neither q.queue outstanding kind j (unsendable j h)), v)
dequeue_several-OfLevel size offset q outstanding r v (one kind i h set allowed earlier) = (
  entry kind i h refl refl refl (ground arith) refl
      (λ other j g. is_pending-remove q.queue kind i v.1 other j),
  (remainder size q.next v.0 (i + 1), remove-IsBytes q.queue kind i v.1),
)

only_one :
    (kind other : Bool) (j : ℕ)
    → j < 1
    → false ≡ (not (same kind other && (0 == j)) && same kind other)
only_one true true j h = ground arith
only_one true false j h = ground arith
only_one false true j h = ground arith
only_one false false j h = ground arith

dequeue_single-OfLevel :
    (offset : ℕ) (state : EntryType) (outstanding : Option ℕ)
    → OfLevel offset
        (single state)
        outstanding
        (map_rest single (dequeue_single offset state outstanding))
unfolding dequeue_single
dequeue_single-OfLevel offset empty outstanding = no_entry refl refl refl (λ kind j h. refl)
dequeue_single-OfLevel offset notification outstanding =
    entry false 0 (omega arith) refl (omega arith) refl refl refl
      (λ other j h. only_one false other j h)
dequeue_single-OfLevel offset indication none =
    entry true 0 (omega arith) refl (omega arith) (ap some (omega arith)) refl refl
      (λ other j h. only_one true other j h)
dequeue_single-OfLevel offset indication (some i) =
    no_entry refl refl refl (λ kind j h. ground arith)

abbrev LevelEnds : ℕ → LevelQueue → Option ℕ → Type 0
LevelEnds offset p outstanding =
    (r : Dequeued LevelQueue) × (dequeue_level offset p outstanding ≡ some r)
    × OfLevel offset p outstanding r
    × IsValid r.rest

dequeue_level-Ends :
    (offset : ℕ) (p : LevelQueue) (outstanding : Option ℕ)
    → IsValid p
    → LevelEnds offset p outstanding
dequeue_level-Ends offset (several size q) outstanding v =
    let (r, e, outcome) = dequeue-Ends size offset q outstanding v.0 in
    let (found, valid) = dequeue_several-OfLevel size offset q outstanding r v outcome in
    (map_rest (several size) r, ap (map_option (map_rest (several size))) e, found, valid)
dequeue_level-Ends offset (single state) outstanding v = (
  map_rest single (dequeue_single offset state outstanding),
  refl,
  dequeue_single-OfLevel offset state outstanding,
  v,
)

-- What all priorities give.
pub data OfLevels (offset : ℕ) (ps : List LevelQueue) (outstanding : Option ℕ)
    (r : Dequeued (List LevelQueue)) : Type 0 where
  no_entry_left :
      r.entry ≡ empty
      → r.rest ≡ ps
      → r.outstanding ≡ outstanding
      → ((kind : Bool) (j : ℕ) → (pending ps kind j && may_send outstanding kind) ≡ false)
      → OfLevels offset ps outstanding r
  first_entry :
      (kind : Bool) (i : ℕ)
      → r.entry ≡ entry_of kind
      → r.index ≡ i + offset
      → r.outstanding ≡ wait_for kind (i + offset) outstanding
      → (pending ps kind i && may_send outstanding kind) ≡ true
      → ((other : Bool) (j : ℕ)
          → pending r.rest other j ≡ (not (same kind other && (i == j)) && pending ps other j))
      → ((other : Bool) (j : ℕ)
          → (pending ps other j && may_send outstanding other) ≡ true
          → level ps i ≤ level ps j)
      → OfLevels offset ps outstanding r

abbrev pub LevelsEnd : ℕ → List LevelQueue → Option ℕ → Type 0
LevelsEnd offset ps outstanding =
    (r : Dequeued (List LevelQueue)) × (dequeue_levels offset ps outstanding ≡ some r)
    × OfLevels offset ps outstanding r
    × Every IsValid r.rest

module _ (p : LevelQueue) (ps : List LevelQueue) where
  pub pending_here :
      (kind : Bool) (j : ℕ) → j < level_size p → pending (p ∷ ps) kind j ≡ pending_in p kind j
  unfolding pending
  pending_here kind j h = ground arith

  pub pending_below :
      (kind : Bool) (j : ℕ)
      → level_size p ≤ j
      → pending (p ∷ ps) kind j ≡ pending ps kind (j - level_size p)
  unfolding pending
  pending_below kind j h = ground arith

  level_here : (j : ℕ) → j < level_size p → level (p ∷ ps) j ≡ 0
  unfolding level
  level_here j h = ground arith

  level_below : (j : ℕ) → level_size p ≤ j → level (p ∷ ps) j ≡ level ps (j - level_size p) + 1
  unfolding level
  level_below j h = ground arith

-- A characteristic is one of the highest priority here, or one of the lower ones.
pub either_level : (p : LevelQueue) (j : ℕ) → (j < level_size p) ⊎ (level_size p ≤ j)
either_level p j = ground arith

untouched : (a b : Bool) → (not (a && false) && b) ≡ b
untouched true b = refl
untouched false b = refl

shifted :
    (p : LevelQueue) (ps : List LevelQueue) (kind : Bool) (i : ℕ)
    → pending (p ∷ ps) kind (i + level_size p) ≡ pending ps kind i
shifted p ps kind i =
    pending_below p ps kind (i + level_size p) (omega arith) ∙ ap (pending ps kind) (omega arith)

-- What a priority gives is what all give, and what the lower ones give counts if it gives nothing.
module _ (offset : ℕ) (p : LevelQueue) (ps : List LevelQueue) (outstanding : Option ℕ) where
  upper :
      (r : Dequeued LevelQueue) (kind : Bool) (i : ℕ)
      → i < level_size p
      → r.entry ≡ entry_of kind
      → r.index ≡ i + offset
      → r.outstanding ≡ wait_for kind (i + offset) outstanding
      → (pending_in p kind i && may_send outstanding kind) ≡ true
      → level_size r.rest ≡ level_size p
      → ((other : Bool) (j : ℕ)
          → j < level_size p
          → pending_in r.rest other j ≡ (not (same kind other && (i == j)) && pending_in p other j))
      → OfLevels offset (p ∷ ps) outstanding (map_rest (λ p'. p' ∷ ps) r)
  upper r kind i h e x o set size gone =
      first_entry kind i e x o
        (ap (λ b. b && may_send outstanding kind) (pending_here p ps kind i h) ∙ set)
        (λ other j. elim (either_level p j) [
          | inl here ↦
              pending_here r.rest ps other j (ground arith)
              ∙ gone other j here
              ∙ ap (λ b. not (same kind other && (i == j)) && b)
                  (sym (pending_here p ps other j here))
          | inr below ↦
              let elsewhere : (i == j) ≡ false = ground arith in
              pending_below r.rest ps other j (ground arith)
              ∙ ap (λ n. pending ps other (j - n)) size
              ∙ sym
                  (rw elsewhere (untouched (same kind other) _ ∙ pending_below p ps other j below))
        ])
        (λ other j g. rw (level_here p ps i h) (omega arith))

  lower :
      (r : Dequeued LevelQueue) (s : Dequeued (List LevelQueue))
      → r.rest ≡ p
      → ((kind : Bool) (j : ℕ)
          → j < level_size p
          → (pending_in p kind j && may_send outstanding kind) ≡ false)
      → OfLevels (offset + level_size p) ps outstanding s
      → OfLevels offset (p ∷ ps) outstanding (map_rest (λ ps'. r.rest ∷ ps') s)
  lower r s same_rest none_here (no_entry_left e k o none_below) =
      no_entry_left e (ap₂ ◌∷◌ same_rest k) o (λ kind j. elim (either_level p j) [
        | inl here ↦
            ap (λ b. b && may_send outstanding kind) (pending_here p ps kind j here)
            ∙ none_here kind j here
        | inr below ↦
            ap (λ b. b && may_send outstanding kind) (pending_below p ps kind j below)
            ∙ none_below kind (j - level_size p)
      ])
  lower r s same_rest none_here (first_entry kind i e x o set gone first) =
      first_entry kind (i + level_size p) e (x ∙ omega arith)
        (o ∙ ap (λ n. wait_for kind n outstanding) (omega arith))
        (ap (λ b. b && may_send outstanding kind) (shifted p ps kind i) ∙ set)
        (λ other j. elim (either_level p j) [
          | inl here ↦
              let elsewhere : (i + level_size p == j) ≡ false = ground arith in
              ap (λ q. pending (q ∷ s.rest) other j) same_rest
              ∙ pending_here p s.rest other j here
              ∙ sym (rw elsewhere (untouched (same kind other) _ ∙ pending_here p ps other j here))
          | inr below ↦
              let test : (i == j - level_size p) ≡ (i + level_size p == j) = ground arith in
              ap (λ q. pending (q ∷ s.rest) other j) same_rest
              ∙ pending_below p s.rest other j below
              ∙ gone other (j - level_size p)
              ∙ ap₂ (λ t b. not (same kind other && t) && b) test
                  (sym (pending_below p ps other j below))
        ])
        (λ other j g. elim (either_level p j) [
          | inl here ↦
              let none_pending =
                ap (λ b. b && may_send outstanding other) (pending_here p ps other j here)
                ∙ none_here other j here in
              ground arith
          | inr below ↦
              let still =
                sym (ap (λ b. b && may_send outstanding other) (pending_below p ps other j below))
                ∙ g in
              let lower_one = first other (j - level_size p) still in
              let mine : level (p ∷ ps) (i + level_size p) ≡ level ps i + 1 =
                level_below p ps (i + level_size p) (omega arith)
                ∙ ap (λ n. level ps n + 1) (omega arith) in
              let its = level_below p ps j below in omega arith
        ])

is_empty-entry_of : (kind : Bool) → is_empty (entry_of kind) ≡ false
is_empty-entry_of true = refl
is_empty-entry_of false = refl

-- The lower priorities are asked exactly if this one gave nothing.
then_lower-End :
    (offset : ℕ) (p : LevelQueue) (ps : List LevelQueue) (outstanding : Option ℕ)
    (r : Dequeued LevelQueue)
    → OfLevel offset p outstanding r
    → IsValid r.rest
    → Every IsValid ps
    → LevelsEnd (offset + level_size p) ps outstanding
    → (t : Dequeued (List LevelQueue)) × (then_lower ps
          (dequeue_levels (offset + level_size p) ps)
          r
        ≡ some t)
      × OfLevels offset (p ∷ ps) outstanding t
      × Every IsValid t.rest
unfolding then_lower
then_lower-End offset p ps outstanding r (no_entry e k o none_here) v vs (s, f, found, w) = (
  map_rest (λ ps'. r.rest ∷ ps') s,
  rw (then_lower, e, o, f) refl,
  lower offset p ps outstanding r s k none_here found,
  (v, w),
)
then_lower-End offset p ps outstanding r (entry kind i h e x o set size gone) v vs below = (
  map_rest (λ p'. p' ∷ ps) r,
  rw (then_lower, e, is_empty-entry_of kind) refl,
  upper offset p ps outstanding r kind i h e x o set size gone,
  (v, vs),
)

pub dequeue_levels-End :
    (offset : ℕ) (ps : List LevelQueue) (outstanding : Option ℕ)
    → Every IsValid ps
    → LevelsEnd offset ps outstanding
unfolding dequeue_levels pending
dequeue_levels-End offset [] outstanding vs = (
  record { entry = empty; index = 0; rest = []; outstanding = outstanding },
  refl,
  no_entry_left refl refl refl (λ kind j. refl),
  vs,
)
dequeue_levels-End offset (p ∷ ps) outstanding vs =
    let (r, e, found, v) = dequeue_level-Ends offset p outstanding vs.0 in
    let below = dequeue_levels-End (offset + level_size p) ps outstanding vs.1 in
    let (t, g, all, w) = then_lower-End offset p ps outstanding r found v vs.1 below in
    (t, ap (λ o. bind o (then_lower ps (dequeue_levels (offset + level_size p) ps))) e ∙ g, all, w)
