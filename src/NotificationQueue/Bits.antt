-- ===== src/NotificationQueue/Bits.antt =====
-- bluetoe/notification_queue.hpp: the bits of one characteristic do not disturb those of another.
use bluetoe.Shared.{
  ℕ, ◌*◌, ◌/◌, ◌%◌, ◌^◌, ◌<◌, ◌≡◌, Bool, true, false, not, ◌&&◌, ◌||◌, ◌==◌, ==_iff, if◌then◌else◌,
  arith, refl, sym, ap, ap₂, ◌∙◌, Bool-cases, inl, inr, each_under, each_under_lem, has_flag,
  set_flag, clear_flag, same, ltb,
}
use bluetoe.Shared.Memory.{Memory, IsBytes, store-IsBytes}
use bluetoe.NotificationQueue.{at_index, add, remove, notification_bit, indication_bit}

abbrev pub bit : Bool → ℕ
bit false = notification_bit
bit true = indication_bit

-- The place of a bit in a byte: one of four, and one of the two bits there.
abbrev mask : Bool → ℕ → ℕ
mask kind place = bit kind * 2 ^ (place * 2)

abbrev pub is_pending : Memory → Bool → ℕ → Bool
is_pending mem kind index = has_flag (bit kind) (at_index mem index)

abbrev both : (Bool → Bool) → Bool
both p = p false && p true

abbrev undisturbed : Bool → ℕ → Bool → ℕ → ℕ → Bool
undisturbed kind place other elsewhere byte =
    same (has_flag (bit other) (set_flag (mask kind place) byte / 2 ^ (elsewhere * 2) % 4)) (
      (same kind other && (place == elsewhere))
      || has_flag (bit other) (byte / 2 ^ (elsewhere * 2) % 4))
    && same (has_flag (bit other) (clear_flag (mask kind place) byte / 2 ^ (elsewhere * 2) % 4)) (
        not (same kind other && (place == elsewhere))
        && has_flag (bit other) (byte / 2 ^ (elsewhere * 2) % 4))
    && same (has_flag (mask kind place) byte) (has_flag (bit kind) (byte / 2 ^ (place * 2) % 4))
    && ltb (set_flag (mask kind place) byte) 256
    && ltb (clear_flag (mask kind place) byte) 256

abbrev cells : Bool → Bool → ℕ → ℕ → Bool
cells kind other place elsewhere = each_under (undisturbed kind place other elsewhere) 256

abbrev others : Bool → Bool → ℕ → Bool
others kind other place = each_under (cells kind other place) 4

abbrev places : Bool → Bool → Bool
places kind other = each_under (others kind other) 4

-- Checked for every byte.
undisturbed_table : both (λ kind. both (places kind)) ≡ true
unfolding each_under
undisturbed_table = refl

record Undisturbed (kind : Bool) (place : ℕ) (other : Bool) (elsewhere byte : ℕ) : Type 0 where
  set_lem : has_flag (bit other) (set_flag (mask kind place) byte / 2 ^ (elsewhere * 2) % 4) ≡ (
      (same kind other && (place == elsewhere))
      || has_flag (bit other) (byte / 2 ^ (elsewhere * 2) % 4))
  clear_lem : has_flag (bit other) (clear_flag (mask kind place) byte / 2 ^ (elsewhere * 2) % 4) ≡ (
      not (same kind other && (place == elsewhere))
      && has_flag (bit other) (byte / 2 ^ (elsewhere * 2) % 4))
  test_lem : has_flag (mask kind place) byte ≡ has_flag (bit kind) (byte / 2 ^ (place * 2) % 4)
  set_byte : set_flag (mask kind place) byte < 256
  clear_byte : clear_flag (mask kind place) byte < 256

same_sound : (a b : Bool) → same a b ≡ true → a ≡ b
same_sound true true h = refl
same_sound true false h = ground (arith, h)
same_sound false true h = ground (arith, h)
same_sound false false h = refl

all_five :
    (a b c d e : Bool)
    → (a && b && c && d && e) ≡ true
    → (a ≡ true) × (b ≡ true) × (c ≡ true) × (d ≡ true) × (e ≡ true)
all_five a b c d e h = ground arith

ltb_sound : (a b : ℕ) → ltb a b ≡ true → a < b
ltb_sound a b h = ground arith

both_lem : (p : Bool → Bool) (k : Bool) → both p ≡ true → p k ≡ true
both_lem p false h = ground arith
both_lem p true h = ground arith

tests_lem :
    (kind other : Bool) (i j byte : ℕ)
    → byte < 256
    → undisturbed kind (i % 4) other (j % 4) byte ≡ true
tests_lem kind other i j byte h =
    let of_kind : both (places kind) ≡ true =
      both_lem (λ k. both (places k)) kind undisturbed_table in
    let of_other : places kind other ≡ true = both_lem (places kind) other of_kind in
    let place : others kind other (i % 4) ≡ true =
      each_under_lem (others kind other) {i = i % 4} 4 (omega arith) of_other in
    let elsewhere : cells kind other (i % 4) (j % 4) ≡ true =
      each_under_lem (cells kind other (i % 4)) {i = j % 4} 4 (omega arith) place in
    each_under_lem (undisturbed kind (i % 4) other (j % 4)) {i = byte} 256 h elsewhere

undisturbed_lem :
    (kind other : Bool) (i j byte : ℕ) → byte < 256 → Undisturbed kind (i % 4) other (j % 4) byte
undisturbed_lem kind other i j byte h =
    let (a, b, c, d, e) = all_five _ _ _ _ _ (tests_lem kind other i j byte h) in
    record {
      set_lem = same_sound _ _ a;
      clear_lem = same_sound _ _ b;
      test_lem = same_sound _ _ c;
      set_byte = ltb_sound _ _ d;
      clear_byte = ltb_sound _ _ e;
    }

byte_index : (index : ℕ) → index * 2 / 8 ≡ index / 4
byte_index index = omega arith

bit_index : (index : ℕ) → index * 2 % 8 ≡ index % 4 * 2
bit_index index = omega arith

-- The new state of one place, for the place itself and for all others.
module _ (mem : Memory) (kind other : Bool) (i j : ℕ) (change : ℕ → ℕ → ℕ)
    (value : Bool → Bool → Bool) where
  stored_lem :
      has_flag (bit other) (change (mask kind (i % 4)) (mem (i / 4)) / 2 ^ (j % 4 * 2) % 4)
        ≡ value
            (same kind other && (i % 4 == j % 4))
            (has_flag (bit other) (mem (i / 4) / 2 ^ (j % 4 * 2) % 4))
      → ((b : Bool) → value false b ≡ b)
      → has_flag (bit other) (
          (if j / 4 == i / 4 then change (mask kind (i % 4)) (mem (i / 4)) else mem (j / 4))
          / 2 ^ (j % 4 * 2)
          % 4)
        ≡ value
            (same kind other && (i == j))
            (has_flag (bit other) (mem (j / 4) / 2 ^ (j % 4 * 2) % 4))
  stored_lem h u = elim (Bool-cases (j / 4 == i / 4)) [
    | inl e ↦
        let cell : j / 4 ≡ i / 4 = (==_iff (j / 4) (i / 4)).0 e in
        let test : (i % 4 == j % 4) ≡ (i == j) = ground arith in
        rw e (
          h
          ∙ ap₂
              (λ t c.
                value (same kind other && t) (has_flag (bit other) (mem c / 2 ^ (j % 4 * 2) % 4)))
              test (sym cell))
    | inr e ↦
        let test : (same kind other && (i == j)) ≡ false = ground arith in
        rw e (rw test (sym (u _)))
  ]

module _ (mem : Memory) (kind : Bool) (i : ℕ) (bytes : IsBytes mem) where
  pub is_pending-add :
      (other : Bool) (j : ℕ)
      → is_pending (add mem i (bit kind)).1 other j
        ≡ ((same kind other && (i == j)) || is_pending mem other j)
  unfolding add at_index
  is_pending-add other j =
      rw (at_index, add, byte_index i, byte_index j, bit_index i, bit_index j)
        (stored_lem mem kind other i j set_flag ◌||◌
          (undisturbed_lem kind other i j (mem (i / 4)) (bytes (i / 4))).set_lem (λ b. refl))

  pub is_pending-remove :
      (other : Bool) (j : ℕ)
      → is_pending (remove mem i (bit kind)) other j
        ≡ (not (same kind other && (i == j)) && is_pending mem other j)
  unfolding remove at_index
  is_pending-remove other j =
      rw (at_index, remove, byte_index i, byte_index j, bit_index i, bit_index j)
        (stored_lem mem kind other i j clear_flag (λ a b. not a && b)
          (undisturbed_lem kind other i j (mem (i / 4)) (bytes (i / 4))).clear_lem (λ b. refl))

  pub add_result : (add mem i (bit kind)).0 ≡ not (is_pending mem kind i)
  unfolding add at_index
  add_result =
      rw (at_index, add, byte_index i, bit_index i)
        (ap not (undisturbed_lem kind kind i i (mem (i / 4)) (bytes (i / 4))).test_lem)

  pub add-IsBytes : IsBytes (add mem i (bit kind)).1
  unfolding add
  add-IsBytes =
      rw (add, byte_index i, bit_index i)
        (store-IsBytes mem (i / 4) _ bytes
          (undisturbed_lem kind kind i i (mem (i / 4)) (bytes (i / 4))).set_byte)

  pub remove-IsBytes : IsBytes (remove mem i (bit kind))
  unfolding remove
  remove-IsBytes =
      rw (remove, byte_index i, bit_index i)
        (store-IsBytes mem (i / 4) _ bytes
          (undisturbed_lem kind kind i i (mem (i / 4)) (bytes (i / 4))).clear_byte)
