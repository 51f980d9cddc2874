-- ===== src/Gatt/Preparation.antt =====
-- bluetoe/server.hpp: a write that is prepared is appended to those that are.
use bluetoe.Shared.{
  ℕ, ◌+◌, ◌-◌, ◌*◌, ◌^◌, ◌≤◌, ◌<◌, ◌≡◌, refl, sym, subst, ap, ap₂, ◌∙◌, ◌⊎◌, arith, min, true,
  Bool-cases, inl, inr, none, some, List, [], ◌∷◌, ◌++◌, ltb, length, take, drop,
}
use bluetoe.Shared.Memory.{copy_bytes}
use bluetoe.SduBuffer.Copy.{copy_bytes_before, bytes_at-copy_bytes}
use bluetoe.WriteQueue.{WriteQueue, allocate_from_write_queue}
use bluetoe.WriteQueue.Clients.{allocate_lem, with_size, with_size_at, with_size_before}
use bluetoe.Gatt.{AttState, Link}
use bluetoe.Gatt.ErrorCode
use bluetoe.Gatt.Checks.{error_response, opcode_of}
use bluetoe.Gatt.Writes.{fill_element, enqueue_write}
use bluetoe.Gatt.Prepared.{
  HasPrepared, IsPrepared-frame, IsPrepared-append, IsOwner-append, owner_not_taken,
}

length-drop : (xs : List ℕ) → length (drop 1 xs) ≡ length xs - 1
length-drop [] = refl
length-drop (x ∷ xs) = omega arith

-- The queue with an element behind the others.
abbrev with_element : WriteQueue → ℕ → List ℕ → WriteQueue
with_element q client e = record {
  current_client = some client;
  buffer = copy_bytes (with_size q.buffer q.buffer_end (length e)) (q.buffer_end + 2) e;
  buffer_end = q.buffer_end + (length e + 2);
}

with_element-HasPrepared :
    (size : ℕ) (q : WriteQueue) (client : ℕ) (e : List ℕ) (es : List (List ℕ))
    → size < 2 ^ 16
    → q.buffer_end + length e + 2 ≤ size
    → HasPrepared size q client es
    → HasPrepared size (with_element q client e) client (es ++ e ∷ [])
with_element-HasPrepared size q client e es small room h =
    let end = q.buffer_end in
    let sized = with_size q.buffer end (length e) in
    let mem = copy_bytes sized (end + 2) e in
    let before : (i : ℕ) → i < end + 2 → mem i ≡ sized i =
      λ i less. copy_bytes_before sized (end + 2) e i less in
    let frame : (i : ℕ) → i < end → mem i ≡ q.buffer i =
      λ i less. before i (omega arith) ∙ with_size_before q.buffer end (length e) i less in
    (
      IsOwner-append (with_element q client e) client e es refl,
      omega arith,
      IsPrepared-append mem 0 end (end + (length e + 2)) e es
          (IsPrepared-frame q.buffer mem 0 end es frame h.2)
          (
            ap₂ (λ x y. x + y * 256) (before end (omega arith)) (before (end + 1) (omega arith))
                ∙ with_size_at q.buffer end (length e) (omega arith),
            bytes_at-copy_bytes sized (end + 2) e,
            refl,
          ),
    )

refused_lem :
    (size : ℕ) (q : WriteQueue) (n client : ℕ)
    → q.buffer_end ≤ size
    → size < q.buffer_end + n + 2
    → allocate_from_write_queue size q n client ≡ (q, none)
unfolding allocate_from_write_queue
refused_lem size q n client bound full =
    let test : ltb (size - q.buffer_end) (n + 2) ≡ true = ground arith in rw test refl

module _ {ℓ} {S : Type ℓ} (size n : ℕ) (input : List ℕ) (handle : ℕ) (c : Link)
    (s : AttState S) where
  enqueue_full :
      s.write_queue.buffer_end ≤ size
      → size < s.write_queue.buffer_end + (length input - 1) + 2
      → enqueue_write size n input handle c s
        ≡ (s, error_response n (opcode_of input) ErrorCode.prepare_queue_full handle)
  unfolding enqueue_write
  enqueue_full bound full =
      ap (fill_element n input handle s)
        (refused_lem size s.write_queue (length input - 1) c.client_id bound full)

  enqueue_lem :
      (es : List (List ℕ))
      → size < 2 ^ 16
      → HasPrepared size s.write_queue c.client_id es
      → s.write_queue.buffer_end + (length input - 1) + 2 ≤ size
      → enqueue_write size n input handle c s ≡ (
        record s { write_queue = with_element s.write_queue c.client_id (drop 1 input) },
        23 ∷ take (min n (length input) - 1) (drop 1 input),
      )
  unfolding enqueue_write
  enqueue_lem es small h room =
      let free = owner_not_taken s.write_queue c.client_id es h.0 in
      let same_size = length-drop input in
      ap (fill_element n input handle s)
        (allocate_lem size s.write_queue (length input - 1) c.client_id small free room)
      ∙ rw⁻¹ same_size refl

-- What becomes of a write that the attribute accepts: it is prepared, if there is room, and refused else.
abbrev pub IsEnqueued {ℓ} :
    {S : Type ℓ}
    → ℕ
    → ℕ
    → List ℕ
    → ℕ
    → Link
    → List (List ℕ)
    → AttState S
    → AttState S × List ℕ
    → Type 0
IsEnqueued size n input handle c es s (s', answer) =
    ((s.write_queue.buffer_end + (length input - 1) + 2 ≤ size)
      × (answer ≡ 23 ∷ take (min n (length input) - 1) (drop 1 input))
      × HasPrepared size s'.write_queue c.client_id (es ++ drop 1 input ∷ []))
    ⊎ ((size < s.write_queue.buffer_end + (length input - 1) + 2)
        × (answer ≡ error_response n (opcode_of input) ErrorCode.prepare_queue_full handle)
        × HasPrepared size s'.write_queue c.client_id es)

pub enqueue_write-IsEnqueued {ℓ} :
    {S : Type ℓ} (size n : ℕ) (input : List ℕ) (handle : ℕ) (c : Link) (s : AttState S)
    (es : List (List ℕ))
    → size < 2 ^ 16
    → HasPrepared size s.write_queue c.client_id es
    → IsEnqueued size n input handle c es s (enqueue_write size n input handle c s)
enqueue_write-IsEnqueued size n input handle c s es small h =
    elim (Bool-cases (ltb size (s.write_queue.buffer_end + (length input - 1) + 2))) [
      | inl e ↦
          subst (IsEnqueued size n input handle c es s)
            (sym (enqueue_full size n input handle c s h.1 (ground arith)))
            (inr (ground arith, refl, h))
      | inr e ↦
          subst (IsEnqueued size n input handle c es s)
            (sym (enqueue_lem size n input handle c s es small h (ground arith)))
            (inl (
              ground arith,
              refl,
              with_element-HasPrepared size s.write_queue c.client_id (drop 1 input) es small
                  (let l = length-drop input in ground arith) h,
            ))
    ]
