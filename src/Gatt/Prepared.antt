-- ===== src/Gatt/Prepared.antt =====
-- bluetoe/server.hpp: prepared writes as the list of what was prepared, over bluetoe/write_queue.hpp.
use bluetoe.Shared.{
  ℕ, zero, suc, ◌+◌, ◌*◌, ◌≤◌, ◌<◌, ◌≡◌, refl, ap, ap₂, ◌∙◌, arith, true, false, Option, none, some,
  List, [], ◌∷◌, ◌++◌, ◌==◌, if◌then◌else◌, length, get_or, drop,
}
use bluetoe.Shared.Memory.{Memory, bytes_at, bytes_at-frame}
use bluetoe.L2cap.{read_two}
use bluetoe.WriteQueue.{WriteQueue, is_taken, read_size, next_write_queue_element}
use bluetoe.WriteQueue.Elements.{read_size_lem, next_lem}
use bluetoe.Gatt.{
  Values, Accessed, success, Server, Caller, write_access, index_by_handle, index_of,
}
use bluetoe.Gatt.Writes.{write_element, execute_writes}

-- From `p` to `end` stand these elements, each behind its size.
abbrev pub IsPrepared : Memory → ℕ → ℕ → List (List ℕ) → Type 0
IsPrepared mem p end [] = p ≡ end
IsPrepared mem p end (e ∷ es) =
    (mem p + mem (p + 1) * 256 ≡ length e)
    × (bytes_at mem (p + 2) (length e) ≡ e)
    × IsPrepared mem (p + (length e + 2)) end es

-- Who has the queue: nobody, if nothing is prepared.
abbrev pub IsOwner : WriteQueue → ℕ → List (List ℕ) → Type 0
IsOwner q client [] = q.current_client ≡ none
IsOwner q client (e ∷ es) = q.current_client ≡ some client

-- The queue of a size has just these elements, and they are the client's.
abbrev pub HasPrepared : ℕ → WriteQueue → ℕ → List (List ℕ) → Type 0
HasPrepared size q client es =
    IsOwner q client es × (q.buffer_end ≤ size) × IsPrepared q.buffer 0 q.buffer_end es

pub prepared_bound :
    (mem : Memory) (p end : ℕ) (es : List (List ℕ))
    → IsPrepared mem p end es
    → p + 2 * length es ≤ end
prepared_bound mem p end [] h = omega arith
prepared_bound mem p end (e ∷ es) h =
    let b = prepared_bound mem (p + (length e + 2)) end es h.2 in omega arith

pub IsPrepared-frame :
    (mem mem' : Memory) (p end : ℕ) (es : List (List ℕ))
    → ((i : ℕ) → i < end → mem' i ≡ mem i)
    → IsPrepared mem p end es
    → IsPrepared mem' p end es
IsPrepared-frame mem mem' p end [] f h = h
IsPrepared-frame mem mem' p end (e ∷ es) f h =
    let b = prepared_bound mem (p + (length e + 2)) end es h.2 in
    (
      ap₂ (λ x y. x + y * 256) (f p (omega arith)) (f (p + 1) (omega arith)) ∙ h.0,
      bytes_at-frame mem mem' (p + 2) (length e) (λ i low high. f i (omega arith)) ∙ h.1,
      IsPrepared-frame mem mem' (p + (length e + 2)) end es f h.2,
    )

pub IsPrepared-append :
    (mem : Memory) (p middle end : ℕ) (e : List ℕ) (es : List (List ℕ))
    → IsPrepared mem p middle es
    → IsPrepared mem middle end (e ∷ [])
    → IsPrepared mem p end (es ++ e ∷ [])
IsPrepared-append mem p middle end e [] h g = rw h g
IsPrepared-append mem p middle end e (x ∷ xs) h g =
    (h.0, h.1, IsPrepared-append mem (p + (length x + 2)) middle end e xs h.2 g)

pub IsOwner-append :
    (q : WriteQueue) (client : ℕ) (e : List ℕ) (es : List (List ℕ))
    → q.current_client ≡ some client
    → IsOwner q client (es ++ e ∷ [])
IsOwner-append q client e [] h = h
IsOwner-append q client e (x ∷ xs) h = h

pub owner_not_taken :
    (q : WriteQueue) (client : ℕ) (es : List (List ℕ))
    → IsOwner q client es
    → is_taken q client ≡ false
unfolding is_taken
owner_not_taken q client [] h = rw h refl
owner_not_taken q client (e ∷ es) h =
    let same : (client == client) ≡ true = ground arith in rw (h, same) refl

module _ {ℓ} {S : Type ℓ} (v : Server S) where
  -- The number that two bytes of an element make, the lower one first.
  abbrev pub number_at : List ℕ → ℕ → ℕ
  number_at e i = get_or e i 0 + get_or e (i + 1) 0 * 256

  -- What an element asks for: its bytes from the fifth on go to the offset in its bytes 2 and 3 of the attribute whose handle
  -- stands in its first two bytes.
  abbrev pub write_part : List ℕ → Caller → Values S → Accessed S
  write_part e who values =
      let index : ℕ = index_of (index_by_handle v (number_at e 0)) in
      (v.attribute_at index).access (write_access (drop 4 e) (number_at e 2)) who index values

  -- Writing elements in their order, up to the first one that fails: its handle and its result.
  abbrev pub write_all : List (List ℕ) → Caller → Values S → Values S × Option (ℕ × ℕ)
  write_all [] who values = (values, none)
  write_all (e ∷ es) who values =
      let r = write_part e who values in
      let rest = write_all es who r.values in
      if r.result == 0 then rest else (r.values, some (number_at e 0, r.result))

  pub execute_none :
      (fuel : ℕ) (q : WriteQueue) (who : Caller) (values : Values S)
      → execute_writes v fuel q none who values ≡ (values, none)
  unfolding execute_writes
  execute_none zero q who values = refl
  execute_none (suc fuel) q who values = refl

  pub execute_writes_lem :
      (fuel : ℕ) (q : WriteQueue) (p : ℕ) (e : List ℕ) (es : List (List ℕ)) (who : Caller)
      (values : Values S)
      → IsPrepared q.buffer p q.buffer_end (e ∷ es)
      → length es < fuel
      → execute_writes v fuel q (some (p + 2, length e)) who values ≡ write_all (e ∷ es) who values
  unfolding execute_writes write_element
  execute_writes_lem zero q p e es who values h less = absurd (omega arith)
  execute_writes_lem (suc fuel) q p e [] who values h less =
      let here : read_size q (p + 2) ≡ length e = read_size_lem q p ∙ h.0 in
      let last : (p + (length e + 2) == q.buffer_end) ≡ true = ground arith in
      let r : Accessed S = write_element v e who values in
      let next : next_write_queue_element q (p + 2) ≡ none =
        next_lem q p (length e) here ∙ rw last refl in
      rw (h.1, next)
        (ap
          (λ (x : Values S × Option (ℕ × ℕ)).
            if r.result == success then x else (r.values, some (read_two e 0, r.result)))
          (execute_none fuel q who r.values))
  execute_writes_lem (suc fuel) q p e (e' ∷ es) who values h less =
      let here : read_size q (p + 2) ≡ length e = read_size_lem q p ∙ h.0 in
      let there : read_size q (p + (length e + 2) + 2) ≡ length e' =
        read_size_lem q (p + (length e + 2)) ∙ h.2.0 in
      let bound = prepared_bound q.buffer (p + (length e + 2)) q.buffer_end (e' ∷ es) h.2 in
      let more : (p + (length e + 2) == q.buffer_end) ≡ false = ground arith in
      let r : Accessed S = write_element v e who values in
      let next : next_write_queue_element q (p + 2) ≡ some (p + (length e + 2) + 2, length e') =
        next_lem q p (length e) here ∙ rw (more, there) refl in
      rw (h.1, next)
        (ap
          (λ (x : Values S × Option (ℕ × ℕ)).
            if r.result == success then x else (r.values, some (read_two e 0, r.result)))
          (execute_writes_lem fuel q (p + (length e + 2)) e' es who r.values h.2 (omega arith)))
