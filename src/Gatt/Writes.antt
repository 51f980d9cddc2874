-- ===== src/Gatt/Writes.antt =====
-- bluetoe/server.hpp: writing an attribute, at once or by the write queue.
use bluetoe.Shared.{
  ℕ, zero, suc, ◌-◌, min, not, ◌||◌, Option, none, some, List, [], ◌∷◌, ◌==◌, if◌then◌else◌, ltb,
  length, get_or, drop, take,
}
use bluetoe.Shared.Memory.{bytes_at, copy_bytes}
use bluetoe.L2cap.{read_two}
use bluetoe.NotificationQueue.{is_none}
use bluetoe.WriteQueue.{
  WriteQueue, allocate_from_write_queue, free_write_queue, first_write_queue_element,
  next_write_queue_element,
}
use bluetoe.Gatt.{
  write_access, Caller, of_client, nobody, Values, Accessed, success, Server, AttState, Link,
  access_at, index_by_handle, index_of,
}
use bluetoe.Gatt.ErrorCode
use bluetoe.Gatt.Checks.{
  error_response, access_result_to_att_code, opcode_of, passed, refused, check_handle,
}

-- The error of a prepared write that failed.
abbrev pub execution_error : ℕ → ℕ
execution_error result =
    if result == ErrorCode.invalid_attribute_value_length
    then ErrorCode.invalid_attribute_value_length
    else ErrorCode.invalid_offset

-- What is prepared is all but the opcode; it goes to the allocated place.
abbrev pub fill_element {ℓ} :
    {S : Type ℓ} → ℕ → List ℕ → ℕ → AttState S → WriteQueue × Option ℕ → AttState S × List ℕ
fill_element n input handle s (q, none) = (
  record s { write_queue = q },
  error_response n (opcode_of input) ErrorCode.prepare_queue_full handle,
)
fill_element n input handle s (q, some place) = (
  record s { write_queue = record q { buffer = copy_bytes q.buffer place (drop 1 input) } },
  23 ∷ take (min n (length input) - 1) (drop 1 input),
)

unfoldable pub enqueue_write {ℓ} :
    {S : Type ℓ} → ℕ → ℕ → List ℕ → ℕ → Link → AttState S → AttState S × List ℕ
enqueue_write size n input handle c s =
    fill_element n input handle s
      (allocate_from_write_queue size s.write_queue (length input - 1) c.client_id)

-- How the execution ends, with a write that failed or without one.
abbrev pub end_execution {ℓ} :
    {S : Type ℓ} → ℕ → ℕ → WriteQueue → AttState S → Values S × Option (ℕ × ℕ) → AttState S × List ℕ
end_execution n opcode freed s (values, none) =
    (record s { values = values; write_queue = freed }, 25 ∷ [])
end_execution n opcode freed s (values, some (handle, result)) = (
  record s { values = values; write_queue = freed },
  error_response n opcode (execution_error result) handle,
)

module _ {ℓ} {S : Type ℓ} (v : Server S) where
  unfoldable pub handle_write_request : ℕ → List ℕ → Caller → Values S → Values S × List ℕ
  handle_write_request n input who values =
      if ltb (length input) 3
      then (values, error_response n (opcode_of input) ErrorCode.invalid_pdu 0)
      else elim (check_handle v n input) [
        | refused answer ↦ (values, answer)
        | passed (handle, index) ↦
            let r = access_at v index (write_access (drop 3 input) 0) who values in
            (
              r.values,
              if r.result == success
                  then 19 ∷ []
                  else error_response n (opcode_of input)
                      (access_result_to_att_code r.result ErrorCode.write_not_permitted) handle,
            )
      ]

  unfoldable pub handle_write_command : ℕ → List ℕ → Caller → Values S → Values S × List ℕ
  handle_write_command n input who values = ((handle_write_request n input who values).0, [])

  -- The overload for a server with a write queue of some size.
  unfoldable pub prepare_write : ℕ → ℕ → List ℕ → Link → AttState S → AttState S × List ℕ
  prepare_write size n input c s =
      if ltb (length input) 5
      then (s, error_response n (opcode_of input) ErrorCode.invalid_pdu 0)
      else elim (check_handle v n input) [
        | refused answer ↦ (s, answer)
        | passed (handle, index) ↦
            let r = access_at v index (write_access [] 0) nobody s.values in
            let s1 : AttState S = record s { values = r.values } in
            if r.result == success then enqueue_write size n input handle c s1 else (
              s1,
              error_response n (opcode_of input)
                  (access_result_to_att_code r.result ErrorCode.write_not_permitted) handle,
            )
      ]

  unfoldable pub handle_prepair_write_request : ℕ → List ℕ → Link → AttState S → AttState S × List ℕ
  handle_prepair_write_request n input c s = elim v.write_queue_size [
    | none ↦ (s, error_response n (opcode_of input) ErrorCode.request_not_supported 0)
    | some size ↦ prepare_write size n input c s
  ]

  -- A prepared write: its handle, its offset, and what is written.
  unfoldable pub write_element : List ℕ → Caller → Values S → Accessed S
  write_element element who values =
      access_at v (index_of (index_by_handle v (read_two element 0)))
        (write_access (drop 4 element) (read_two element 2)) who values

  -- The loop over the queue, with fuel; with the handle and the result of a write that failed.
  unfoldable pub execute_writes :
      ℕ → WriteQueue → Option (ℕ × ℕ) → Caller → Values S → Values S × Option (ℕ × ℕ)
  execute_writes fuel q none who values = (values, none)
  execute_writes zero q (some place) who values = (values, none)
  execute_writes (suc fuel) q (some (place, size)) who values =
      let element : List ℕ = bytes_at q.buffer place size in
      let r = write_element element who values in
      let rest = execute_writes fuel q (next_write_queue_element q place) who r.values in
      if r.result == success then rest else (r.values, some (read_two element 0, r.result))

  -- An element has at least the two bytes of its size, so that `buffer_end` is enough fuel.
  unfoldable pub handle_execute_write_request : ℕ → List ℕ → Link → AttState S → AttState S × List ℕ
  handle_execute_write_request n input c s =
      let flag : ℕ = get_or input 1 0 in
      let freed : WriteQueue = free_write_queue s.write_queue c.client_id in
      if is_none v.write_queue_size
      then (s, error_response n (opcode_of input) ErrorCode.request_not_supported 0)
      else if not (length input == 2) || not ((flag == 0) || (flag == 1))
      then (s, error_response n (opcode_of input) ErrorCode.invalid_pdu 0)
      else if flag == 0
      then (record s { write_queue = freed }, 25 ∷ [])
      else end_execution n (opcode_of input) freed s (
          execute_writes s.write_queue.buffer_end s.write_queue
            (first_write_queue_element s.write_queue c.client_id) (of_client c.security) s.values)
