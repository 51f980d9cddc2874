-- ===== src/Gatt/LongWrite.antt =====
-- bluetoe/server.hpp: a long write, which is prepared in parts and then executed.
use bluetoe.Shared.{
  ℕ, ◌^◌, ◌<◌, ◌≤◌, ◌≡◌, refl, sym, subst, false, inl, inr, Option, none, some, List, [], ◌∷◌, ◌++◌,
  ◌==◌, if◌then◌else◌, if-elim, ltb, length, drop, get_or,
}
use bluetoe.Gatt.{
  Values, write_access, success, Server, AttState, Link, of_client, nobody, access_at,
}
use bluetoe.Gatt.ErrorCode
use bluetoe.Gatt.Checks.{Checked, passed, refused, check_handle, error_response, opcode_of}
use bluetoe.Gatt.Writes.{
  enqueue_write, prepare_write, handle_prepair_write_request, handle_execute_write_request,
}
use bluetoe.Gatt.Answers.{IsRefused, check_handle-IsRefused}
use bluetoe.Gatt.Prepared.{HasPrepared, write_all}
use bluetoe.Gatt.Preparation.{IsEnqueued, enqueue_write-IsEnqueued}
use bluetoe.Gatt.Execution.{execution_answer, handle_execute_write_request-HasPrepared}

error_head :
    (n opcode code handle : ℕ) → (get_or (error_response n opcode code handle) 0 0 == 23) ≡ false
unfolding error_response
error_head n opcode code handle =
    if-elim (λ (x : List ℕ). (get_or x 0 0 == 23) ≡ false) (ltb n 5) (λ t. refl) (λ f. refl)

-- What is prepared after an answer: a response says that the write is.
abbrev pub with_prepared : List (List ℕ) → List ℕ → List ℕ → List (List ℕ)
with_prepared es input answer = if get_or answer 0 0 == 23 then es ++ drop 1 input ∷ [] else es

module _ {ℓ} {S : Type ℓ} (v : Server S) (size n : ℕ) (c : Link) where
  -- A result of a prepare write request after which the queue holds what the answer says.
  abbrev pub Prepares : List ℕ → List (List ℕ) → AttState S × List ℕ → Type 0
  Prepares input es r = HasPrepared size r.0.write_queue c.client_id (with_prepared es input r.1)

  error-Prepares :
      (input : List ℕ) (es : List (List ℕ)) (s : AttState S) (opcode code handle : ℕ)
      → HasPrepared size s.write_queue c.client_id es
      → Prepares input es (s, error_response n opcode code handle)
  error-Prepares input es s opcode code handle h = rw (error_head n opcode code handle) h

  checked-Prepares :
      (input : List ℕ) (es : List (List ℕ)) (check : Checked (ℕ × ℕ)) (s : AttState S)
      (next : ℕ × ℕ → AttState S × List ℕ)
      → HasPrepared size s.write_queue c.client_id es
      → IsRefused n (opcode_of input) check
      → ((a : ℕ × ℕ) → Prepares input es (next a))
      → Prepares input es (elim check as (λ c. AttState S × List ℕ) [
        | refused answer ↦ (s, answer)
        | passed a ↦ next a
      ])
  checked-Prepares input es (passed a) s next h r g = g a
  checked-Prepares input es (refused answer) s next h (code, (handle, e)) g =
      subst (λ answer. Prepares input es (s, answer)) (sym e)
        (error-Prepares input es s (opcode_of input) code handle h)

  enqueued-Prepares :
      (input : List ℕ) (es : List (List ℕ)) (handle : ℕ) (s : AttState S) (r : AttState S × List ℕ)
      → IsEnqueued size n input handle c es s r
      → Prepares input es r
  enqueued-Prepares input es handle s (s', answer) (inl (room, e, h)) = rw e h
  enqueued-Prepares input es handle s (s', answer) (inr (full, e, h)) =
      rw (e, error_head n (opcode_of input) ErrorCode.prepare_queue_full handle) h

  -- Several requests, one after the other, and what they have prepared.
  abbrev pub prepare_all : List (List ℕ) → List (List ℕ) → AttState S → AttState S × List (List ℕ)
  prepare_all [] es s = (s, es)
  prepare_all (input ∷ inputs) es s =
      let (s', answer) = handle_prepair_write_request v n input c s in
      prepare_all inputs (with_prepared es input answer) s'

  module _ (small : size < 2 ^ 16) (room : 5 ≤ n) (queue : v.write_queue_size ≡ some size) where
    handle_prepair_write_request-Prepares :
        (input : List ℕ) (es : List (List ℕ)) (s : AttState S)
        → HasPrepared size s.write_queue c.client_id es
        → Prepares input es (handle_prepair_write_request v n input c s)
    unfolding handle_prepair_write_request prepare_write
    handle_prepair_write_request-Prepares input es s h =
        subst
          (λ (o : Option ℕ). Prepares input es (elim o as (λ o. AttState S × List ℕ) [
            | none ↦ (s, error_response n (opcode_of input) ErrorCode.request_not_supported 0)
            | some size ↦ prepare_write v size n input c s
          ]))
          (sym queue)
          (if-elim (Prepares input es) (ltb (length input) 5)
            (λ t. error-Prepares input es s (opcode_of input) ErrorCode.invalid_pdu 0 h)
            (λ f.
              checked-Prepares input es (check_handle v n input) s _ h
                (check_handle-IsRefused v n input)
                (λ a.
                  let r = access_at v a.1 (write_access [] 0) nobody s.values in
                  let s1 : AttState S = record s { values = r.values } in
                  if-elim (Prepares input es) (r.result == success)
                    (λ t.
                      enqueued-Prepares input es a.0 s1 (enqueue_write size n input a.0 c s1)
                        (enqueue_write-IsEnqueued size n input a.0 c s1 es small h))
                    (λ f. error-Prepares input es s1 (opcode_of input) _ a.0 h))))

    prepare_all-HasPrepared :
        (inputs es : List (List ℕ)) (s : AttState S)
        → HasPrepared size s.write_queue c.client_id es
        → HasPrepared size
            (prepare_all inputs es s).0.write_queue
            c.client_id
            (prepare_all inputs es s).1
    prepare_all-HasPrepared [] es s h = h
    prepare_all-HasPrepared (input ∷ inputs) es s h =
        prepare_all-HasPrepared inputs _ _ (handle_prepair_write_request-Prepares input es s h)

    -- With a write queue of less than 2^16 bytes that holds nothing and room for five bytes of an
    -- answer, after any prepare write requests of a client its execution writes exactly those
    -- parts, in their order, that were answered by a response, each to the attribute with its
    -- handle at its own offset, up to the first one that the attribute refuses; the answer is the
    -- response or an error response with the handle of the refused part and error 13 if this was
    -- the result, else 7; a cancellation changes no value, and both leave the queue empty.
    pub long_write :
        (inputs : List (List ℕ)) (s : AttState S)
        → HasPrepared size s.write_queue c.client_id []
        → let prepared : AttState S × List (List ℕ) = prepare_all inputs [] s in
          let done : Values S × Option (ℕ × ℕ) =
            write_all v prepared.1 (of_client c.security) prepared.0.values in
          let executed : AttState S × List ℕ =
            handle_execute_write_request v n (24 ∷ 1 ∷ []) c prepared.0 in
          let canceled : AttState S × List ℕ =
            handle_execute_write_request v n (24 ∷ 0 ∷ []) c prepared.0 in
          (executed.0.values ≡ done.0)
          × (executed.1 ≡ execution_answer done.1)
          × HasPrepared size executed.0.write_queue c.client_id []
          × (canceled.0.values ≡ prepared.0.values)
          × (canceled.1 ≡ 25 ∷ [])
          × HasPrepared size canceled.0.write_queue c.client_id []
    long_write inputs s h =
        let (prepared, es) = prepare_all inputs [] s in
        handle_execute_write_request-HasPrepared v size c prepared n es room queue
          (prepare_all-HasPrepared inputs [] s h)
