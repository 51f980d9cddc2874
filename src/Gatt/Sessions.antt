-- ===== src/Gatt/Sessions.antt =====
-- bluetoe/server.hpp: what holds in all states that a connection can reach by requests.
use bluetoe.Shared.{
  ℕ, ◌-◌, ◌≤◌, arith, min, not, ◌||◌, Option, none, some, List, [], ◌∷◌, ◌==◌, if-elim, option-elim,
  ltb, length, get_or,
}
use bluetoe.L2cap.{read_two}
use bluetoe.NotificationQueue.{is_none}
use bluetoe.WriteQueue.{
  WriteQueue, free_write_queue, allocate_from_write_queue, first_write_queue_element,
}
use bluetoe.Gatt.{
  write_access, Values, Server, AttState, Link, of_client, nobody, success, negotiated_mtu,
  default_att_mtu_size, access_at,
}
use bluetoe.Gatt.Checks.{Checked, passed, refused, opcode_of, check_handle}
use bluetoe.Gatt.Writes.{
  fill_element, enqueue_write, prepare_write, handle_prepair_write_request, execute_writes,
  end_execution, handle_execute_write_request,
}
use bluetoe.Gatt.Requests.{
  Request, request_of, handle_request, handle_exchange_mtu_request, handle_value_confirmation,
  server_input, error, exchange_mtu, find_information, find_by_type_value, read_by_type, read,
  read_blob, read_multiple, read_by_group_type, write, write_command, execute_write, confirmation,
  unknown_request,
}

module _ {ℓ} {S : Type ℓ} (v : Server S) where
  -- A session: requests one after the other, each with an output buffer of size `n`.
  abbrev pub run_session : ℕ → Link → List (List ℕ) → AttState S → AttState S
  run_session n c [] s = s
  run_session n c (input ∷ inputs) s = run_session n c inputs (server_input v n input c s).0

  -- The client's MTU is not below the default.
  abbrev pub HasMtu : AttState S → Type 0
  HasMtu s = default_att_mtu_size ≤ s.client_mtu

  module _ (n : ℕ) (input : List ℕ) (s : AttState S) (h : HasMtu s) where
    exchange-HasMtu : HasMtu (handle_exchange_mtu_request v n input s).0
    unfolding handle_exchange_mtu_request
    exchange-HasMtu =
        let P = λ (x : AttState S × List ℕ). HasMtu x.0 in
        if-elim P (not (length input == 3)) (λ t. h)
          (λ f.
            if-elim P (ltb (read_two input 1) default_att_mtu_size) (λ t. h) (λ f. ground arith))

    confirmation-HasMtu : HasMtu (handle_value_confirmation n input s).0
    unfolding handle_value_confirmation
    confirmation-HasMtu =
        let P = λ (x : AttState S × List ℕ). HasMtu x.0 in
        if-elim P (not (length input == 1)) (λ t. h)
          (λ f. if-elim P s.has_callback (λ t. h) (λ f. h))

    execute-HasMtu : (c : Link) → HasMtu (handle_execute_write_request v n input c s).0
    unfolding handle_execute_write_request
    execute-HasMtu c =
        let P = λ (x : AttState S × List ℕ). HasMtu x.0 in
        let flag : ℕ = get_or input 1 0 in
        if-elim P (is_none v.write_queue_size) (λ t. h)
          (λ f.
            if-elim P (not (length input == 2) || not ((flag == 0) || (flag == 1))) (λ t. h)
              (λ f.
                if-elim P (flag == 0) (λ t. h)
                  (λ f. ended (free_write_queue s.write_queue c.client_id) (
                    execute_writes v s.write_queue.buffer_end s.write_queue
                      (first_write_queue_element s.write_queue c.client_id) (of_client c.security)
                      s.values))))
      where
        ended :
            (freed : WriteQueue) (r : Values S × Option (ℕ × ℕ))
            → HasMtu (end_execution n (opcode_of input) freed s r).0
        ended freed (values, none) = h
        ended freed (values, some failure) = h

  enqueue-HasMtu :
      (size n : ℕ) (input : List ℕ) (handle : ℕ) (c : Link) (s : AttState S)
      → HasMtu s
      → HasMtu (enqueue_write size n input handle c s).0
  unfolding enqueue_write
  enqueue-HasMtu size n input handle c s h =
      filled (allocate_from_write_queue size s.write_queue (length input - 1) c.client_id)
    where
      filled : (r : WriteQueue × Option ℕ) → HasMtu (fill_element n input handle s r).0
      filled (q, none) = h
      filled (q, some place) = h

  -- What a check lets through.
  checked-HasMtu :
      (check : Checked (ℕ × ℕ)) (s : AttState S) (next : ℕ × ℕ → AttState S × List ℕ)
      → HasMtu s
      → ((a : ℕ × ℕ) → HasMtu (next a).0)
      → HasMtu
          (elim check as (λ c. AttState S × List ℕ) [
            | refused answer ↦ (s, answer)
            | passed a ↦ next a
          ]).0
  checked-HasMtu (passed a) s next h g = g a
  checked-HasMtu (refused answer) s next h g = h

  prepare-HasMtu :
      (n : ℕ) (input : List ℕ) (c : Link) (s : AttState S)
      → HasMtu s
      → HasMtu (handle_prepair_write_request v n input c s).0
  unfolding handle_prepair_write_request prepare_write
  prepare-HasMtu n input c s h =
      let P = λ (x : AttState S × List ℕ). HasMtu x.0 in
      option-elim P v.write_queue_size h (λ size e.
        if-elim P (ltb (length input) 5) (λ t. h)
          (λ f. checked-HasMtu (check_handle v n input) s _ h (λ a.
            let r = access_at v a.1 (write_access [] 0) nobody s.values in
            if-elim P (r.result == success)
              (λ t. enqueue-HasMtu size n input a.0 c (record s { values = r.values }) h)
              (λ f. h))))

  handle_request-HasMtu :
      (r : Request) (n : ℕ) (input : List ℕ) (c : Link) (s : AttState S)
      → HasMtu s
      → HasMtu (handle_request v r n input c s).0
  handle_request-HasMtu error n input c s h = h
  handle_request-HasMtu exchange_mtu n input c s h = exchange-HasMtu n input s h
  handle_request-HasMtu find_information n input c s h = h
  handle_request-HasMtu find_by_type_value n input c s h = h
  handle_request-HasMtu read_by_type n input c s h = h
  handle_request-HasMtu read n input c s h = h
  handle_request-HasMtu read_blob n input c s h = h
  handle_request-HasMtu read_multiple n input c s h = h
  handle_request-HasMtu read_by_group_type n input c s h = h
  handle_request-HasMtu write n input c s h = h
  handle_request-HasMtu write_command n input c s h = h
  handle_request-HasMtu Request.prepare_write n input c s h = prepare-HasMtu n input c s h
  handle_request-HasMtu execute_write n input c s h = execute-HasMtu n input s h c
  handle_request-HasMtu confirmation n input c s h = confirmation-HasMtu n input s h
  handle_request-HasMtu unknown_request n input c s h = h

  session-HasMtu :
      (n : ℕ) (c : Link) (inputs : List (List ℕ)) (s : AttState S)
      → HasMtu s
      → HasMtu (run_session n c inputs s)
  unfolding server_input
  session-HasMtu n c [] s h = h
  session-HasMtu n c (input ∷ inputs) s h = session-HasMtu n c inputs _ (
      handle_request-HasMtu (request_of (opcode_of input)) (min n (negotiated_mtu v s)) input c s h)

  -- If the server's MTU, the client's and the output buffer are at least 23, then after any
  -- sequence of requests l2cap_input may assert that its output is at least 23 bytes.
  pub session-mtu :
      (n : ℕ) (c : Link) (inputs : List (List ℕ)) (s : AttState S)
      → default_att_mtu_size ≤ n
      → default_att_mtu_size ≤ v.server_mtu
      → default_att_mtu_size ≤ s.client_mtu
      → default_att_mtu_size ≤ min n (negotiated_mtu v (run_session n c inputs s))
  unfolding negotiated_mtu
  session-mtu n c inputs s large server client =
      let kept : default_att_mtu_size ≤ (run_session n c inputs s).client_mtu =
        session-HasMtu n c inputs s client in
      omega arith
