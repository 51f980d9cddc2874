-- ===== src/Gatt/Answers/Writing.antt =====
-- bluetoe/server.hpp: the answers to writes, to the exchange of the MTU, and to any request.
use bluetoe.Shared.{
  ℕ, ◌-◌, ◌≤◌, ◌≡◌, refl, ◌⊎◌, arith, min, not, ◌||◌, inl, inr, Option, none, some, List, [], ◌==◌,
  if-elim, option-elim, ltb, length, drop, get_or,
}
use bluetoe.L2cap.{read_two}
use bluetoe.NotificationQueue.{is_none}
use bluetoe.WriteQueue.{
  WriteQueue, allocate_from_write_queue, free_write_queue, first_write_queue_element,
}
use bluetoe.Gatt.{
  write_access, Caller, of_client, nobody, Values, success, Server, AttState, Link, access_at,
  default_att_mtu_size,
}
use bluetoe.Gatt.Checks.{opcode_of, check_handle}
use bluetoe.Gatt.Writes.{
  handle_write_request, fill_element, enqueue_write, prepare_write, handle_prepair_write_request,
  execute_writes, end_execution, handle_execute_write_request,
}
use bluetoe.Gatt.Requests.{handle_exchange_mtu_request, handle_value_confirmation}
use bluetoe.Gatt.Answers.{
  IsError, IsAnswer, IsAnswer-error, IsAnswer-response, after_check, check_handle-IsRefused,
  length-take,
}

module _ {ℓ} {S : Type ℓ} (v : Server S) (n : ℕ) (room : 3 ≤ n) (input : List ℕ) where
  pub handle_write_request-IsAnswer :
      (who : Caller) (values : Values S)
      → IsAnswer n (opcode_of input) 19 (handle_write_request v n input who values).1
  unfolding handle_write_request
  handle_write_request-IsAnswer who values =
      if-elim (λ (x : Values S × List ℕ). IsAnswer n (opcode_of input) 19 x.1)
        (ltb (length input) 3) (λ t. IsAnswer-error n (opcode_of input) 19 _ _)
        (λ f.
          after_check n (opcode_of input) 19 (check_handle v n input) values _
            (check_handle-IsRefused v n input)
            (λ a.
              let r = access_at v a.1 (write_access (drop 3 input) 0) who values in
              if-elim (IsAnswer n (opcode_of input) 19) (r.result == success)
                (λ t. IsAnswer-response n (opcode_of input) 19 [] (omega arith))
                (λ f. IsAnswer-error n (opcode_of input) 19 _ _)))

  enqueue_write-IsAnswer :
      (size handle : ℕ) (c : Link) (s : AttState S)
      → 1 ≤ length input
      → IsAnswer n (opcode_of input) 23 (enqueue_write size n input handle c s).1
  unfolding enqueue_write
  enqueue_write-IsAnswer size handle c s h =
      filled s (allocate_from_write_queue size s.write_queue (length input - 1) c.client_id)
    where
      filled :
          (s : AttState S) (r : WriteQueue × Option ℕ)
          → IsAnswer n (opcode_of input) 23 (fill_element n input handle s r).1
      filled s (q, none) = IsAnswer-error n (opcode_of input) 23 _ _
      filled s (q, some place) =
          let l = length-take (min n (length input) - 1) (drop 1 input) in
          IsAnswer-response n (opcode_of input) 23 _ (omega (arith, l.0))

  pub handle_prepair_write_request-IsAnswer :
      (c : Link) (s : AttState S)
      → IsAnswer n (opcode_of input) 23 (handle_prepair_write_request v n input c s).1
  unfolding handle_prepair_write_request prepare_write
  handle_prepair_write_request-IsAnswer c s =
      let P = λ (x : AttState S × List ℕ). IsAnswer n (opcode_of input) 23 x.1 in
      option-elim P v.write_queue_size (IsAnswer-error n (opcode_of input) 23 _ _) (λ size e.
        if-elim P (ltb (length input) 5) (λ t. IsAnswer-error n (opcode_of input) 23 _ _)
          (λ f.
            after_check n (opcode_of input) 23 (check_handle v n input) s _
              (check_handle-IsRefused v n input)
              (λ a.
                let r = access_at v a.1 (write_access [] 0) nobody s.values in
                if-elim P (r.result == success)
                  (λ t.
                    enqueue_write-IsAnswer size a.0 c (record s { values = r.values })
                      (ground arith))
                  (λ f. IsAnswer-error n (opcode_of input) 23 _ _))))

  pub handle_execute_write_request-IsAnswer :
      (c : Link) (s : AttState S)
      → IsAnswer n (opcode_of input) 25 (handle_execute_write_request v n input c s).1
  unfolding handle_execute_write_request
  handle_execute_write_request-IsAnswer c s =
      let P = λ (x : AttState S × List ℕ). IsAnswer n (opcode_of input) 25 x.1 in
      let flag : ℕ = get_or input 1 0 in
      if-elim P (is_none v.write_queue_size) (λ t. IsAnswer-error n (opcode_of input) 25 _ _)
        (λ f.
          if-elim P (not (length input == 2) || not ((flag == 0) || (flag == 1)))
            (λ t. IsAnswer-error n (opcode_of input) 25 _ _)
            (λ f.
              if-elim P (flag == 0) (λ t. IsAnswer-response n (opcode_of input) 25 [] (omega arith))
                (λ f. ended (free_write_queue s.write_queue c.client_id) s (
                  execute_writes v s.write_queue.buffer_end s.write_queue
                    (first_write_queue_element s.write_queue c.client_id) (of_client c.security)
                    s.values))))
    where
      ended :
          (freed : WriteQueue) (s : AttState S) (r : Values S × Option (ℕ × ℕ))
          → IsAnswer n (opcode_of input) 25 (end_execution n (opcode_of input) freed s r).1
      ended freed s (values, none) = IsAnswer-response n (opcode_of input) 25 [] (omega arith)
      ended freed s (values, some failure) = IsAnswer-error n (opcode_of input) 25 _ _

  pub handle_exchange_mtu_request-IsAnswer :
      (s : AttState S) → IsAnswer n (opcode_of input) 3 (handle_exchange_mtu_request v n input s).1
  unfolding handle_exchange_mtu_request
  handle_exchange_mtu_request-IsAnswer s =
      let P = λ (x : AttState S × List ℕ). IsAnswer n (opcode_of input) 3 x.1 in
      if-elim P (not (length input == 3)) (λ t. IsAnswer-error n (opcode_of input) 3 _ _)
        (λ f.
          if-elim P (ltb (read_two input 1) default_att_mtu_size)
            (λ t. IsAnswer-error n (opcode_of input) 3 _ _)
            (λ f. IsAnswer-response n (opcode_of input) 3 _ (omega arith)))

  pub handle_value_confirmation-IsError :
      (s : AttState S)
      → ((handle_value_confirmation n input s).1 ≡ [])
        ⊎ IsError n (opcode_of input) (handle_value_confirmation n input s).1
  unfolding handle_value_confirmation
  handle_value_confirmation-IsError s =
      let P = λ (x : AttState S × List ℕ). (x.1 ≡ []) ⊎ IsError n (opcode_of input) x.1 in
      if-elim P (not (length input == 1)) (λ t. inr (4, (0, refl)))
        (λ f. if-elim P s.has_callback (λ t. inl refl) (λ f. inl refl))
