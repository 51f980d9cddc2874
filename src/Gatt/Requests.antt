-- ===== src/Gatt/Requests.antt =====
-- bluetoe/server.hpp: the requests go to their handlers, and notifications to the client.
use bluetoe.Shared.{
  ℕ, ◌-◌, min, not, ◌&&◌, Option, List, [], ◌∷◌, ◌++◌, ◌==◌, if◌then◌else◌, ltb, length, has_flag,
  map_option,
}
use bluetoe.L2cap.{two_bytes, read_two}
use bluetoe.ClientConfiguration.{flags}
use bluetoe.NotificationQueue.{
  NotificationQueue, EntryType, empty, notification, indication, dequeue_indication_or_confirmation,
  indication_confirmed,
}
use bluetoe.WriteQueue.{free_write_queue}
use bluetoe.Gatt.{
  read_access, of_client, Values, success, Server, AttState, Link, default_att_mtu_size,
  negotiated_mtu, access_at,
}
use bluetoe.Gatt.ErrorCode
use bluetoe.Gatt.Checks.{error_response, opcode_of}
use bluetoe.Gatt.Reads.{
  handle_read_by_type_request, handle_read_request, handle_read_blob_request,
  handle_read_multiple_request,
}
use bluetoe.Gatt.Discovery.{
  handle_find_information_request, handle_find_by_type_value_request,
  handle_read_by_group_type_request,
}
use bluetoe.Gatt.Writes.{
  handle_write_request, handle_write_command, handle_prepair_write_request,
  handle_execute_write_request,
}

-- `att_opcodes`, those that a client sends.
pub data Request : Type 0 where
  error : Request
  exchange_mtu : Request
  find_information : Request
  find_by_type_value : Request
  read_by_type : Request
  read : Request
  read_blob : Request
  read_multiple : Request
  read_by_group_type : Request
  write : Request
  write_command : Request
  prepare_write : Request
  execute_write : Request
  confirmation : Request
  unknown_request : Request

unfoldable pub request_of : ℕ → Request
request_of opcode =
    if opcode == 1
    then error
    else if opcode == 2
    then exchange_mtu
    else if opcode == 4
    then find_information
    else if opcode == 6
    then find_by_type_value
    else if opcode == 8
    then read_by_type
    else if opcode == 10
    then read
    else if opcode == 12
    then read_blob
    else if opcode == 14
    then read_multiple
    else if opcode == 16
    then read_by_group_type
    else if opcode == 18
    then write
    else if opcode == 82
    then write_command
    else if opcode == 22
    then prepare_write
    else if opcode == 24
    then execute_write
    else if opcode == 30
    then confirmation
    else unknown_request

module _ {ℓ} {S : Type ℓ} where
  -- Handlers that have only to do with what is accessed.
  abbrev pub with_values : AttState S → Values S × List ℕ → AttState S × List ℕ
  with_values s (values, answer) = (record s { values = values }, answer)

  -- The L2CAP layer's callback is `link_layer::queue_lcap_notification`.
  unfoldable pub handle_value_confirmation : ℕ → List ℕ → AttState S → AttState S × List ℕ
  handle_value_confirmation n input s =
      if not (length input == 1)
      then (s, error_response n (opcode_of input) 4 0)
      else if s.has_callback
      then (record s { notifications = indication_confirmed s.notifications }, [])
      else (s, [])

  unfoldable pub client_disconnected : Link → AttState S → AttState S
  client_disconnected c s = record s { write_queue = free_write_queue s.write_queue c.client_id }

module _ {ℓ} {S : Type ℓ} (v : Server S) where
  unfoldable pub handle_exchange_mtu_request : ℕ → List ℕ → AttState S → AttState S × List ℕ
  handle_exchange_mtu_request n input s =
      let mtu : ℕ = read_two input 1 in
      if not (length input == 3)
      then (s, error_response n (opcode_of input) ErrorCode.invalid_pdu 0)
      else if ltb mtu default_att_mtu_size
      then (s, error_response n (opcode_of input) ErrorCode.invalid_pdu 0)
      else (record s { client_mtu = mtu }, 3 ∷ two_bytes v.server_mtu)

  abbrev pub handle_request : Request → ℕ → List ℕ → Link → AttState S → AttState S × List ℕ
  handle_request error n input c s = (s, [])
  handle_request exchange_mtu n input c s = handle_exchange_mtu_request n input s
  handle_request find_information n input c s =
      with_values s (handle_find_information_request v n input s.values)
  handle_request find_by_type_value n input c s =
      with_values s (handle_find_by_type_value_request v n input s.values)
  handle_request read_by_type n input c s =
      with_values s (handle_read_by_type_request v n input (of_client c.security) s.values)
  handle_request read n input c s =
      with_values s (handle_read_request v n input (of_client c.security) s.values)
  handle_request read_blob n input c s =
      with_values s (handle_read_blob_request v n input (of_client c.security) s.values)
  handle_request read_multiple n input c s =
      with_values s (handle_read_multiple_request v n input (of_client c.security) s.values)
  handle_request read_by_group_type n input c s =
      with_values s (handle_read_by_group_type_request v n input s.values)
  handle_request write n input c s =
      with_values s (handle_write_request v n input (of_client c.security) s.values)
  handle_request write_command n input c s =
      with_values s (handle_write_command v n input (of_client c.security) s.values)
  handle_request prepare_write n input c s = handle_prepair_write_request v n input c s
  handle_request execute_write n input c s = handle_execute_write_request v n input c s
  handle_request confirmation n input c s = handle_value_confirmation n input s
  handle_request unknown_request n input c s =
      (s, error_response n (opcode_of input) ErrorCode.request_not_supported 0)

  -- `l2cap_input`, with an output buffer of size `n`. The input is not empty, and the buffer and the MTU are large enough, as
  -- it asserts.
  unfoldable pub server_input : ℕ → List ℕ → Link → AttState S → AttState S × List ℕ
  server_input n input c s =
      handle_request (request_of (opcode_of input)) (min n (negotiated_mtu v s)) input c s

  -- The value of a characteristic is sent, if the client has asked for it.
  unfoldable pub send_value : ℕ → ℕ → ℕ → ℕ → Link → AttState S → AttState S × List ℕ
  send_value required_flag opcode index n c s =
      let attribute : ℕ = v.attribute_table_index index in
      let r = access_at v attribute (read_access (n - 3) 0) (of_client c.security) s.values in
      if has_flag required_flag
          (flags s.values.configurations (v.client_characteristic_configuration_index index))
        && not (ltb n 3)
      then (
        record s { values = r.values },
        if r.result == success
            then opcode ∷ (two_bytes (v.handle_by_index attribute) ++ r.bytes)
            else [],
      )
      else (s, [])

  unfoldable pub send_dequeued :
      ℕ → Link → AttState S → (EntryType × ℕ) × NotificationQueue → AttState S × List ℕ
  send_dequeued n c s ((empty, index), q) = (record s { notifications = q }, [])
  send_dequeued n c s ((notification, index), q) =
      send_value 1 27 index n c (record s { notifications = q })
  send_dequeued n c s ((indication, index), q) =
      send_value 2 29 index n c (record s { notifications = q })

  -- `l2cap_output`, if the loops of the notification queue end, as they do.
  unfoldable pub server_output : ℕ → Link → AttState S → Option (AttState S × List ℕ)
  server_output n c s =
      map_option (send_dequeued n c s) (dequeue_indication_or_confirmation s.notifications)
