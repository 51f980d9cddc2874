-- ===== src/Gatt/Tests.antt =====
-- Runs of bluetoe/server.hpp, and the theorems on them. The server has a service with one characteristic, which can be written
-- and notified of.
use bluetoe.Shared.{
  leb, ◌&&◌, ℕ, ◌-◌, ◌/◌, ◌≤◌, ◌≡◌, refl, arith, min, true, false, Option, none, some, List, [],
  ◌∷◌, ◌==◌, if◌then◌else◌, if-elim, length, take,
}
use bluetoe.HandleMapping.{
  no_handles, ServiceLayout, handle_by_index, first_index_by_handle, service_handle_by_index,
  characteristic_handle_by_index, attribute_handle_by_index,
  characteristic_attribute_handle_by_index, service_first_index_by_handle, service_end_handle,
  last_characteristic_end_handle, characteristic_end_handle, characteristic_first_index_by_handle,
  attribute_index_by_handle, characteristic_attribute_index_by_handle,
}
use bluetoe.HandleMapping.Services.{AreLaidOut, of_services, services-IsMapping}
use bluetoe.NotificationQueue.{
  empty, notification, single, dequeue_indication_or_confirmation, dequeue_levels, then_lower,
  dequeue_single,
}
use bluetoe.ClientConfiguration.{flags}
use bluetoe.WriteQueue.{empty_queue}
use bluetoe.Gatt.{
  Access, read_access, write_access, compare_128bit_uuid, compare_value, Caller, Values, Accessed,
  Attribute, Server, AttState, Link, success, default_security, default_att_mtu_size,
  negotiated_mtu, of_client, nobody, index_of,
}
use bluetoe.Gatt.Checks.{check_size_and_handle_range}
use bluetoe.Gatt.Reads.{handle_read_blob_request}
use bluetoe.Gatt.Ranges.{range_of_handles}
use bluetoe.Gatt.Discovery.{up_to, ending_index, is_16bit_uuid, handle_find_information_request}
use bluetoe.Gatt.Requests.{server_input, server_output, send_dequeued, send_value}
use bluetoe.Gatt.BoundValue.{
  value_attribute, value_attribute-IsBounded, attribute_value_read_access,
  attribute_value_read_only_access, read_memory,
}
use bluetoe.Gatt.Answers.{IsBounded}
use bluetoe.Gatt.Answers.Any.{MayAnswer, server_input-IsAnswerTo}
use bluetoe.Gatt.Sessions.{run_session, session-mtu}
use bluetoe.Gatt.Writes.{handle_execute_write_request}
use bluetoe.Gatt.Prepared.{HasPrepared, write_all}
use bluetoe.Gatt.Execution.{execution_answer}
use bluetoe.Gatt.LongWrite.{prepare_all, long_write}
use bluetoe.Gatt.Information.{
  IsDeclared, listed, all_information, tuple_size, handle_find_information_request-listed,
}
use bluetoe.Gatt.LongRead.{read_long, read_long_lem}
use bluetoe.Gatt.Notification.{IsOutput, server_output-IsOutput}

-- The value of the characteristic is the state of the application; it is written as a whole.
abbrev value_access : Access → Caller → ℕ → Values (List ℕ) → Accessed (List ℕ)
value_access (read_access size offset) who index values =
    (value_attribute values.application 10496).access (read_access size offset) who index values
value_access (write_access bytes offset) who index values = record {
  result = if offset == 0 then success else 7;
  bytes = [];
  values = record values { application = bytes };
}
value_access (compare_128bit_uuid bytes) who index values = record {
  result = 3;
  bytes = [];
  values = values;
}
value_access (compare_value bytes) who index values = record {
  result = 2;
  bytes = [];
  values = values;
}

abbrev service_uuid : List ℕ
service_uuid = 15 ∷ 24 ∷ []

abbrev declaration : List ℕ
declaration = 18 ∷ 3 ∷ 0 ∷ 25 ∷ 42 ∷ []

abbrev test_attribute : ℕ → Attribute (List ℕ)
test_attribute i =
    if i == 0
    then value_attribute service_uuid 10240
    else if i == 1
    then value_attribute declaration 10243
    else if i == 2
    then record { uuid = 10777; access = value_access }
    else value_attribute (0 ∷ 0 ∷ []) 10498

abbrev layout : List ServiceLayout
layout =
    record {
      service_handle_option = none;
      number_of_service_attributes = 1;
      characteristics = record { handle_option = no_handles; number_of_attributes = 3 } ∷ [];
    }
    ∷ []

abbrev server : Server (List ℕ)
server = record {
  attribute_at = test_attribute;
  number_of_all_attributes = 4;
  services = record { number_of_attributes = 4; is_128bit = false } ∷ [];
  handle_by_index = handle_by_index layout;
  first_index_by_handle = first_index_by_handle layout;
  server_mtu = 64;
  write_queue_size = some 64;
  attribute_table_index = λ i. 2;
  client_characteristic_configuration_index = λ i. 0;
}

abbrev device : Link
device = record { client_id = 7; security = default_security }

-- The client has enabled notifications.
abbrev state : AttState (List ℕ)
state = record {
  values = record { application = 1 ∷ 2 ∷ 3 ∷ 4 ∷ 5 ∷ []; configurations = λ p. 1 };
  client_mtu = 23;
  notifications = record {
    levels = single notification ∷ [];
    outstanding_confirmation_index = none;
  };
  write_queue = empty_queue (λ p. 0);
  has_callback = true;
}

server-IsBounded : (i : ℕ) → IsBounded (server.attribute_at i)
server-IsBounded i =
    if-elim IsBounded (i == 0) (λ t. value_attribute-IsBounded service_uuid 10240)
      (λ f.
        if-elim IsBounded (i == 1) (λ t. value_attribute-IsBounded declaration 10243)
          (λ f.
            if-elim IsBounded (i == 2)
              (λ t size offset index who values h.
                value_attribute-IsBounded values.application 10496 size offset index who values h)
              (λ f. value_attribute-IsBounded (0 ∷ 0 ∷ []) 10498)))

-- No attribute has a uuid of 128 bits.
server-IsDeclared : IsDeclared server
server-IsDeclared i values h = absurd (never i h)
  where
    never : (i : ℕ) → is_16bit_uuid server i ≡ false → ⊥
    never i h = ground arith

server_input-IsAnswerTo_example :
    MayAnswer 10 (server_input server 100 (10 ∷ 3 ∷ 0 ∷ []) device state).1
    × (length (server_input server 100 (10 ∷ 3 ∷ 0 ∷ []) device state).1
        ≤ min 100 (negotiated_mtu server state))
unfolding negotiated_mtu
server_input-IsAnswerTo_example =
    server_input-IsAnswerTo server server-IsBounded 100 (10 ∷ 3 ∷ 0 ∷ []) device state (omega arith)

session-mtu_example :
    default_att_mtu_size
    ≤ min 100 (
        negotiated_mtu server
          (run_session server 100 device ((2 ∷ 40 ∷ 0 ∷ []) ∷ (2 ∷ 5 ∷ 0 ∷ []) ∷ []) state))
session-mtu_example =
    session-mtu server 100 device ((2 ∷ 40 ∷ 0 ∷ []) ∷ (2 ∷ 5 ∷ 0 ∷ []) ∷ []) state (omega arith)
      (omega arith) (omega arith)

-- Two parts of a write, of which the second one is written to an offset, which the attribute refuses.
abbrev parts : List (List ℕ)
parts = (22 ∷ 3 ∷ 0 ∷ 0 ∷ 0 ∷ 8 ∷ 9 ∷ []) ∷ (22 ∷ 3 ∷ 0 ∷ 2 ∷ 0 ∷ 7 ∷ []) ∷ []

long_write_example :
    let prepared : AttState (List ℕ) × List (List ℕ) =
      prepare_all server 64 23 device parts [] state in
    let done : Values (List ℕ) × Option (ℕ × ℕ) =
      write_all server prepared.1 (of_client default_security) prepared.0.values in
    let executed : AttState (List ℕ) × List ℕ =
      handle_execute_write_request server 23 (24 ∷ 1 ∷ []) device prepared.0 in
    let canceled : AttState (List ℕ) × List ℕ =
      handle_execute_write_request server 23 (24 ∷ 0 ∷ []) device prepared.0 in
    (executed.0.values ≡ done.0)
    × (executed.1 ≡ execution_answer done.1)
    × HasPrepared 64 executed.0.write_queue 7 []
    × (canceled.0.values ≡ prepared.0.values)
    × (canceled.1 ≡ 25 ∷ [])
    × HasPrepared 64 canceled.0.write_queue 7 []
long_write_example =
    long_write server 64 23 device (omega arith) (omega arith) refl parts state
      (refl, omega arith, refl)

-- From handle 2 to handle 3.
abbrev find_request : List ℕ
find_request = 4 ∷ 2 ∷ 0 ∷ 3 ∷ 0 ∷ []

handle_find_information_request-listed_example :
    let start : ℕ = index_of (server.first_index_by_handle 2) in
    let indices : List ℕ =
      listed server (4 - start) start (ending_index server 3) (is_16bit_uuid server start) in
    handle_find_information_request server 23 find_request state.values ≡ (
      state.values,
      5
          ∷ (if is_16bit_uuid server start then 1 else 2)
          ∷ all_information server state.values
              (take ((23 - 2) / tuple_size (is_16bit_uuid server start)) indices),
    )
unfolding check_size_and_handle_range first_index_by_handle service_first_index_by_handle
    service_end_handle last_characteristic_end_handle characteristic_end_handle
    characteristic_first_index_by_handle attribute_index_by_handle
    characteristic_attribute_index_by_handle
handle_find_information_request-listed_example =
    handle_find_information_request-listed server server-IsDeclared 23 find_request state.values 2 3
      (omega arith) refl

-- Reading the declaration, three bytes at a time.
read_long_lem_example :
    read_long (λ input. (handle_read_blob_request server 4 input nobody state.values).1) 3 2 6 0
    ≡ declaration
unfolding handle_by_index first_index_by_handle service_handle_by_index
    characteristic_handle_by_index attribute_handle_by_index
    characteristic_attribute_handle_by_index service_first_index_by_handle service_end_handle
    last_characteristic_end_handle characteristic_end_handle characteristic_first_index_by_handle
    attribute_index_by_handle characteristic_attribute_index_by_handle
read_long_lem_example =
    read_long_lem server 4 2 1 10243 declaration nobody state.values 6 0 (omega arith) (omega arith)
      (omega arith) (omega arith) refl refl (omega arith) (omega arith)

abbrev after_output : AttState (List ℕ)
after_output = record state {
  notifications = record { levels = single empty ∷ []; outstanding_confirmation_index = none };
}

server_output-IsOutput_example :
    IsOutput server 23 device state after_output (27 ∷ 3 ∷ 0 ∷ 1 ∷ 2 ∷ 3 ∷ 4 ∷ 5 ∷ [])
unfolding server_output send_dequeued send_value dequeue_indication_or_confirmation dequeue_levels
    then_lower dequeue_single flags attribute_value_read_only_access attribute_value_read_access
    read_memory handle_by_index service_handle_by_index characteristic_handle_by_index
    attribute_handle_by_index characteristic_attribute_handle_by_index service_end_handle
    last_characteristic_end_handle characteristic_end_handle
server_output-IsOutput_example =
    server_output-IsOutput server server-IsBounded 23 device state after_output
      (27 ∷ 3 ∷ 0 ∷ 1 ∷ 2 ∷ 3 ∷ 4 ∷ 5 ∷ []) refl

layout-AreLaidOut : AreLaidOut 1 layout
unfolding service_end_handle last_characteristic_end_handle characteristic_end_handle
layout-AreLaidOut = ground arith

-- Index 2 stands for handle 3.
range_of_handles_example :
    (leb 1 2 && up_to (ending_index server 3) 2)
    ≡ (leb 2 (server.handle_by_index 2) && leb (server.handle_by_index 2) 3)
unfolding first_index_by_handle service_first_index_by_handle service_end_handle
    last_characteristic_end_handle characteristic_end_handle characteristic_first_index_by_handle
    attribute_index_by_handle characteristic_attribute_index_by_handle
range_of_handles_example =
    range_of_handles server (of_services 1 layout) (services-IsMapping layout layout-AreLaidOut).0 2
      3 1 2 refl (omega arith) (omega arith)
