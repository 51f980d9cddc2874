-- ===== src/Gatt/Discovery.antt =====
-- bluetoe/server.hpp: the discovery of attributes and of services; bluetoe/service.hpp: the entry of a service.
use bluetoe.Shared.{
  ℕ, zero, suc, ◌+◌, ◌-◌, ◌%◌, Bool, true, false, not, ◌&&◌, ◌||◌, Option, none, some, List, [],
  ◌∷◌, ◌++◌, ◌==◌, if◌then◌else◌, leb, same, length, drop, take,
}
use bluetoe.L2cap.{two_bytes, read_two}
use bluetoe.Gatt.{
  read_access, compare_value, nobody, Values, success, value_equal, Service, Server,
  primary_service, internal_128bit_uuid, index_of,
}
use bluetoe.Gatt.ErrorCode
use bluetoe.Gatt.Checks.{error_response, opcode_of, passed, refused, check_size_and_handle_range}

-- `--ending_index`: before the first index comes `invalid_attribute_index`.
abbrev pub previous_index : Option ℕ → Option ℕ
previous_index none = none
previous_index (some zero) = none
previous_index (some (suc i)) = some i

-- `index <= end || end == invalid_attribute_index`
abbrev pub up_to : Option ℕ → ℕ → Bool
up_to none index = true
up_to (some end) index = leb index end

abbrev pub entry_size : Bool → ℕ
entry_size is_128bit = if is_128bit then 16 + 4 else 2 + 4

-- `collect_primary_services`: whether it has stopped, whether no service was taken yet, and the size of the uuids then.
pub record Collecting : Type 0 where
  pub stopped : Bool
  pub first : Bool
  pub is_128bit_uuid : Bool
  pub attribute_data_size : ℕ
  pub entries : List ℕ

abbrev pub start_collecting : Collecting
start_collecting = record {
  stopped = false;
  first = true;
  is_128bit_uuid = true;
  attribute_data_size = 0;
  entries = [];
}

unfoldable pub select_size : Service → Collecting → Collecting
select_size service c =
    if c.first
    then record c {
      is_128bit_uuid = service.is_128bit;
      first = false;
      attribute_data_size = entry_size service.is_128bit;
    }
    else record c { stopped = c.stopped || not (same c.is_128bit_uuid service.is_128bit) }

module _ {ℓ} {S : Type ℓ} (v : Server S) where
  abbrev pub is_16bit_uuid : ℕ → Bool
  is_16bit_uuid index = not ((v.attribute_at index).uuid == internal_128bit_uuid)

  -- The last index up to an ending handle.
  unfoldable pub ending_index : ℕ → Option ℕ
  ending_index ending_handle = elim (v.first_index_by_handle ending_handle) [
    | none ↦ none
    | some i ↦ if v.handle_by_index i == ending_handle then some i else previous_index (some i)
  ]

  -- The uuid of a value stands in the declaration of the characteristic, in front of it.
  unfoldable pub handle_uuid_tuple : ℕ → Values S → Values S × List ℕ
  handle_uuid_tuple index values =
      let r = (v.attribute_at (index - 1)).access (read_access 19 0) nobody 1 values in
      if is_16bit_uuid index
      then (values, two_bytes (v.handle_by_index index) ++ two_bytes (v.attribute_at index).uuid)
      else (r.values, two_bytes (v.handle_by_index index) ++ take 16 (drop 3 r.bytes))

  -- The loop, for the number of attributes that are left, and with so much room.
  unfoldable pub collect_handle_uuid_tuples :
      ℕ → ℕ → Option ℕ → Bool → ℕ → Values S → Values S × List ℕ
  collect_handle_uuid_tuples zero start end only_16_bit room values = (values, [])
  collect_handle_uuid_tuples (suc left) start end only_16_bit room values =
      let size_per_tuple : ℕ = if only_16_bit then 2 + 2 else 2 + 16 in
      let (values1, tuple) =
        if same only_16_bit (is_16bit_uuid start)
        then handle_uuid_tuple start values
        else (values, []) in
      let (values2, others) =
        collect_handle_uuid_tuples left (start + 1) end only_16_bit (room - length tuple) values1 in
      if up_to end start && leb size_per_tuple room
      then (values2, tuple ++ others)
      else (values, [])

  unfoldable pub handle_find_information_request : ℕ → List ℕ → Values S → Values S × List ℕ
  handle_find_information_request n input values =
      elim (check_size_and_handle_range v n input 5 5) [
        | refused answer ↦ (values, answer)
        | passed (starting_handle, ending_handle) ↦
            let start : ℕ = index_of (v.first_index_by_handle starting_handle) in
            let only_16_bit : Bool = is_16bit_uuid start in
            let (values', tuples) =
              collect_handle_uuid_tuples (v.number_of_all_attributes - start) start
                (ending_index ending_handle) only_16_bit (n - 2) values in
            (values', 5 ∷ (if n == 1 then [] else (if only_16_bit then 1 else 2) ∷ tuples))
      ]

  -- `services_by_group`, with `value_filter` and `collect_find_by_type_groups`: a range of handles for each service, and whether
  -- there was one.
  unfoldable pub all_services_by_group :
      List Service → ℕ → Option ℕ → Option ℕ → List ℕ → ℕ → Values S → Values S × Bool × List ℕ
  all_services_by_group [] index start end value room values = (values, false, [])
  all_services_by_group (service ∷ services) index start end value room values =
      let r = (v.attribute_at index).access (compare_value value) nobody 1 values in
      let in_range : Bool = elim start [ none ↦ false | some s ↦ leb s index ] && up_to end index in
      let values1 : Values S = if in_range then r.values else values in
      let fits : Bool = in_range && (r.result == value_equal) && leb 4 room in
      let (values2, found, others) =
        all_services_by_group services (index + service.number_of_attributes) start end value
          (if fits then room - 4 else room) values1 in
      (
        values2,
        fits || found,
        (if fits
              then two_bytes (v.handle_by_index index)
                ++ two_bytes (v.handle_by_index (index + service.number_of_attributes - 1))
              else [])
            ++ others,
      )

  -- The size of all groups has 8 bits.
  unfoldable pub handle_find_by_type_value_request : ℕ → List ℕ → Values S → Values S × List ℕ
  handle_find_by_type_value_request n input values =
      elim (check_size_and_handle_range v n input 9 23) [
        | refused answer ↦ (values, answer)
        | passed (starting_handle, ending_handle) ↦
            let (values', found, groups) =
              all_services_by_group v.services 0 (v.first_index_by_handle starting_handle)
                (ending_index ending_handle) (drop 7 input) (n - 1) values in
            if not (read_two input 5 == primary_service)
            then (
              values,
              error_response n (opcode_of input) ErrorCode.unsupported_group_type starting_handle,
            )
            else if found
            then (values', 7 ∷ take (length groups % 256) groups)
            else (
              values',
              error_response n (opcode_of input) ErrorCode.attribute_not_found starting_handle,
            )
      ]

  unfoldable pub read_primary_service_response :
      Service → ℕ → ℕ → Bool → Values S → Values S × List ℕ
  read_primary_service_response service room index is_128bit_filter values =
      let r = (v.attribute_at index).access (read_access (room - 4) 0) nobody 1 values in
      if same is_128bit_filter service.is_128bit && leb (entry_size is_128bit_filter) room
      then (
        r.values,
        if r.result == success
            then two_bytes (v.handle_by_index index)
              ++ (two_bytes (v.handle_by_index (index + service.number_of_attributes - 1))
                  ++ r.bytes)
            else [],
      )
      else (values, [])

  -- `collect_primary_services::each`, for each service.
  unfoldable pub collect_primary_services :
      List Service → ℕ → Option ℕ → ℕ → ℕ → Collecting → Values S → Collecting × Values S
  collect_primary_services [] index start ending_handle room c values = (c, values)
  collect_primary_services (service ∷ services) index start ending_handle room c values =
      let c1 : Collecting = select_size service c in
      let (values1, entry) =
        read_primary_service_response service (room - length c.entries) index c1.is_128bit_uuid
          values in
      let taken : Bool =
        not c.stopped
        && elim start [ none ↦ false | some s ↦ leb s index ]
        && leb index ending_handle in
      collect_primary_services services (index + service.number_of_attributes) start ending_handle
        room (if taken then record c1 { entries = c.entries ++ entry } else c)
        (if taken then values1 else values)

  unfoldable pub handle_read_by_group_type_request : ℕ → List ℕ → Values S → Values S × List ℕ
  handle_read_by_group_type_request n input values =
      elim (check_size_and_handle_range v n input 7 21) [
        | refused answer ↦ (values, answer)
        | passed (starting_handle, ending_handle) ↦
            let (c, values') =
              collect_primary_services v.services (index_of (v.first_index_by_handle 1))
                (v.first_index_by_handle starting_handle) ending_handle (n - 2) start_collecting
                values in
            if (length input == 21) || not (read_two input 5 == primary_service)
            then (
              values,
              error_response n (opcode_of input) ErrorCode.unsupported_group_type starting_handle,
            )
            else if length c.entries == 0
            then (
              values',
              error_response n (opcode_of input) ErrorCode.attribute_not_found starting_handle,
            )
            else (values', 17 ∷ c.attribute_data_size ∷ c.entries)
      ]
