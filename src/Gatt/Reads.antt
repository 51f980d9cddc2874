-- ===== src/Gatt/Reads.antt =====
-- bluetoe/server.hpp: reading attributes by their handles, and by their type.
use bluetoe.Shared.{
  ℕ, zero, suc, ◌+◌, ◌-◌, ◌*◌, ◌%◌, ◌^◌, min, Bool, true, false, ◌&&◌, ◌||◌, none, some, List, [],
  ◌∷◌, ◌++◌, ◌==◌, if◌then◌else◌, ltb, length, get_or, drop, take,
}
use bluetoe.L2cap.{two_bytes, read_two}
use bluetoe.Gatt.{
  read_access, compare_128bit_uuid, Caller, nobody, Values, Accessed, success, uuid_equal, Server,
  internal_128bit_uuid, access_at, index_by_handle, index_of,
}
use bluetoe.Gatt.ErrorCode
use bluetoe.Gatt.Checks.{
  error_response, access_result_to_att_code, opcode_of, passed, refused,
  check_size_and_handle_range, check_size_and_handle,
}

-- `uuid_filter`
pub data UuidFilter : Type 0 where
  filter_16bit : ℕ → UuidFilter
  filter_128bit : List ℕ → UuidFilter

-- The bytes of `bluetooth_base_uuid` but the last four.
abbrev pub base_uuid : List ℕ
base_uuid = 251 ∷ 52 ∷ 155 ∷ 95 ∷ 128 ∷ 0 ∷ 0 ∷ 128 ∷ 0 ∷ 16 ∷ 0 ∷ 0 ∷ []

-- `std::equal`, as far as the first list goes
unfoldable pub begins_with : List ℕ → List ℕ → Bool
begins_with [] ys = true
begins_with (x ∷ xs) [] = false
begins_with (x ∷ xs) (y ∷ ys) = (x == y) && begins_with xs ys

abbrev pub representable_as_16bit_uuid : List ℕ → Bool
representable_as_16bit_uuid bytes =
    begins_with base_uuid bytes && (get_or bytes 14 0 == 0) && (get_or bytes 15 0 == 0)

unfoldable pub uuid_filter : List ℕ → Bool → UuidFilter
uuid_filter bytes is_128bit =
    if is_128bit && representable_as_16bit_uuid bytes
    then filter_16bit (read_two bytes 12)
    else if is_128bit
    then filter_128bit (take 16 bytes)
    else filter_16bit (read_two bytes 0)

-- What `collect_attributes` has collected: the tuples, and their size once there is a first one.
pub record Collected : Type 0 where
  pub tuples : List ℕ
  pub tuple_size : ℕ
  pub first : Bool

abbrev pub nothing_collected : Collected
nothing_collected = record { tuples = []; tuple_size = 0; first = true }

abbrev pub tuple_header_size : ℕ
tuple_header_size = 2

abbrev pub maximum_pdu_size : ℕ
maximum_pdu_size = 253

-- A tuple of the size of the first one is kept; `size_` has 8 bits.
unfoldable pub keep_tuple : List ℕ → Collected → Collected
keep_tuple tuple c =
    let size : ℕ = if c.first then length tuple % 256 else c.tuple_size in
    record {
      tuples = if length tuple == size then c.tuples ++ tuple else c.tuples;
      tuple_size = size;
      first = false;
    }

-- All values, one behind the other, or the error and the handle it is about.
pub data ReadValues : Type 0 where
  all_read : List ℕ → ReadValues
  not_read : ℕ → ℕ → ReadValues

abbrev pub prepend : List ℕ → ReadValues → ReadValues
prepend bytes (all_read others) = all_read (bytes ++ others)
prepend bytes (not_read code handle) = not_read code handle

-- The size of all tuples has 8 bits.
unfoldable pub read_by_type_response : ℕ → ℕ → ℕ → Collected → List ℕ
read_by_type_response n opcode starting_handle c =
    if length c.tuples == 0
    then error_response n opcode ErrorCode.attribute_not_found starting_handle
    else 9 ∷ c.tuple_size ∷ take (length c.tuples % 256) c.tuples

abbrev pub read_multiple_response : ℕ → ℕ → ReadValues → List ℕ
read_multiple_response n opcode (all_read bytes) = 15 ∷ bytes
read_multiple_response n opcode (not_read code handle) = error_response n opcode code handle

-- The response to a read at one handle.
unfoldable pub read_response {ℓ} : {S : Type ℓ} → ℕ → ℕ → ℕ → ℕ → Accessed S → Values S × List ℕ
read_response n request response handle r = (
  r.values,
  if r.result == success
      then response ∷ r.bytes
      else error_response n request
          (access_result_to_att_code r.result ErrorCode.read_not_permitted) handle,
)

module _ {ℓ} {S : Type ℓ} (v : Server S) where
  unfoldable pub filter_matches : UuidFilter → ℕ → Values S → Bool × Values S
  filter_matches (filter_16bit uuid) index values = (uuid == (v.attribute_at index).uuid, values)
  filter_matches (filter_128bit bytes) index values =
      if (v.attribute_at index).uuid == internal_128bit_uuid
      then (let r = access_at v index (compare_128bit_uuid bytes) nobody values in
          (r.result == uuid_equal, r.values))
      else (false, values)

  -- `collect_attributes::operator()`, for an attribute and with so much room for all tuples.
  unfoldable pub collect_attribute : ℕ → Caller → ℕ → Collected × Values S → Collected × Values S
  collect_attribute room who index (c, values) =
      let free : ℕ = room - length c.tuples in
      let max_data_size : ℕ = min free (maximum_pdu_size + tuple_header_size) - tuple_header_size in
      let r = access_at v index (read_access max_data_size 0) who values in
      if ltb free tuple_header_size
      then (c, values)
      else if r.result == success
      then (keep_tuple (two_bytes (v.handle_by_index index) ++ r.bytes) c, r.values)
      else (c, r.values)

  -- `all_attributes`, for the number of attributes that are left.
  unfoldable pub all_attributes :
      ℕ
      → ℕ
      → UuidFilter
      → (ℕ → Collected × Values S → Collected × Values S)
      → Collected × Values S
      → Collected × Values S
  all_attributes zero index filter iter (c, values) = (c, values)
  all_attributes (suc left) index filter iter (c, values) =
      let (matched, values') = filter_matches filter index values in
      all_attributes left (index + 1) filter iter
        (if matched then iter index (c, values') else (c, values'))

  unfoldable pub last_handle_index : ℕ → ℕ
  last_handle_index ending_handle = elim (v.first_index_by_handle ending_handle) [
    | none ↦ v.number_of_all_attributes - 1
    | some mapped ↦ mapped
  ]

  unfoldable pub handle_read_by_type_request : ℕ → List ℕ → Caller → Values S → Values S × List ℕ
  handle_read_by_type_request n input who values =
      elim (check_size_and_handle_range v n input 7 21) [
        | refused answer ↦ (values, answer)
        | passed (starting_handle, ending_handle) ↦
            let start : ℕ = index_of (v.first_index_by_handle starting_handle) in
            let (c, values') =
              all_attributes (last_handle_index ending_handle + 1 - start) start
                (uuid_filter (drop 5 input) (length input == 21)) (collect_attribute (n - 2) who)
                (nothing_collected, values) in
            (values', read_by_type_response n (opcode_of input) starting_handle c)
      ]

  unfoldable pub handle_read_request : ℕ → List ℕ → Caller → Values S → Values S × List ℕ
  handle_read_request n input who values = elim (check_size_and_handle v n input 3 3) [
    | refused answer ↦ (values, answer)
    | passed (handle, index) ↦
        read_response n (opcode_of input) 11 handle
          (access_at v index (read_access (n - 1) 0) who values)
  ]

  unfoldable pub handle_read_blob_request : ℕ → List ℕ → Caller → Values S → Values S × List ℕ
  handle_read_blob_request n input who values = elim (check_size_and_handle v n input 5 5) [
    | refused answer ↦ (values, answer)
    | passed (handle, index) ↦
        read_response n (opcode_of input) 13 handle
          (access_at v index (read_access (n - 1) (read_two input 3)) who values)
  ]

  -- The loop of a request for several values.
  unfoldable pub read_values : ℕ → List ℕ → Caller → Values S → Values S × ReadValues
  read_values room [] who values = (values, all_read [])
  read_values room (low ∷ []) who values = (values, all_read [])
  read_values room (low ∷ (high ∷ handles)) who values =
      let handle : ℕ = low + high * 2 ^ 8 in
      if handle == 0
      then (values, not_read ErrorCode.invalid_handle handle)
      else elim (index_by_handle v handle) [
        | none ↦ (values, not_read ErrorCode.invalid_handle handle)
        | some index ↦
            let r = access_at v index (read_access room 0) who values in
            let (values', others) = read_values (room - length r.bytes) handles who r.values in
            if r.result == success then (values', prepend r.bytes others) else (
              r.values,
              not_read (access_result_to_att_code r.result ErrorCode.read_not_permitted) handle,
            )
      ]

  unfoldable pub handle_read_multiple_request : ℕ → List ℕ → Caller → Values S → Values S × List ℕ
  handle_read_multiple_request n input who values =
      if ltb (length input) 5 || (length input % 2 == 0)
      then (values, error_response n (opcode_of input) ErrorCode.invalid_pdu 0)
      else (let (values', read) = read_values (n - 1) (drop 1 input) who values in
          (values', read_multiple_response n (opcode_of input) read))
