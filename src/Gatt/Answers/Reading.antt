-- ===== src/Gatt/Answers/Reading.antt =====
-- bluetoe/server.hpp: the answers to reads.
use bluetoe.Shared.{
  ℕ, zero, suc, ◌+◌, ◌-◌, ◌*◌, ◌%◌, ◌^◌, ◌≤◌, arith, min, ◌||◌, Option-cases, inl, inr, List, [],
  ◌∷◌, ◌++◌, ◌==◌, if◌then◌else◌, if-elim, ltb, length, length-append, drop,
}
use bluetoe.L2cap.{two_bytes, read_two}
use bluetoe.Gatt.{
  read_access, Caller, Values, success, Server, index_by_handle, access_at, index_of,
}
use bluetoe.Gatt.Checks.{opcode_of, check_size_and_handle_range, check_size_and_handle}
use bluetoe.Gatt.Reads.{
  UuidFilter, uuid_filter, filter_matches, Collected, keep_tuple, nothing_collected,
  collect_attribute, all_attributes, last_handle_index, read_by_type_response,
  handle_read_by_type_request, read_response, handle_read_request, handle_read_blob_request,
  ReadValues, all_read, not_read, prepend, read_values, read_multiple_response,
  handle_read_multiple_request, tuple_header_size, maximum_pdu_size,
}
use bluetoe.Gatt.Answers.{
  IsBounded, IsAnswer, IsAnswer-error, IsAnswer-response, after_check,
  check_size_and_handle_range-IsRefused, check_size_and_handle-IsRefused, length-take,
}

module _ {ℓ} {S : Type ℓ} (v : Server S) (bounded : (i : ℕ) → IsBounded (v.attribute_at i)) (n : ℕ)
    (room : 2 ≤ n) (input : List ℕ) (who : Caller) (values : Values S) where
  read_response-IsAnswer :
      (request response handle index offset : ℕ)
      → IsAnswer n request response
          (read_response n request response handle
            (access_at v index (read_access (n - 1) offset) who values)).1
  unfolding read_response
  read_response-IsAnswer request response handle index offset =
      let r = access_at v index (read_access (n - 1) offset) who values in
      if-elim (IsAnswer n request response) (r.result == success)
        (λ t.
          IsAnswer-response n request response r.bytes (
            let fits = bounded index (n - 1) offset index who values (ground arith) in omega arith))
        (λ f. IsAnswer-error n request response _ _)

  pub handle_read_request-IsAnswer :
      IsAnswer n (opcode_of input) 11 (handle_read_request v n input who values).1
  unfolding handle_read_request
  handle_read_request-IsAnswer =
      after_check n (opcode_of input) 11 (check_size_and_handle v n input 3 3) values _
        (check_size_and_handle-IsRefused v n input 3 3)
        (λ a. read_response-IsAnswer (opcode_of input) 11 a.0 a.1 0)

  pub handle_read_blob_request-IsAnswer :
      IsAnswer n (opcode_of input) 13 (handle_read_blob_request v n input who values).1
  unfolding handle_read_blob_request
  handle_read_blob_request-IsAnswer =
      after_check n (opcode_of input) 13 (check_size_and_handle v n input 5 5) values _
        (check_size_and_handle-IsRefused v n input 5 5)
        (λ a. read_response-IsAnswer (opcode_of input) 13 a.0 a.1 (read_two input 3))

module _ {ℓ} {S : Type ℓ} (v : Server S) (bounded : (i : ℕ) → IsBounded (v.attribute_at i))
    (room : ℕ) (who : Caller) where
  collect_attribute_fits :
      (index : ℕ) (c : Collected) (values : Values S)
      → length c.tuples ≤ room
      → length (collect_attribute v room who index (c, values)).0.tuples ≤ room
  unfolding collect_attribute keep_tuple
  collect_attribute_fits index c values h =
      let free : ℕ = room - length c.tuples in
      let size : ℕ = min free (maximum_pdu_size + tuple_header_size) - tuple_header_size in
      let r = access_at v index (read_access size 0) who values in
      let tuple : List ℕ = two_bytes (v.handle_by_index index) ++ r.bytes in
      if-elim (λ (x : Collected × Values S). length x.0.tuples ≤ room) (ltb free tuple_header_size)
        (λ t. h)
        (λ f.
          if-elim (λ (x : Collected × Values S). length x.0.tuples ≤ room) (r.result == success)
            (λ t.
              let fits = bounded index size 0 index who values (ground arith) in
              let small : suc (suc size) ≤ free = ground arith in
              let all = length-append c.tuples tuple in
              if-elim (λ (x : List ℕ). length x ≤ room)
                (length tuple == (if c.first then length tuple % 256 else c.tuple_size))
                (λ t. omega arith) (λ f. h))
            (λ f. h))

  all_attributes_fits :
      (left index : ℕ) (filter : UuidFilter) (c : Collected × Values S)
      → length c.0.tuples ≤ room
      → length (all_attributes v left index filter (collect_attribute v room who) c).0.tuples ≤ room
  unfolding all_attributes
  all_attributes_fits zero index filter c h = h
  all_attributes_fits (suc left) index filter c h =
      let r = filter_matches v filter index c.1 in
      all_attributes_fits left (index + 1) filter _ (
        if-elim (λ (x : Collected × Values S). length x.0.tuples ≤ room) r.0
          (λ t. collect_attribute_fits index c.0 r.1 h) (λ f. h))

read_by_type_response-IsAnswer :
    (n opcode starting_handle : ℕ) (c : Collected)
    → length c.tuples + 2 ≤ n
    → IsAnswer n opcode 9 (read_by_type_response n opcode starting_handle c)
unfolding read_by_type_response
read_by_type_response-IsAnswer n opcode starting_handle c h =
    if-elim (IsAnswer n opcode 9) (length c.tuples == 0) (λ t. IsAnswer-error n opcode 9 _ _)
      (λ f.
        IsAnswer-response n opcode 9 _
          (let l = length-take (length c.tuples % 256) c.tuples in omega (arith, l.1)))

module _ {ℓ} {S : Type ℓ} (v : Server S) (bounded : (i : ℕ) → IsBounded (v.attribute_at i)) (n : ℕ)
    (room : 2 ≤ n) (input : List ℕ) (who : Caller) where
  pub handle_read_by_type_request-IsAnswer :
      (values : Values S)
      → IsAnswer n (opcode_of input) 9 (handle_read_by_type_request v n input who values).1
  unfolding handle_read_by_type_request
  handle_read_by_type_request-IsAnswer values =
      after_check n (opcode_of input) 9 (check_size_and_handle_range v n input 7 21) values _
        (check_size_and_handle_range-IsRefused v n input 7 21)
        (λ a.
          let start : ℕ = index_of (v.first_index_by_handle a.0) in
          let filter : UuidFilter = uuid_filter (drop 5 input) (length input == 21) in
          let left : ℕ = last_handle_index v a.1 + 1 - start in
          let fits =
            all_attributes_fits v bounded (n - 2) who left start filter (nothing_collected, values)
              (omega arith) in
          read_by_type_response-IsAnswer n (opcode_of input) a.0
            (all_attributes v left start filter (collect_attribute v (n - 2) who)
              (nothing_collected, values)).0
            (omega arith))

  -- The values of several reads fit into the room.
  abbrev ReadFits : ℕ → ReadValues → Type 0
  ReadFits room (all_read bytes) = length bytes ≤ room
  ReadFits room (not_read code handle) = 0 ≤ room

  prepend-ReadFits :
      (room : ℕ) (bytes : List ℕ) (others : ReadValues)
      → length bytes ≤ room
      → ReadFits (room - length bytes) others
      → ReadFits room (prepend bytes others)
  prepend-ReadFits room bytes (all_read others) h g =
      let all = length-append bytes others in omega arith
  prepend-ReadFits room bytes (not_read code handle) h g = omega arith

  read_values-ReadFits :
      (room : ℕ) (handles : List ℕ) (values : Values S)
      → ReadFits room (read_values v room handles who values).1
  unfolding read_values
  read_values-ReadFits room [] values = omega arith
  read_values-ReadFits room (low ∷ []) values = omega arith
  read_values-ReadFits room (low ∷ (high ∷ handles)) values =
      if-elim (λ (x : Values S × ReadValues). ReadFits room x.1) (low + high * 2 ^ 8 == 0)
        (λ t. omega arith)
        (λ f. elim (Option-cases (index_by_handle v (low + high * 2 ^ 8))) [
          | inl e ↦ rw e (omega arith)
          | inr (index, e) ↦ rw e (
              let r = access_at v index (read_access room 0) who values in
              if-elim (λ (x : Values S × ReadValues). ReadFits room x.1) (r.result == success)
                (λ t.
                  prepend-ReadFits room r.bytes _
                    (bounded index room 0 index who values (ground arith))
                    (read_values-ReadFits (room - length r.bytes) handles r.values))
                (λ f. omega arith))
        ])

  read_multiple_response-IsAnswer :
      (read : ReadValues)
      → ReadFits (n - 1) read
      → IsAnswer n (opcode_of input) 15 (read_multiple_response n (opcode_of input) read)
  read_multiple_response-IsAnswer (all_read bytes) h =
      IsAnswer-response n (opcode_of input) 15 bytes (omega arith)
  read_multiple_response-IsAnswer (not_read code handle) h =
      IsAnswer-error n (opcode_of input) 15 code handle

  pub handle_read_multiple_request-IsAnswer :
      (values : Values S)
      → IsAnswer n (opcode_of input) 15 (handle_read_multiple_request v n input who values).1
  unfolding handle_read_multiple_request
  handle_read_multiple_request-IsAnswer values =
      if-elim (λ (x : Values S × List ℕ). IsAnswer n (opcode_of input) 15 x.1)
        (ltb (length input) 5 || (length input % 2 == 0))
        (λ t. IsAnswer-error n (opcode_of input) 15 _ _)
        (λ f.
          read_multiple_response-IsAnswer _ (read_values-ReadFits (n - 1) (drop 1 input) values))
