-- ===== src/Gatt/Answers/Finding.antt =====
-- bluetoe/server.hpp: the answers to requests that discover attributes and services.
use bluetoe.Shared.{
  ℕ, zero, suc, ◌+◌, ◌-◌, ◌%◌, ◌≤◌, ◌≡◌, refl, arith, Bool, true, false, not, ◌&&◌, ◌||◌,
  Bool-cases, inl, inr, Option, none, some, List, [], ◌∷◌, ◌++◌, ◌==◌, if◌then◌else◌, if-elim, leb,
  same, length, length-append, drop,
}
use bluetoe.L2cap.{read_two}
use bluetoe.Gatt.{
  read_access, compare_value, nobody, Values, success, value_equal, Service, Server,
  primary_service, index_of,
}
use bluetoe.Gatt.Checks.{opcode_of, check_size_and_handle_range}
use bluetoe.Gatt.Discovery.{
  up_to, entry_size, Collecting, start_collecting, select_size, is_16bit_uuid, ending_index,
  handle_uuid_tuple, collect_handle_uuid_tuples, handle_find_information_request,
  all_services_by_group, handle_find_by_type_value_request, read_primary_service_response,
  collect_primary_services, handle_read_by_group_type_request,
}
use bluetoe.Gatt.Answers.{
  IsBounded, IsAnswer, IsAnswer-error, IsAnswer-response, after_check,
  check_size_and_handle_range-IsRefused, length-take,
}

-- A group of two handles and the ones behind it.
group_fits :
    (fits : Bool) (room : ℕ) (group others : List ℕ)
    → (fits ≡ true → 4 ≤ room)
    → length group ≡ 4
    → length others ≤ (if fits then room - 4 else room)
    → length ((if fits then group else []) ++ others) ≤ room
group_fits true room group others h four g =
    let all = length-append group others in let enough = h refl in omega arith
group_fits false room group others h four g = g

module _ {ℓ} {S : Type ℓ} (v : Server S) where
  handle_uuid_tuple_fits :
      (index : ℕ) (only_16_bit : Bool) (values : Values S)
      → same only_16_bit (is_16bit_uuid v index) ≡ true
      → length (handle_uuid_tuple v index values).1 ≤ (if only_16_bit then 2 + 2 else 2 + 16)
  unfolding handle_uuid_tuple
  handle_uuid_tuple_fits index only_16_bit values h =
      let declaration = (v.attribute_at (index - 1)).access (read_access 19 0) nobody 1 values in
      let uuid = length-take 16 (drop 3 declaration.bytes) in
      elim (Bool-cases (is_16bit_uuid v index)) [
        | inl e ↦ rw e (ground arith)
        | inr e ↦ rw e (ground arith)
      ]

  collect_handle_uuid_tuples_fits :
      (left start : ℕ) (end : Option ℕ) (only_16_bit : Bool) (room : ℕ) (values : Values S)
      → length (collect_handle_uuid_tuples v left start end only_16_bit room values).1 ≤ room
  unfolding collect_handle_uuid_tuples
  collect_handle_uuid_tuples_fits zero start end only_16_bit room values = omega arith
  collect_handle_uuid_tuples_fits (suc left) start end only_16_bit room values =
      let matches : Bool = same only_16_bit (is_16bit_uuid v start) in
      let r : Values S × List ℕ =
        if matches then handle_uuid_tuple v start values else (values, []) in
      let size : ℕ = if only_16_bit then 2 + 2 else 2 + 16 in
      let tuple : length r.1 ≤ size =
        if-elim (λ (x : Values S × List ℕ). length x.1 ≤ size) matches
          (λ t. handle_uuid_tuple_fits start only_16_bit values t) (λ f. omega arith) in
      let others =
        collect_handle_uuid_tuples_fits left (start + 1) end only_16_bit (room - length r.1) r.0 in
      if-elim (λ (x : Values S × List ℕ). length x.1 ≤ room) (up_to end start && leb size room)
        (λ t.
          let all =
            length-append r.1
              (collect_handle_uuid_tuples v left (start + 1) end only_16_bit (room - length r.1)
                r.0).1 in
          let enough : size ≤ room = ground arith in omega arith)
        (λ f. omega arith)

  pub handle_find_information_request-IsAnswer :
      (n : ℕ) (input : List ℕ) (values : Values S)
      → 2 ≤ n
      → IsAnswer n (opcode_of input) 5 (handle_find_information_request v n input values).1
  unfolding handle_find_information_request
  handle_find_information_request-IsAnswer n input values room =
      after_check n (opcode_of input) 5 (check_size_and_handle_range v n input 5 5) values _
        (check_size_and_handle_range-IsRefused v n input 5 5)
        (λ a.
          let start : ℕ = index_of (v.first_index_by_handle a.0) in
          let fits =
            collect_handle_uuid_tuples_fits (v.number_of_all_attributes - start) start
              (ending_index v a.1) (is_16bit_uuid v start) (n - 2) values in
          IsAnswer-response n (opcode_of input) 5 _ (
            if-elim (λ (x : List ℕ). suc (length x) ≤ n) (n == 1) (λ t. omega arith)
              (λ f. omega arith)))

  all_services_by_group_fits :
      (services : List Service) (index : ℕ) (start end : Option ℕ) (value : List ℕ) (room : ℕ)
      (values : Values S)
      → length (all_services_by_group v services index start end value room values).2 ≤ room
  unfolding all_services_by_group
  all_services_by_group_fits [] index start end value room values = omega arith
  all_services_by_group_fits (service ∷ services) index start end value room values =
      let r = (v.attribute_at index).access (compare_value value) nobody 1 values in
      let in_range : Bool = elim start [ none ↦ false | some s ↦ leb s index ] && up_to end index in
      let fits : Bool = in_range && (r.result == value_equal) && leb 4 room in
      group_fits fits room _ _ (λ e. ground arith) (omega arith)
        (all_services_by_group_fits services (index + service.number_of_attributes) start end value
          (if fits then room - 4 else room) (if in_range then r.values else values))

  pub handle_find_by_type_value_request-IsAnswer :
      (n : ℕ) (input : List ℕ) (values : Values S)
      → 2 ≤ n
      → IsAnswer n (opcode_of input) 7 (handle_find_by_type_value_request v n input values).1
  unfolding handle_find_by_type_value_request
  handle_find_by_type_value_request-IsAnswer n input values room =
      after_check n (opcode_of input) 7 (check_size_and_handle_range v n input 9 23) values _
        (check_size_and_handle_range-IsRefused v n input 9 23)
        (λ a.
          let r : Values S × Bool × List ℕ =
            all_services_by_group v v.services 0 (v.first_index_by_handle a.0) (ending_index v a.1)
              (drop 7 input) (n - 1) values in
          let fits =
            all_services_by_group_fits v.services 0 (v.first_index_by_handle a.0)
              (ending_index v a.1) (drop 7 input) (n - 1) values in
          if-elim (λ (x : Values S × List ℕ). IsAnswer n (opcode_of input) 7 x.1)
            (not (read_two input 5 == primary_service))
            (λ t. IsAnswer-error n (opcode_of input) 7 _ _)
            (λ f.
              if-elim (λ (x : Values S × List ℕ). IsAnswer n (opcode_of input) 7 x.1) r.1
                (λ t.
                  IsAnswer-response n (opcode_of input) 7 _
                    (let l = length-take (length r.2 % 256) r.2 in omega arith))
                (λ f. IsAnswer-error n (opcode_of input) 7 _ _)))

  module _ (bounded : (i : ℕ) → IsBounded (v.attribute_at i)) where
    read_primary_service_response_fits :
        (service : Service) (room index : ℕ) (is_128bit_filter : Bool) (values : Values S)
        → length (read_primary_service_response v service room index is_128bit_filter values).1
          ≤ room
    unfolding read_primary_service_response
    read_primary_service_response_fits service room index is_128bit_filter values =
        let r = (v.attribute_at index).access (read_access (room - 4) 0) nobody 1 values in
        if-elim (λ (x : Values S × List ℕ). length x.1 ≤ room)
          (same is_128bit_filter service.is_128bit && leb (entry_size is_128bit_filter) room)
          (λ t.
            if-elim (λ (x : List ℕ). length x ≤ room) (r.result == success)
              (λ s.
                let fits = bounded index (room - 4) 0 1 nobody values (ground arith) in
                let enough : 6 ≤ room = ground arith in omega arith)
              (λ f. omega arith))
          (λ f. omega arith)

    collect_primary_services_fits :
        (services : List Service) (index : ℕ) (start : Option ℕ) (ending_handle room : ℕ)
        (c : Collecting) (values : Values S)
        → length c.entries ≤ room
        → length
            (collect_primary_services v services index start ending_handle room c values).0.entries
          ≤ room
    unfolding collect_primary_services
    collect_primary_services_fits [] index start ending_handle room c values h = h
    collect_primary_services_fits (service ∷ services) index start ending_handle room c values h =
        let fits =
          read_primary_service_response_fits service (room - length c.entries) index
            (select_size service c).is_128bit_uuid values in
        let entry : List ℕ =
          (read_primary_service_response v service (room - length c.entries) index
            (select_size service c).is_128bit_uuid values).1 in
        let all = length-append c.entries entry in
        collect_primary_services_fits services _ start ending_handle room _ _ (
          if-elim (λ (x : Collecting). length x.entries ≤ room)
            (not c.stopped
              && elim start [ none ↦ false | some s ↦ leb s index ]
              && leb index ending_handle)
            {x = record (select_size service c) { entries = c.entries ++ entry }} (λ t. omega arith)
            (λ f. h))

    pub handle_read_by_group_type_request-IsAnswer :
        (n : ℕ) (input : List ℕ) (values : Values S)
        → 2 ≤ n
        → IsAnswer n (opcode_of input) 17 (handle_read_by_group_type_request v n input values).1
    unfolding handle_read_by_group_type_request
    handle_read_by_group_type_request-IsAnswer n input values room =
        after_check n (opcode_of input) 17 (check_size_and_handle_range v n input 7 21) values _
          (check_size_and_handle_range-IsRefused v n input 7 21)
          (λ a.
            let c : Collecting =
              (collect_primary_services v v.services (index_of (v.first_index_by_handle 1))
                (v.first_index_by_handle a.0) a.1 (n - 2) start_collecting values).0 in
            let fits =
              collect_primary_services_fits v.services (index_of (v.first_index_by_handle 1))
                (v.first_index_by_handle a.0) a.1 (n - 2) start_collecting values (omega arith) in
            if-elim (λ (x : Values S × List ℕ). IsAnswer n (opcode_of input) 17 x.1)
              ((length input == 21) || not (read_two input 5 == primary_service))
              (λ t. IsAnswer-error n (opcode_of input) 17 _ _)
              (λ f.
                if-elim (λ (x : Values S × List ℕ). IsAnswer n (opcode_of input) 17 x.1)
                  (length c.entries == 0) (λ t. IsAnswer-error n (opcode_of input) 17 _ _)
                  (λ f. IsAnswer-response n (opcode_of input) 17 _ (omega arith))))
