-- ===== src/Gatt/Information.antt =====
-- bluetoe/server.hpp: which attributes a find information request lists.
use bluetoe.Shared.{
  ℕ, zero, suc, ◌+◌, ◌-◌, ◌/◌, ◌≤◌, ◌≡◌, refl, sym, ap, ◌∙◌, arith, Bool, true, false, Bool-cases,
  inl, inr, Option, List, [], ◌∷◌, ◌++◌, ◌==◌, if◌then◌else◌, leb, same, length, take, drop,
}
use bluetoe.L2cap.{two_bytes}
use bluetoe.Gatt.{read_access, nobody, Values, Server, index_of}
use bluetoe.Gatt.Checks.{passed, check_size_and_handle_range}
use bluetoe.Gatt.Discovery.{
  up_to, is_16bit_uuid, ending_index, handle_find_information_request, handle_uuid_tuple,
  collect_handle_uuid_tuples,
}

-- The indices of the attributes in a range with a uuid of the given size, by the number of attributes that are left.
abbrev pub listed {ℓ} : {S : Type ℓ} → Server S → ℕ → ℕ → Option ℕ → Bool → List ℕ
listed v zero start end only_16_bit = []
listed v (suc left) start end only_16_bit =
    let others : List ℕ = listed v left (start + 1) end only_16_bit in
    if up_to end start
    then (if same only_16_bit (is_16bit_uuid v start) then start ∷ others else others)
    else []

-- A handle, and the uuid of 2 bytes or the one of 16 bytes, which stands in the declaration.
abbrev pub information {ℓ} : {S : Type ℓ} → Server S → Values S → ℕ → List ℕ
information v values index =
    two_bytes (v.handle_by_index index)
    ++ (if is_16bit_uuid v index
        then two_bytes (v.attribute_at index).uuid
        else take 16
            (drop 3 ((v.attribute_at (index - 1)).access (read_access 19 0) nobody 1 values).bytes))

abbrev pub all_information {ℓ} : {S : Type ℓ} → Server S → Values S → List ℕ → List ℕ
all_information v values [] = []
all_information v values (i ∷ is) = information v values i ++ all_information v values is

-- Reading a declaration changes nothing, and gives 19 bytes if the uuid has 128 bits.
abbrev pub IsDeclared {ℓ} : {S : Type ℓ} → Server S → Type ℓ
IsDeclared {S = S} v =
    (i : ℕ) (values : Values S)
    → is_16bit_uuid v i ≡ false
    → let r = (v.attribute_at (i - 1)).access (read_access 19 0) nobody 1 values in
      (r.values ≡ values) × (length r.bytes ≡ 19)

abbrev pub tuple_size : Bool → ℕ
tuple_size only_16_bit = if only_16_bit then 4 else 18

take_nothing : (n : ℕ) → take {A = ℕ} n [] ≡ []
take_nothing zero = refl
take_nothing (suc n) = refl

division :
    (only_16_bit : Bool) (room : ℕ)
    → (leb (tuple_size only_16_bit) room ≡ true
        → room / tuple_size only_16_bit
          ≡ suc ((room - tuple_size only_16_bit) / tuple_size only_16_bit))
      × (leb (tuple_size only_16_bit) room ≡ false → room / tuple_size only_16_bit ≡ 0)
division true room = ((λ h. ground arith), (λ h. ground arith))
division false room = ((λ h. ground arith), (λ h. ground arith))

module _ {ℓ} {S : Type ℓ} (v : Server S) (declared : IsDeclared v) (values : Values S) where
  tuple_lem : (i : ℕ) → handle_uuid_tuple v i values ≡ (values, information v values i)
  unfolding handle_uuid_tuple
  tuple_lem i = elim (Bool-cases (is_16bit_uuid v i)) [
    | inl e ↦ rw (handle_uuid_tuple, e) refl
    | inr e ↦
        let d = declared i values e in
        rw (handle_uuid_tuple, e)
          (ap
            (λ (w : Values S). (
              w,
              two_bytes (v.handle_by_index i)
                  ++ take 16 (
                      drop 3
                        ((v.attribute_at (i - 1)).access (read_access 19 0) nobody 1 values).bytes),
            ))
            d.0)
  ]

  length-information :
      (i : ℕ) (only_16_bit : Bool)
      → same only_16_bit (is_16bit_uuid v i) ≡ true
      → length (information v values i) ≡ tuple_size only_16_bit
  length-information i only_16_bit h = elim (Bool-cases (is_16bit_uuid v i)) [
    | inl e ↦ let short : only_16_bit ≡ true = ground arith in rw (e, short) refl
    | inr e ↦
        let d = declared i values e in
        let long : only_16_bit ≡ false = ground arith in
        rw (e, long) (ap (λ n. suc (suc n)) (sixteen _ d.1))
  ]
    where
      sixteen : (xs : List ℕ) → length xs ≡ 19 → length (take 16 (drop 3 xs)) ≡ 16
      sixteen xs h = exactly 16 (drop 3 xs) (dropped 3 xs ∙ omega arith)
        where
          exactly : (n : ℕ) (xs : List ℕ) → length xs ≡ n → length (take n xs) ≡ n
          exactly zero xs h = refl
          exactly (suc n) [] h = omega arith
          exactly (suc n) (x ∷ xs) h = ap suc (exactly n xs (omega arith))

          dropped : (n : ℕ) (xs : List ℕ) → length (drop n xs) ≡ length xs - n
          dropped zero xs = omega arith
          dropped (suc n) [] = omega arith
          dropped (suc n) (x ∷ xs) = dropped n xs ∙ omega arith

  collect_lem :
      (left start : ℕ) (end : Option ℕ) (only_16_bit : Bool) (room : ℕ)
      → collect_handle_uuid_tuples v left start end only_16_bit room values ≡ (
        values,
        all_information v values
            (take (room / tuple_size only_16_bit) (listed v left start end only_16_bit)),
      )
  unfolding collect_handle_uuid_tuples
  collect_lem zero start end only_16_bit room =
      ap (λ is. (values, all_information v values is)) (sym (take_nothing _))
  collect_lem (suc left) start end only_16_bit room = elim (Bool-cases (up_to end start)) [
    | inr e ↦
        rw (collect_handle_uuid_tuples, e)
          (ap (λ is. (values, all_information v values is)) (sym (take_nothing _)))
    | inl e ↦ elim (Bool-cases (leb (tuple_size only_16_bit) room)) [
      | inr g ↦ rw (collect_handle_uuid_tuples, e, g, (division only_16_bit room).1 g) refl
      | inl g ↦ elim (Bool-cases (same only_16_bit (is_16bit_uuid v start))) [
        | inl m ↦
            rw (collect_handle_uuid_tuples, e, g, m, (division only_16_bit room).0 g)
              (rw
                (
                  tuple_lem start,
                  length-information start only_16_bit m,
                  collect_lem left (start + 1) end only_16_bit (room - tuple_size only_16_bit),
                )
                refl)
        | inr m ↦
            let whole : room - 0 ≡ room = omega arith in
            rw
              (
                collect_handle_uuid_tuples,
                e,
                g,
                m,
                whole,
                collect_lem left (start + 1) end only_16_bit room,
              )
              refl
      ]
    ]
  ]

module _ {ℓ} {S : Type ℓ} (v : Server S) (declared : IsDeclared v) (n : ℕ) (input : List ℕ)
    (values : Values S) where
  -- If declarations of values with a uuid of 128 bits have 19 bytes and do not change when they
  -- are read, a find information request that passes the check is answered by the format of its
  -- first attribute and, as many as fit, by the handles and uuids of the attributes up to the
  -- ending index with a uuid of this size, in their order.
  pub handle_find_information_request-listed :
      (starting_handle ending_handle : ℕ)
      → 2 ≤ n
      → check_size_and_handle_range v n input 5 5 ≡ passed (starting_handle, ending_handle)
      → let start : ℕ = index_of (v.first_index_by_handle starting_handle) in
        let indices : List ℕ =
          listed v
            (v.number_of_all_attributes - start)
            start
            (ending_index v ending_handle)
            (is_16bit_uuid v start) in
        handle_find_information_request v n input values ≡ (
          values,
          5
              ∷ (if is_16bit_uuid v start then 1 else 2)
              ∷ all_information v values
                  (take ((n - 2) / tuple_size (is_16bit_uuid v start)) indices),
        )
  unfolding handle_find_information_request
  handle_find_information_request-listed starting_handle ending_handle room checked =
      let start : ℕ = index_of (v.first_index_by_handle starting_handle) in
      let collected =
        collect_lem v declared values (v.number_of_all_attributes - start) start
          (ending_index v ending_handle) (is_16bit_uuid v start) (n - 2) in
      let more : (n == 1) ≡ false = ground arith in
      rw (handle_find_information_request, checked, more)
        (ap (λ (r : Values S × List ℕ). (r.0, 5 ∷ (if is_16bit_uuid v start then 1 else 2) ∷ r.1))
          collected)
