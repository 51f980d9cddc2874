-- ===== src/Gatt/LongRead.antt =====
-- bluetoe/server.hpp: a long value, which is read in parts.
use bluetoe.Shared.{
  ℕ, zero, suc, ◌+◌, ◌-◌, ◌^◌, ◌≤◌, ◌<◌, ◌≡◌, refl, sym, ap, ◌∙◌, arith, min, false, Bool-cases,
  inl, inr, some, List, [], ◌∷◌, ◌++◌, ◌==◌, if◌then◌else◌, ltb, length, take, drop, get_or,
}
use bluetoe.L2cap.{two_bytes, read_two}
use bluetoe.Gatt.{
  read_access, Caller, Values, Accessed, success, Attribute, Server, access_at, index_by_handle,
}
use bluetoe.Gatt.Checks.{passed, check_handle, check_size_and_handle}
use bluetoe.Gatt.Reads.{read_response, handle_read_blob_request}
use bluetoe.Gatt.BoundValue.{
  read_memory, attribute_value_read_access, attribute_value_read_only_access, value_attribute,
}

-- A read blob request for a handle and an offset of 16 bits.
abbrev pub read_blob_request : ℕ → ℕ → List ℕ
read_blob_request handle offset = 12 ∷ (two_bytes handle ++ two_bytes offset)

-- What a client does to read a whole value: request by request, as long as the responses are full.
unfoldable pub read_long : (List ℕ → List ℕ) → ℕ → ℕ → ℕ → ℕ → List ℕ
read_long server size handle zero offset = []
read_long server size handle (suc fuel) offset =
    let part : List ℕ = drop 1 (server (read_blob_request handle offset)) in
    let rest = read_long server size handle fuel (offset + length part) in
    if ltb (length part) size then part else part ++ rest

length-take-min : (n : ℕ) (xs : List ℕ) → length (take (min n (length xs)) xs) ≡ min n (length xs)
length-take-min n [] = let e : min n 0 ≡ 0 = omega arith in rw e refl
length-take-min zero (x ∷ xs) = let e : min 0 (suc (length xs)) ≡ 0 = omega arith in rw e refl
length-take-min (suc n) (x ∷ xs) =
    let e : min (suc n) (suc (length xs)) ≡ suc (min n (length xs)) = omega arith in
    rw e (ap suc (length-take-min n xs))

take_all : (n : ℕ) (xs : List ℕ) → length xs ≤ n → take n xs ≡ xs
take_all zero [] h = refl
take_all zero (x ∷ xs) h = absurd (omega arith)
take_all (suc n) [] h = refl
take_all (suc n) (x ∷ xs) h = ap (λ rest. x ∷ rest) (take_all n xs (omega arith))

take-drop : (n : ℕ) (xs : List ℕ) → take n xs ++ drop n xs ≡ xs
take-drop zero xs = refl
take-drop (suc n) [] = refl
take-drop (suc n) (x ∷ xs) = ap (λ rest. x ∷ rest) (take-drop n xs)

drop_nothing : (n : ℕ) → drop {A = ℕ} n [] ≡ []
drop_nothing zero = refl
drop_nothing (suc n) = refl

drop-drop : (m n : ℕ) (xs : List ℕ) → drop m (drop n xs) ≡ drop (n + m) xs
drop-drop m zero xs = let e : 0 + m ≡ m = omega arith in rw e refl
drop-drop m (suc n) [] = drop_nothing m ∙ sym (drop_nothing (suc n + m))
drop-drop m (suc n) (x ∷ xs) =
    let e : suc n + m ≡ suc (n + m) = omega arith in rw e (drop-drop m n xs)

length-drop : (n : ℕ) (xs : List ℕ) → length (drop n xs) ≡ length xs - n
length-drop zero xs = omega arith
length-drop (suc n) [] = omega arith
length-drop (suc n) (x ∷ xs) = length-drop n xs ∙ omega arith

module _ {ℓ} {S : Type ℓ} (v : Server S) (n handle index uuid : ℕ) (memory : List ℕ) (who : Caller)
    (values : Values S) where
  blob_lem :
      (input : List ℕ) (offset : ℕ)
      → length input ≡ 5
      → read_two input 1 ≡ handle
      → read_two input 3 ≡ offset
      → 0 < handle
      → index_by_handle v handle ≡ some index
      → v.attribute_at index ≡ value_attribute memory uuid
      → offset ≤ length memory
      → handle_read_blob_request v n input who values
        ≡ (values, 13 ∷ take (min (n - 1) (length memory - offset)) (drop offset memory))
  unfolding handle_read_blob_request check_size_and_handle check_handle read_response
      attribute_value_read_access attribute_value_read_only_access read_memory
  blob_lem input offset five handle_read offset_read known found value inside =
      let valid : (handle == 0) ≡ false = ground arith in
      let within : ltb (length memory) offset ≡ false = ground arith in
      let checked : check_size_and_handle v n input 5 5 ≡ passed (handle, index) =
        rw (check_size_and_handle, five, check_handle, handle_read, valid, found)
          (ap (λ h. passed (h, index)) handle_read) in
      let part : List ℕ = take (min (n - 1) (length memory - offset)) (drop offset memory) in
      let read : Accessed S = record { result = success; bytes = part; values = values } in
      let read_here : read_memory memory (n - 1) offset values ≡ read =
        rw (read_memory, within) refl in
      let accessed : access_at v index (read_access (n - 1) offset) who values ≡ read =
        ap (λ (a : Attribute S). a.access (read_access (n - 1) offset) who index values) value
        ∙ read_here in
      rw (handle_read_blob_request, checked, offset_read)
        (ap (read_response n (get_or input 0 0) 13 handle) accessed)

  -- A client that reads an attribute with a constant value by read blob requests, each from where
  -- the last response ended until one is not full, has read the value from its first offset on;
  -- one more request than there are bytes is enough.
  pub read_long_lem :
      (fuel offset : ℕ)
      → handle < 2 ^ 16
      → 0 < handle
      → 2 ≤ n
      → length memory < 2 ^ 16
      → index_by_handle v handle ≡ some index
      → v.attribute_at index ≡ value_attribute memory uuid
      → offset ≤ length memory
      → length memory < offset + fuel
      → read_long
          (λ input. (handle_read_blob_request v n input who values).1)
          (n - 1)
          handle
          fuel
          offset
        ≡ drop offset memory
  unfolding read_long
  read_long_lem zero offset wide known room small found value inside enough = absurd (omega arith)
  read_long_lem (suc fuel) offset wide known room small found value inside enough =
      let size : ℕ = n - 1 in
      let left : length (drop offset memory) ≡ length memory - offset = length-drop offset memory in
      let answer =
        blob_lem (read_blob_request handle offset) offset refl (omega arith) (omega arith) known
          found value inside in
      let part : List ℕ = take (min size (length memory - offset)) (drop offset memory) in
      let got : length part ≡ min size (length memory - offset) =
        ap (λ k. length (take (min size k) (drop offset memory))) (sym left)
        ∙ length-take-min size (drop offset memory)
        ∙ ap (min size) left in
      elim (Bool-cases (ltb (length part) size)) [
        | inl e ↦
            let all : part ≡ drop offset memory = take_all _ (drop offset memory) (ground arith) in
            rw (read_long, answer, e) all
        | inr e ↦
            let rest =
              read_long_lem fuel (offset + length part) wide known room small found value
                (ground arith) (ground arith) in
            let there : drop (offset + length part) memory
                ≡ drop (min size (length memory - offset)) (drop offset memory) =
              rw got (sym (drop-drop _ offset memory)) in
            rw (read_long, answer, e)
              (ap (λ xs. part ++ xs) (rest ∙ there)
                ∙ take-drop (min size (length memory - offset)) (drop offset memory))
      ]
