-- ===== src/Gatt/Answers/Any.antt =====
-- bluetoe/server.hpp: the answer to any request.
use bluetoe.Shared.{
  ℕ, ◌+◌, ◌/◌, ◌%◌, ◌≤◌, ◌≡◌, refl, ◌∙◌, subst, ◌⊎◌, arith, min, Bool, true, false, Bool-cases, inl,
  inr, List, [], ◌∷◌, ◌||◌, ◌==◌, if◌then◌else◌, ltb, length, get_or,
}
use bluetoe.Gatt.{Server, AttState, Link, of_client, negotiated_mtu, default_att_mtu_size}
use bluetoe.Gatt.ErrorCode
use bluetoe.Gatt.Checks.{opcode_of, error_response}
use bluetoe.Gatt.Requests.{
  Request, error, exchange_mtu, find_information, find_by_type_value, read_by_type, read, read_blob,
  read_multiple, read_by_group_type, write, write_command, prepare_write, execute_write,
  confirmation, unknown_request, request_of, handle_request, server_input,
}
use bluetoe.Gatt.Writes.{handle_write_command}
use bluetoe.Gatt.Answers.{IsBounded, IsError, IsAnswer, IsAnswer-length}
use bluetoe.Gatt.Answers.Reading.{
  handle_read_request-IsAnswer, handle_read_blob_request-IsAnswer,
  handle_read_by_type_request-IsAnswer, handle_read_multiple_request-IsAnswer,
}
use bluetoe.Gatt.Answers.Finding.{
  handle_find_information_request-IsAnswer, handle_find_by_type_value_request-IsAnswer,
  handle_read_by_group_type_request-IsAnswer,
}
use bluetoe.Gatt.Answers.Writing.{
  handle_write_request-IsAnswer, handle_prepair_write_request-IsAnswer,
  handle_execute_write_request-IsAnswer, handle_exchange_mtu_request-IsAnswer,
  handle_value_confirmation-IsError,
}

-- What a kind of request may be answered with: a response with the next opcode or an error response; nothing at all to an
-- error and to a command; nothing, or an error response, to a confirmation.
abbrev pub IsAnswerTo : ℕ → ℕ → Request → List ℕ → Type 0
IsAnswerTo n opcode error answer = answer ≡ []
IsAnswerTo n opcode write_command answer = answer ≡ []
IsAnswerTo n opcode confirmation answer = (answer ≡ []) ⊎ IsError n opcode answer
IsAnswerTo n opcode exchange_mtu answer = IsAnswer n opcode 3 answer
IsAnswerTo n opcode find_information answer = IsAnswer n opcode 5 answer
IsAnswerTo n opcode find_by_type_value answer = IsAnswer n opcode 7 answer
IsAnswerTo n opcode read_by_type answer = IsAnswer n opcode 9 answer
IsAnswerTo n opcode read answer = IsAnswer n opcode 11 answer
IsAnswerTo n opcode read_blob answer = IsAnswer n opcode 13 answer
IsAnswerTo n opcode read_multiple answer = IsAnswer n opcode 15 answer
IsAnswerTo n opcode read_by_group_type answer = IsAnswer n opcode 17 answer
IsAnswerTo n opcode write answer = IsAnswer n opcode 19 answer
IsAnswerTo n opcode prepare_write answer = IsAnswer n opcode 23 answer
IsAnswerTo n opcode execute_write answer = IsAnswer n opcode 25 answer
IsAnswerTo n opcode unknown_request answer = IsError n opcode answer

IsAnswerTo-length :
    (n opcode : ℕ) (r : Request) (answer : List ℕ)
    → IsAnswerTo n opcode r answer
    → length answer ≤ n
IsAnswerTo-length n opcode error answer h = rw h (omega arith)
IsAnswerTo-length n opcode write_command answer h = rw h (omega arith)
IsAnswerTo-length n opcode confirmation answer (inl h) = rw h (omega arith)
IsAnswerTo-length n opcode confirmation answer (inr h) = IsAnswer-length n opcode 31 answer (inl h)
IsAnswerTo-length n opcode exchange_mtu answer h = IsAnswer-length n opcode 3 answer h
IsAnswerTo-length n opcode find_information answer h = IsAnswer-length n opcode 5 answer h
IsAnswerTo-length n opcode find_by_type_value answer h = IsAnswer-length n opcode 7 answer h
IsAnswerTo-length n opcode read_by_type answer h = IsAnswer-length n opcode 9 answer h
IsAnswerTo-length n opcode read answer h = IsAnswer-length n opcode 11 answer h
IsAnswerTo-length n opcode read_blob answer h = IsAnswer-length n opcode 13 answer h
IsAnswerTo-length n opcode read_multiple answer h = IsAnswer-length n opcode 15 answer h
IsAnswerTo-length n opcode read_by_group_type answer h = IsAnswer-length n opcode 17 answer h
IsAnswerTo-length n opcode write answer h = IsAnswer-length n opcode 19 answer h
IsAnswerTo-length n opcode prepare_write answer h = IsAnswer-length n opcode 23 answer h
IsAnswerTo-length n opcode execute_write answer h = IsAnswer-length n opcode 25 answer h
IsAnswerTo-length n opcode unknown_request answer h = IsAnswer-length n opcode 0 answer (inl h)

-- An error response to the request with this opcode: the error opcode 1, the request's own opcode, a handle with the lower
-- byte first, and a code.
abbrev pub IsErrorPdu : ℕ → List ℕ → Type 0
IsErrorPdu opcode answer =
    (code : ℕ) × ((handle : ℕ) × (answer ≡ 1 ∷ opcode ∷ handle % 256 ∷ handle / 256 ∷ code ∷ []))

-- A response: its opcode is the one behind the request's.
abbrev pub IsResponsePdu : ℕ → List ℕ → Type 0
IsResponsePdu opcode answer = (body : List ℕ) × (answer ≡ (opcode + 1) ∷ body)

-- The requests with a response: to exchange the MTU (2), find information (4), find by type value (6), read by type (8), read
-- (10), read blob (12), read multiple (14), read by group type (16), write (18), prepare write (22) and execute write (24).
abbrev pub requests : List ℕ
requests = 2 ∷ 4 ∷ 6 ∷ 8 ∷ 10 ∷ 12 ∷ 14 ∷ 16 ∷ 18 ∷ 22 ∷ 24 ∷ []

abbrev pub is_one_of : ℕ → List ℕ → Bool
is_one_of opcode [] = false
is_one_of opcode (x ∷ xs) = if opcode == x then true else is_one_of opcode xs

-- What a PDU may be answered with, by its opcode: nothing to an error response (1) and to a write command (82), nothing or an
-- error response to a confirmation (30), a response or an error response to a request, an error response to all others.
abbrev pub MayAnswer : ℕ → List ℕ → Type 0
MayAnswer opcode answer =
    if (opcode == 1) || (opcode == 82)
    then answer ≡ []
    else if opcode == 30
    then (answer ≡ []) ⊎ IsErrorPdu opcode answer
    else if is_one_of opcode requests
    then IsErrorPdu opcode answer ⊎ IsResponsePdu opcode answer
    else IsErrorPdu opcode answer

error_pdu :
    (n opcode : ℕ) (answer : List ℕ) → 5 ≤ n → IsError n opcode answer → IsErrorPdu opcode answer
unfolding error_response
error_pdu n opcode answer h (code, (handle, e)) =
    let fits : ltb n 5 ≡ false = ground arith in (code, (handle, e ∙ rw fits refl))

answer_pdu :
    (n opcode : ℕ) (answer : List ℕ)
    → 5 ≤ n
    → IsAnswer n opcode (opcode + 1) answer
    → IsErrorPdu opcode answer ⊎ IsResponsePdu opcode answer
answer_pdu n opcode answer h (inl e) = inl (error_pdu n opcode answer h e)
answer_pdu n opcode answer h (inr (body, (e, fits))) = inr (body, e)

-- One opcode out of a list of tests: if it is this one, what is known of the literal.
at_opcode : (P : ℕ → Type 0) (opcode k : ℕ) → P k → ((opcode == k) ≡ false → P opcode) → P opcode
at_opcode P opcode k here others = elim (Bool-cases (opcode == k)) [
  | inl t ↦ let e : k ≡ opcode = ground arith in subst P e here
  | inr f ↦ others f
]

IsAnswerTo-MayAnswer :
    (n opcode : ℕ) (answer : List ℕ)
    → 5 ≤ n
    → IsAnswerTo n opcode (request_of opcode) answer
    → MayAnswer opcode answer
unfolding request_of
IsAnswerTo-MayAnswer n opcode answer h =
    let P : ℕ → Type 0 = λ k. IsAnswerTo n k (request_of k) answer → MayAnswer k answer in
    at_opcode P opcode 1 (λ a. a)
      (λ f1. at_opcode P opcode 2 (answer_pdu n 2 answer h) (λ f2.
        at_opcode P opcode 4 (answer_pdu n 4 answer h) (λ f4.
          at_opcode P opcode 6 (answer_pdu n 6 answer h) (λ f6.
            at_opcode P opcode 8 (answer_pdu n 8 answer h) (λ f8.
              at_opcode P opcode 10 (answer_pdu n 10 answer h) (λ f10.
                at_opcode P opcode 12 (answer_pdu n 12 answer h) (λ f12.
                  at_opcode P opcode 14 (answer_pdu n 14 answer h) (λ f14.
                    at_opcode P opcode 16 (answer_pdu n 16 answer h) (λ f16.
                      at_opcode P opcode 18 (answer_pdu n 18 answer h) (λ f18.
                        at_opcode P opcode 82 (λ a. a)
                          (λ f82. at_opcode P opcode 22 (answer_pdu n 22 answer h) (λ f22.
                            at_opcode P opcode 24 (answer_pdu n 24 answer h) (λ f24.
                              at_opcode P opcode 30 (confirmed n 30 answer h) (λ f30.
                                rw (f1, f2, f4, f6, f8, f10, f12, f14, f16, f18, f82, f22, f24, f30)
                                  (error_pdu n opcode answer h)))))))))))))))
  where
    confirmed :
        (n opcode : ℕ) (answer : List ℕ)
        → 5 ≤ n
        → (answer ≡ []) ⊎ IsError n opcode answer
        → (answer ≡ []) ⊎ IsErrorPdu opcode answer
    confirmed n opcode answer h (inl e) = inl e
    confirmed n opcode answer h (inr e) = inr (error_pdu n opcode answer h e)

module _ {ℓ} {S : Type ℓ} (v : Server S) (bounded : (i : ℕ) → IsBounded (v.attribute_at i)) where
  handle_request-IsAnswerTo :
      (r : Request) (n : ℕ) (input : List ℕ) (c : Link) (s : AttState S)
      → 3 ≤ n
      → IsAnswerTo n (opcode_of input) r (handle_request v r n input c s).1
  unfolding handle_write_command
  handle_request-IsAnswerTo error n input c s h = refl
  handle_request-IsAnswerTo write_command n input c s h = refl
  handle_request-IsAnswerTo confirmation n input c s h =
      handle_value_confirmation-IsError v n h input s
  handle_request-IsAnswerTo exchange_mtu n input c s h =
      handle_exchange_mtu_request-IsAnswer v n h input s
  handle_request-IsAnswerTo find_information n input c s h =
      handle_find_information_request-IsAnswer v n input s.values (omega arith)
  handle_request-IsAnswerTo find_by_type_value n input c s h =
      handle_find_by_type_value_request-IsAnswer v n input s.values (omega arith)
  handle_request-IsAnswerTo read_by_type n input c s h =
      handle_read_by_type_request-IsAnswer v bounded n (omega arith) input (of_client c.security)
        s.values
  handle_request-IsAnswerTo read n input c s h =
      handle_read_request-IsAnswer v bounded n (omega arith) input (of_client c.security) s.values
  handle_request-IsAnswerTo read_blob n input c s h =
      handle_read_blob_request-IsAnswer v bounded n (omega arith) input (of_client c.security)
        s.values
  handle_request-IsAnswerTo read_multiple n input c s h =
      handle_read_multiple_request-IsAnswer v bounded n (omega arith) input (of_client c.security)
        s.values
  handle_request-IsAnswerTo read_by_group_type n input c s h =
      handle_read_by_group_type_request-IsAnswer v bounded n input s.values (omega arith)
  handle_request-IsAnswerTo write n input c s h =
      handle_write_request-IsAnswer v n h input (of_client c.security) s.values
  handle_request-IsAnswerTo prepare_write n input c s h =
      handle_prepair_write_request-IsAnswer v n h input c s
  handle_request-IsAnswerTo execute_write n input c s h =
      handle_execute_write_request-IsAnswer v n h input c s
  handle_request-IsAnswerTo unknown_request n input c s h =
      (ErrorCode.request_not_supported, (0, refl))

  -- If the accesses of the attributes keep to the size of a read and the output buffer and the MTU
  -- are at least 23, every answer fits into both; the requests 2, 4, 6, 8, 10, 12, 14, 16, 18, 22
  -- and 24 are answered by a response with the next opcode or by an error response, the five bytes
  -- 1, the own opcode, a handle and a code; any other opcode by an error response, a confirmation
  -- (30) by that or not at all; a write command (82) and an error response (1) are not answered.
  pub server_input-IsAnswerTo :
      (n : ℕ) (input : List ℕ) (c : Link) (s : AttState S)
      → default_att_mtu_size ≤ min n (negotiated_mtu v s)
      → MayAnswer (get_or input 0 0) (server_input v n input c s).1
        × (length (server_input v n input c s).1 ≤ min n (negotiated_mtu v s))
  unfolding server_input
  server_input-IsAnswerTo n input c s h =
      let answer =
        handle_request-IsAnswerTo (request_of (opcode_of input)) (min n (negotiated_mtu v s)) input
          c s (omega arith) in
      (
        IsAnswerTo-MayAnswer _ _ _ (omega arith) answer,
        IsAnswerTo-length _ _ (request_of (opcode_of input)) _ answer,
      )
