-- ===== src/Gatt/Answers.antt =====
-- bluetoe/server.hpp: what an answer to a request can be, and that it fits into the output buffer.
pub mod Reading
pub mod Finding
pub mod Writing
pub mod Any
use bluetoe.Shared.{
  ℕ, zero, suc, ◌+◌, ◌-◌, ◌*◌, ◌/◌, ◌%◌, ◌^◌, ◌≤◌, ◌<◌, ◌≡◌, refl, sym, ap, ◌∙◌, ◌⊎◌, arith, min,
  Bool, true, false, not, ◌&&◌, ◌||◌, Bool-cases, Option-cases, inl, inr, Option, none, some, List,
  [], ◌∷◌, ◌++◌, ◌==◌, if◌then◌else◌, if-elim, ltb, leb, same, length, length-append, take, drop,
}
use bluetoe.L2cap.{two_bytes, read_two}
use bluetoe.Gatt.{
  Access, read_access, Caller, Values, Accessed, success, Attribute, Server, index_by_handle,
}
use bluetoe.Gatt.ErrorCode
use bluetoe.Gatt.Checks.{
  error_response, opcode_of, Checked, passed, refused, check_size_and_handle_range,
  check_size_and_handle, check_handle,
}

-- What an access puts into the buffer of a read fits into it.
abbrev pub IsBounded {ℓ} : {S : Type ℓ} → Attribute S → Type ℓ
IsBounded {S = S} a =
    (size offset index : ℕ) (who : Caller) (values : Values S)
    → (a.access (read_access size offset) who index values).result ≡ success
    → length (a.access (read_access size offset) who index values).bytes ≤ size

-- An error response to a request.
abbrev pub IsError : ℕ → ℕ → List ℕ → Type 0
IsError n opcode answer =
    (code : ℕ) × ((handle : ℕ) × (answer ≡ error_response n opcode code handle))

-- A response with its own opcode that fits into `n` bytes.
abbrev pub IsResponse : ℕ → ℕ → List ℕ → Type 0
IsResponse n response answer =
    (body : List ℕ) × ((answer ≡ response ∷ body) × (suc (length body) ≤ n))

abbrev pub IsAnswer : ℕ → ℕ → ℕ → List ℕ → Type 0
IsAnswer n opcode response answer = IsError n opcode answer ⊎ IsResponse n response answer

pub IsAnswer-error :
    (n opcode response code handle : ℕ)
    → IsAnswer n opcode response (error_response n opcode code handle)
IsAnswer-error n opcode response code handle = inl (code, (handle, refl))

pub IsAnswer-response :
    (n opcode response : ℕ) (body : List ℕ)
    → suc (length body) ≤ n
    → IsAnswer n opcode response (response ∷ body)
IsAnswer-response n opcode response body h = inr (body, (refl, h))

pub length-take {ℓ} :
    {A : Type ℓ} (n : ℕ) (xs : List A) → (length (take n xs) ≤ n) × (length (take n xs) ≤ length xs)
length-take zero xs = (omega arith, omega arith)
length-take (suc n) [] = (omega arith, omega arith)
length-take (suc n) (x ∷ xs) = omega (arith, length-take n xs)

pub IsAnswer-length :
    (n opcode response : ℕ) (answer : List ℕ)
    → IsAnswer n opcode response answer
    → length answer ≤ n
unfolding error_response
IsAnswer-length n opcode response answer (inl (code, (handle, e))) = rw e (ground arith)
IsAnswer-length n opcode response answer (inr (body, (e, h))) = rw e h

-- A check refuses with an error response.
abbrev pub IsRefused : {A : Type 0} → ℕ → ℕ → Checked A → Type 0
IsRefused n opcode (passed a) = 0 ≤ n
IsRefused n opcode (refused answer) = IsError n opcode answer

module _ {ℓ} {S : Type ℓ} (v : Server S) (n : ℕ) (input : List ℕ) where
  pub check_size_and_handle_range-IsRefused :
      (a b : ℕ) → IsRefused n (opcode_of input) (check_size_and_handle_range v n input a b)
  unfolding check_size_and_handle_range
  check_size_and_handle_range-IsRefused a b =
      if-elim (IsRefused n (opcode_of input)) (not (length input == a) && not (length input == b))
        (λ t. (ErrorCode.invalid_pdu, (0, refl)))
        (λ f.
          if-elim (IsRefused n (opcode_of input))
            ((read_two input 1 == 0) || ltb (read_two input 3) (read_two input 1))
            (λ t. (ErrorCode.invalid_handle, (read_two input 1, refl)))
            (λ f. elim (Option-cases (v.first_index_by_handle (read_two input 1))) [
              | inl e ↦ rw e (ErrorCode.attribute_not_found, (read_two input 1, refl))
              | inr (i, e) ↦ rw e (omega arith)
            ]))

  pub check_handle-IsRefused : IsRefused n (opcode_of input) (check_handle v n input)
  unfolding check_handle
  check_handle-IsRefused =
      if-elim (IsRefused n (opcode_of input)) (read_two input 1 == 0)
        (λ t. (ErrorCode.invalid_handle, (read_two input 1, refl)))
        (λ f. elim (Option-cases (index_by_handle v (read_two input 1))) [
          | inl e ↦ rw e (ErrorCode.invalid_handle, (read_two input 1, refl))
          | inr (i, e) ↦ rw e (omega arith)
        ])

  pub check_size_and_handle-IsRefused :
      (a b : ℕ) → IsRefused n (opcode_of input) (check_size_and_handle v n input a b)
  unfolding check_size_and_handle
  check_size_and_handle-IsRefused a b =
      if-elim (IsRefused n (opcode_of input)) (not (length input == a) && not (length input == b))
        (λ t. (ErrorCode.invalid_pdu, (0, refl))) (λ f. check_handle-IsRefused)

-- After a check, its refusal is the answer, or what comes behind it.
pub after_check {ℓ} :
    {T : Type ℓ} {A : Type 0} (n opcode response : ℕ) (c : Checked A) (state : T)
    (next : A → T × List ℕ)
    → IsRefused n opcode c
    → ((a : A) → IsAnswer n opcode response (next a).1)
    → IsAnswer n opcode response
        (elim c as (λ c. T × List ℕ) [ refused answer ↦ (state, answer) | passed a ↦ next a ]).1
after_check n opcode response (passed a) state next h g = g a
after_check n opcode response (refused answer) state next h g = inl h
