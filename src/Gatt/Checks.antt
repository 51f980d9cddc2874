-- ===== src/Gatt/Checks.antt =====
-- bluetoe/server.hpp: error responses, and what every handler checks first.
use bluetoe.Shared.{
  ℕ, ◌/◌, ◌%◌, not, ◌&&◌, ◌||◌, none, some, List, [], ◌∷◌, ◌==◌, if◌then◌else◌, ltb, length, get_or,
}
use bluetoe.L2cap.{read_two}
use bluetoe.Gatt.{Server, index_by_handle}
use bluetoe.Gatt.ErrorCode

-- With room for 5 bytes; the handle has 16 bits.
unfoldable pub error_response : ℕ → ℕ → ℕ → ℕ → List ℕ
error_response n opcode error_code handle =
    if ltb n 5 then [] else 1 ∷ opcode ∷ handle % 256 ∷ handle / 256 ∷ error_code ∷ []

-- Results of 16 bits that are no code of 8 bits give the default.
unfoldable pub access_result_to_att_code : ℕ → ℕ → ℕ
access_result_to_att_code access_code default_att_code =
    if access_code % 256 == access_code then access_code else default_att_code

-- `*input`
abbrev pub opcode_of : List ℕ → ℕ
opcode_of input = get_or input 0 0

-- What a check gives: what it has read, or the response.
pub data Checked (A : Type 0) : Type 0 where
  passed : A → Checked A
  refused : List ℕ → Checked A

module _ {ℓ} {S : Type ℓ} (v : Server S) (n : ℕ) (input : List ℕ) where
  unfoldable pub check_size_and_handle_range : ℕ → ℕ → Checked (ℕ × ℕ)
  check_size_and_handle_range a b =
      let starting_handle : ℕ = read_two input 1 in
      let ending_handle : ℕ = read_two input 3 in
      if not (length input == a) && not (length input == b)
      then refused (error_response n (opcode_of input) ErrorCode.invalid_pdu 0)
      else if (starting_handle == 0) || ltb ending_handle starting_handle
      then refused (error_response n (opcode_of input) ErrorCode.invalid_handle starting_handle)
      else elim (v.first_index_by_handle starting_handle) [
        | none ↦
            refused
              (error_response n (opcode_of input) ErrorCode.attribute_not_found starting_handle)
        | some i ↦ passed (starting_handle, ending_handle)
      ]

  -- The handle and its index.
  unfoldable pub check_handle : Checked (ℕ × ℕ)
  check_handle =
      let handle : ℕ = read_two input 1 in
      if handle == 0
      then refused (error_response n (opcode_of input) ErrorCode.invalid_handle handle)
      else elim (index_by_handle v handle) [
        | none ↦ refused (error_response n (opcode_of input) ErrorCode.invalid_handle handle)
        | some i ↦ passed (handle, i)
      ]

  unfoldable pub check_size_and_handle : ℕ → ℕ → Checked (ℕ × ℕ)
  check_size_and_handle a b =
      if not (length input == a) && not (length input == b)
      then refused (error_response n (opcode_of input) ErrorCode.invalid_pdu 0)
      else check_handle
