-- ===== src/Pairing/Manager.antt =====
-- bluetoe/sm/include/bluetoe/security_manager.hpp: the security managers, and a connection that uses one.
use bluetoe.Shared.{
  ℕ, zero, suc, ◌++◌, ◌/◌, ◌%◌, Bool, true, false, not, Option, none, some, List, [], ◌∷◌, ◌==◌,
  if◌then◌else◌, length, get_or, replicate,
}
use bluetoe.Pairing.Data.{
  PairingData, SecurityFunctions, Device, legacy_pairing_confirmed, same_state, yes_no_response,
}
use bluetoe.Pairing.Requests.{
  error_response, invalid_parameters, command_not_supported, pairing_request, pairing_confirm,
  pairing_random, pairing_public_key, pairing_dhkey_check, pairing_failed, pairing_not_supported,
  encryption_information, central_identification, handle_pairing_request,
  legacy_handle_pairing_request, lesc_handle_pairing_request,
}
use bluetoe.Pairing.Legacy.{legacy_handle_pairing_confirm, legacy_handle_pairing_random}
use bluetoe.Pairing.Lesc.{
  lesc_handle_pairing_public_key, lesc_handle_pairing_random, lesc_handle_pairing_dhkey_check,
  lesc_security_manager_output_available, lesc_l2cap_output,
}

-- The `n` bytes of a number, the low one first: `write_16bit`, `write_64bit`.
abbrev pub bytes_of : ℕ → ℕ → List ℕ
bytes_of zero x = []
bytes_of (suc n) x = x % 256 ∷ bytes_of n (x / 256)

unfoldable pub distribute_keys : Bool → PairingData → PairingData × List ℕ
distribute_keys is_encrypted d =
    if not is_encrypted
    then (d, [])
    else if d.pending_encryption_information
    then (
      record d {
        pending_encryption_information = false;
        pending_key = record d.pending_key { longterm_key = replicate 16 0 };
      },
      encryption_information ∷ d.pending_key.longterm_key,
    )
    else if d.pending_central_identification
    then (
      record d { pending_central_identification = false },
      central_identification ∷ (bytes_of 2 d.pending_key.ediv ++ bytes_of 8 d.pending_key.rand),
    )
    else (d, [])

-- `no_security_manager`
unfoldable pub no_security_input : List ℕ → List ℕ
no_security_input input = pairing_failed ∷ pairing_not_supported ∷ []

either : {A : Type 0} (P : A → Type 0) (t : Bool) {x y : A} → P x → P y → P (if t then x else y)
either P true p q = p
either P false p q = q

module _ (f : SecurityFunctions) (v : Device) where
  -- `legacy_security_manager_impl::l2cap_input`
  unfoldable pub legacy_l2cap_input : List ℕ → PairingData → PairingData × List ℕ
  legacy_l2cap_input input d =
      let opcode : ℕ = get_or input 0 0 in
      if length input == 0
      then error_response invalid_parameters d
      else if opcode == pairing_request
      then legacy_handle_pairing_request f v input d
      else if opcode == pairing_confirm
      then legacy_handle_pairing_confirm f v input d
      else if opcode == pairing_random
      then legacy_handle_pairing_random f v input d
      else error_response command_not_supported d

  -- `lesc_security_manager_impl::l2cap_input`
  unfoldable pub lesc_l2cap_input : List ℕ → PairingData → PairingData × List ℕ
  lesc_l2cap_input input d =
      let opcode : ℕ = get_or input 0 0 in
      if length input == 0
      then error_response invalid_parameters d
      else if opcode == pairing_request
      then lesc_handle_pairing_request f v input d
      else if opcode == pairing_public_key
      then lesc_handle_pairing_public_key f v input d
      else if opcode == pairing_random
      then lesc_handle_pairing_random f v input d
      else if opcode == pairing_dhkey_check
      then lesc_handle_pairing_dhkey_check f v input d
      else error_response command_not_supported d

  -- `security_manager_impl::l2cap_input`
  unfoldable pub l2cap_input : List ℕ → PairingData → PairingData × List ℕ
  l2cap_input input d =
      let opcode : ℕ = get_or input 0 0 in
      if length input == 0
      then error_response invalid_parameters d
      else if opcode == pairing_request
      then handle_pairing_request f v input d
      else if opcode == pairing_confirm
      then legacy_handle_pairing_confirm f v input d
      else if opcode == pairing_random
      then (if same_state d.state legacy_pairing_confirmed
          then legacy_handle_pairing_random f v input d
          else lesc_handle_pairing_random f v input d)
      else if opcode == pairing_public_key
      then lesc_handle_pairing_public_key f v input d
      else if opcode == pairing_dhkey_check
      then lesc_handle_pairing_dhkey_check f v input d
      else error_response command_not_supported d

  -- What the handlers guarantee, the manager does.
  pub l2cap_input-elim :
      (P : PairingData × List ℕ → Type 0) (input : List ℕ) (d : PairingData)
      → ((code : ℕ) → P (error_response code d))
      → P (handle_pairing_request f v input d)
      → P (legacy_handle_pairing_confirm f v input d)
      → P (legacy_handle_pairing_random f v input d)
      → P (lesc_handle_pairing_random f v input d)
      → P (lesc_handle_pairing_public_key f v input d)
      → P (lesc_handle_pairing_dhkey_check f v input d)
      → P (l2cap_input input d)
  unfolding l2cap_input
  l2cap_input-elim P input d error request confirm random lesc_random public_key check =
      let opcode : ℕ = get_or input 0 0 in
      either P (length input == 0) (error 10) (
        either P (opcode == pairing_request) request (
          either P (opcode == pairing_confirm) confirm (
            either P (opcode == pairing_random)
              (either P (same_state d.state legacy_pairing_confirmed) random lesc_random)
              (either P (opcode == pairing_public_key) public_key
                (either P (opcode == pairing_dhkey_check) check (error 7))))))

  -- `security_manager_impl::l2cap_output`
  unfoldable pub l2cap_output : Bool → PairingData → PairingData × List ℕ
  l2cap_output is_encrypted d =
      if lesc_security_manager_output_available f v d
      then lesc_l2cap_output f v d
      else distribute_keys is_encrypted d

-- What happens on a connection, with the functions and the device as they are at that time.
pub data PairingEvent : Type 0 where
  input_received : SecurityFunctions → Device → List ℕ → PairingEvent
  output_wanted : SecurityFunctions → Device → Bool → PairingEvent
  user_answered : Bool → PairingEvent

-- The new state, if no `assert` fails, and the answer.
unfoldable pub pairing_step : PairingData → PairingEvent → Option (PairingData × List ℕ)
pairing_step d (input_received f v input) = some (l2cap_input f v input d)
pairing_step d (output_wanted f v is_encrypted) = some (l2cap_output f v is_encrypted d)
pairing_step d (user_answered answer) = elim (yes_no_response d answer) [
  | none ↦ none
  | some d' ↦ some (d', [])
]
