-- ===== src/Pairing/Lesc.antt =====
-- bluetoe/sm/include/bluetoe/security_manager.hpp: LE secure connections after the request.
use bluetoe.Shared.{
  ℕ, Bool, true, false, not, ◌||◌, none, some, List, [], ◌∷◌, ◌==◌, if◌then◌else◌, length, drop,
  take, replicate,
}
use bluetoe.Address.{equal_bytes}
use bluetoe.IoCapabilities.{
  InputCapability, pairing_no_input, pairing_yes_no, pairing_keyboard, PairingAlgorithm, just_works,
  oob_authentication, passkey_entry_display, passkey_entry_input, numeric_comparison,
}
use bluetoe.Pairing.Data.{
  PairingData, SecurityFunctions, Device, lesc_pairing_requested, lesc_public_keys_exchanged,
  lesc_pairing_confirm_send, lesc_pairing_random_exchanged, user_response_wait,
  user_response_failed, user_response_success, same_state, public_key_exchanged,
  pairing_confirm_send, pairing_random_exchanged, lesc_pairing_completed, wait_for_user_response,
}
use bluetoe.Pairing.Requests.{
  error_response, invalid_parameters, unspecified_reason, passkey_entry_failed, dhkey_check_failed,
  pairing_confirm, pairing_random, pairing_public_key, pairing_dhkey_check, lesc_local_io_caps,
}

-- `store_lesc_key_in_bond_db`
unfoldable pub store_lesc_key : Device → List ℕ → PairingData → PairingData
store_lesc_key v key d = elim v.new_bond [
  | none ↦ d
  | some bond ↦ record d {
    stored_bonds = record { longterm_key = key; rand = 0; ediv = 0 } ∷ d.stored_bonds;
  }
]

-- `sm_pairing_request_yes_no`, with an answer that is given at once. With a keyboard, the source has no such
-- function.
unfoldable pub request_yes_no : Device → InputCapability → PairingData → PairingData
request_yes_no v pairing_no_input d = d
request_yes_no v pairing_keyboard d = d
request_yes_no v pairing_yes_no d = elim v.yes_no_answer [
  | none ↦ wait_for_user_response d
  | some answer ↦ record d {
    state = if answer then user_response_success else user_response_failed;
  }
]

abbrev pub compares_numbers : PairingAlgorithm → Bool
compares_numbers numeric_comparison = true
compares_numbers just_works = false
compares_numbers oob_authentication = false
compares_numbers passkey_entry_display = false
compares_numbers passkey_entry_input = false

abbrev pub zeros : List ℕ
zeros = replicate 16 0

module _ (f : SecurityFunctions) (v : Device) where
  unfoldable pub exchange_public_keys : List ℕ → PairingData → PairingData × List ℕ
  exchange_public_keys remote_key d =
      let (public_key, private_key) = f.generate_keys in
      (
        public_key_exchanged d private_key public_key remote_key f.select_random_nonce,
        pairing_public_key ∷ public_key,
      )

  unfoldable pub lesc_handle_pairing_public_key : List ℕ → PairingData → PairingData × List ℕ
  lesc_handle_pairing_public_key input d =
      if not (length input == 65)
      then error_response invalid_parameters d
      else if not (same_state d.state lesc_pairing_requested)
      then error_response unspecified_reason d
      else if not (f.is_valid_public_key (drop 1 input))
      then error_response invalid_parameters d
      else exchange_public_keys (drop 1 input) d

  -- The user is asked to compare numbers, if that is the algorithm.
  abbrev pub ask_user : PairingData → PairingData
  ask_user d = if compares_numbers d.lesc_algorithm then request_yes_no v v.input d else d

  unfoldable pub answer_random : PairingData → PairingData × List ℕ
  answer_random d =
      if same_state d.state user_response_failed
      then error_response passkey_entry_failed d
      else (d, pairing_random ∷ d.local_nonce)

  unfoldable pub lesc_handle_pairing_random : List ℕ → PairingData → PairingData × List ℕ
  lesc_handle_pairing_random input d =
      if not (length input == 17)
      then error_response invalid_parameters d
      else if not (same_state d.state lesc_pairing_confirm_send)
      then error_response unspecified_reason d
      else answer_random (ask_user (pairing_random_exchanged d (drop 1 input)))

  -- The MAC key and the long term key.
  abbrev pub lesc_keys : PairingData → List ℕ × List ℕ
  lesc_keys d =
      f.f5 (f.p256 d.local_private_key d.remote_public_key) d.remote_nonce d.local_nonce
        d.remote_address f.local_address

  -- The check value that the peer has to send.
  abbrev pub expected_check : PairingData → List ℕ
  expected_check d =
      f.f6 (lesc_keys d).0 d.remote_nonce d.local_nonce zeros d.remote_io_caps d.remote_address
        f.local_address

  abbrev pub local_check : PairingData → List ℕ
  local_check d =
      f.f6 (lesc_keys d).0 d.local_nonce d.remote_nonce zeros (lesc_local_io_caps v) f.local_address
        d.remote_address

  -- The check value of this device is sent, and the pairing is complete.
  unfoldable pub complete_lesc : PairingData → PairingData × List ℕ
  complete_lesc d = (
    store_lesc_key v (lesc_keys d).1 (lesc_pairing_completed d (lesc_keys d).1),
    pairing_dhkey_check ∷ local_check d,
  )

  -- `expected_states`
  abbrev pub expects_dhkey_check : PairingData → Bool
  expects_dhkey_check d =
      same_state d.state lesc_pairing_random_exchanged
      || same_state d.state user_response_wait
      || same_state d.state user_response_failed
      || same_state d.state user_response_success

  unfoldable pub verify_dhkey_check : List ℕ → PairingData → PairingData × List ℕ
  verify_dhkey_check check d =
      if not (equal_bytes (expected_check d) check)
      then error_response dhkey_check_failed d
      else complete_lesc d

  unfoldable pub lesc_handle_pairing_dhkey_check : List ℕ → PairingData → PairingData × List ℕ
  lesc_handle_pairing_dhkey_check input d =
      if not (length input == 17)
      then error_response invalid_parameters d
      else if not (expects_dhkey_check d)
      then error_response unspecified_reason d
      else if same_state d.state user_response_wait
      then (d, [])
      else if same_state d.state user_response_failed
      then error_response passkey_entry_failed d
      else verify_dhkey_check (drop 1 input) d

  unfoldable pub lesc_security_manager_output_available : PairingData → Bool
  lesc_security_manager_output_available d =
      same_state d.state lesc_public_keys_exchanged
      || same_state d.state user_response_success
      || same_state d.state user_response_failed

  -- The x coordinates are the first 32 bytes of the public keys.
  unfoldable pub lesc_l2cap_output : PairingData → PairingData × List ℕ
  lesc_l2cap_output d =
      if same_state d.state lesc_public_keys_exchanged
      then (
        pairing_confirm_send d,
        pairing_confirm
            ∷ f.f4 (take 32 d.local_public_key) (take 32 d.remote_public_key) d.local_nonce 0,
      )
      else if same_state d.state user_response_success
      then complete_lesc d
      else error_response passkey_entry_failed d
