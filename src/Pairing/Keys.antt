-- ===== src/Pairing/Keys.antt =====
-- bluetoe/sm/include/bluetoe/security_manager.hpp: on what grounds a pairing is complete.
use bluetoe.Shared.{ℕ, ◌≡◌, ◌≢◌, ◌⊎◌, arith, Bool, some, List, [], drop}
use bluetoe.Address.Same.{equal_bytes_sound}
use bluetoe.Pairing.Data.{
  pairing_completed, user_response_success, legacy_pairing_confirmed, lesc_pairing_random_exchanged,
  PairingData, SecurityFunctions, Device, same_state, yes_no_response,
}
use bluetoe.Pairing.Requests.{
  error_response, guard_request, handle_pairing_request, start_legacy, start_lesc,
}
use bluetoe.Pairing.Legacy.{
  legacy_handle_pairing_confirm, legacy_handle_pairing_random, answer_confirm, complete_legacy,
  arm_key_distribution, legacy_create_temporary_key, legacy_temporary_key,
}
use bluetoe.Pairing.Lesc.{
  lesc_handle_pairing_public_key, lesc_handle_pairing_random, lesc_handle_pairing_dhkey_check,
  answer_random, exchange_public_keys, complete_lesc, verify_dhkey_check, store_lesc_key,
  request_yes_no, lesc_security_manager_output_available, lesc_l2cap_output, lesc_keys,
  expected_check,
}
use bluetoe.Pairing.Manager.{
  l2cap_input, l2cap_input-elim, l2cap_output, PairingEvent, input_received, output_wanted,
  user_answered, pairing_step,
}
use bluetoe.Pairing.Diagram.{distribute_keys_state}

-- The three ways to a key.
pub data Grounds (d : PairingData) (key : List ℕ) : PairingEvent → Type 0 where
  -- The random value of the peer explains the confirm value that it sent before.
  confirmed :
      {f : SecurityFunctions} {v : Device} {input : List ℕ}
      → d.state ≡ legacy_pairing_confirmed
      → f.c1 (legacy_temporary_key v d) (drop 1 input) d.c1_p1 d.c1_p2 ≡ d.mconfirm
      → key ≡ f.s1 (legacy_temporary_key v d) d.srand (drop 1 input)
      → Grounds d key (input_received f v input)
  -- The peer sent the check value that belongs to the keys.
  checked :
      {f : SecurityFunctions} {v : Device} {input : List ℕ}
      → (d.state ≡ lesc_pairing_random_exchanged) ⊎ (d.state ≡ user_response_success)
      → expected_check f v d ≡ drop 1 input
      → key ≡ (lesc_keys f v d).1
      → Grounds d key (input_received f v input)
  -- The user has agreed.
  agreed :
      {f : SecurityFunctions} {v : Device} {is_encrypted : Bool}
      → d.state ≡ user_response_success
      → key ≡ (lesc_keys f v d).1
      → Grounds d key (output_wanted f v is_encrypted)

-- A completed pairing stands on one of them.
abbrev pub IsGrounded : PairingData → PairingEvent → PairingData → Type 0
IsGrounded d e d' = (d'.state ≢ pairing_completed) ⊎ Grounds d d'.long_term_key e

module _ (f : SecurityFunctions) (v : Device) (input : List ℕ) (d : PairingData) where
  abbrev Justified : PairingData × List ℕ → Type 0
  Justified r = IsGrounded d (input_received f v input) r.0

  request-Justified : Justified (handle_pairing_request f v input d)
  unfolding handle_pairing_request guard_request start_legacy start_lesc error_response
  request-Justified = grind (arith)

  confirm-Justified : Justified (legacy_handle_pairing_confirm f v input d)
  unfolding legacy_handle_pairing_confirm answer_confirm legacy_create_temporary_key error_response
  confirm-Justified = grind (arith)

  complete_legacy_key :
      (mrand : List ℕ)
      → (complete_legacy f v mrand d).0.long_term_key
        ≡ f.s1 (legacy_temporary_key v d) d.srand mrand
  unfolding complete_legacy arm_key_distribution
  complete_legacy_key mrand = ground arith

  legacy_random-Justified : Justified (legacy_handle_pairing_random f v input d)
  unfolding legacy_handle_pairing_random error_response same_state
  legacy_random-Justified =
      grind (arith, confirmed, complete_legacy_key (drop 1 input), equal_bytes_sound)

  public_key-Justified : Justified (lesc_handle_pairing_public_key f v input d)
  unfolding lesc_handle_pairing_public_key exchange_public_keys error_response
  public_key-Justified = grind (arith)

  lesc_random-Justified : Justified (lesc_handle_pairing_random f v input d)
  unfolding lesc_handle_pairing_random answer_random request_yes_no error_response
  lesc_random-Justified = grind (arith)

  complete_lesc_key : (complete_lesc f v d).0.long_term_key ≡ (lesc_keys f v d).1
  unfolding complete_lesc store_lesc_key
  complete_lesc_key = ground arith

  dhkey_check-Justified :
      d.state ≢ pairing_completed → Justified (lesc_handle_pairing_dhkey_check f v input d)
  unfolding lesc_handle_pairing_dhkey_check verify_dhkey_check error_response same_state
  dhkey_check-Justified h = grind (arith, checked, complete_lesc_key, equal_bytes_sound)

  error-Justified : (code : ℕ) → Justified (error_response code d)
  unfolding error_response
  error-Justified code = grind (arith)

  l2cap_input-Justified : d.state ≢ pairing_completed → Justified (l2cap_input f v input d)
  l2cap_input-Justified h =
      l2cap_input-elim f v Justified input d error-Justified request-Justified confirm-Justified
        legacy_random-Justified lesc_random-Justified public_key-Justified (dhkey_check-Justified h)

l2cap_output-IsGrounded :
    (f : SecurityFunctions) (v : Device) (is_encrypted : Bool) (d : PairingData)
    → d.state ≢ pairing_completed
    → IsGrounded d (output_wanted f v is_encrypted) (l2cap_output f v is_encrypted d).0
unfolding l2cap_output lesc_security_manager_output_available lesc_l2cap_output error_response
    same_state
l2cap_output-IsGrounded f v is_encrypted d h =
    grind (arith, agreed, complete_lesc_key f v [] d, distribute_keys_state is_encrypted d)

-- If a pairing becomes complete in a step, either the random value of the peer explains the
-- confirm value it sent before and the key is the s1 of both random values, or the peer sent the
-- check value that belongs to the keys, or the user had agreed; in the last two cases the key is
-- the one that f5 derives.
pub pairing_step-IsGrounded :
    (d d' : PairingData) (e : PairingEvent) (answer : List ℕ)
    → d.state ≢ pairing_completed
    → pairing_step d e ≡ some (d', answer)
    → IsGrounded d e d'
unfolding pairing_step yes_no_response
pairing_step-IsGrounded d d' (input_received f v input) answer n h =
    grind (arith, l2cap_input-Justified f v input d n)
pairing_step-IsGrounded d d' (output_wanted f v is_encrypted) answer n h =
    grind (arith, l2cap_output-IsGrounded f v is_encrypted d n)
pairing_step-IsGrounded d d' (user_answered response) answer n h = grind (arith)
