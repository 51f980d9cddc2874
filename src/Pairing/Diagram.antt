-- ===== src/Pairing/Diagram.antt =====
-- bluetoe/sm/include/bluetoe/security_manager.hpp: the state diagram of pairing.
use bluetoe.Shared.{ℕ, ◌≡◌, arith, Bool, true, some, List}
use bluetoe.Pairing.Data.{
  PairingState, idle, pairing_completed, user_response_wait, user_response_failed,
  user_response_success, legacy_pairing_requested, legacy_pairing_confirmed, lesc_pairing_requested,
  lesc_public_keys_exchanged, lesc_pairing_confirm_send, lesc_pairing_random_exchanged, PairingData,
  SecurityFunctions, Device, same_state, yes_no_response,
}
use bluetoe.Pairing.Requests.{
  error_response, guard_request, handle_pairing_request, start_legacy, start_lesc,
}
use bluetoe.Pairing.Legacy.{
  legacy_handle_pairing_confirm, legacy_handle_pairing_random, answer_confirm, complete_legacy,
  arm_key_distribution, legacy_create_temporary_key,
}
use bluetoe.Pairing.Lesc.{
  lesc_handle_pairing_public_key, lesc_handle_pairing_random, lesc_handle_pairing_dhkey_check,
  answer_random, exchange_public_keys, complete_lesc, verify_dhkey_check, store_lesc_key,
  request_yes_no, lesc_security_manager_output_available, lesc_l2cap_output,
}
use bluetoe.Pairing.Manager.{
  l2cap_input, l2cap_input-elim, l2cap_output, distribute_keys, PairingEvent, input_received,
  output_wanted, user_answered, pairing_step,
}

infix 40 ◌⟶◌
pub data ◌⟶◌ : PairingState → PairingState → Type 0 where
  stay : {s : PairingState} → s ⟶ s
  give_up : {s : PairingState} → s ⟶ idle
  request_legacy : idle ⟶ legacy_pairing_requested
  confirm_legacy : legacy_pairing_requested ⟶ legacy_pairing_confirmed
  finish_legacy : legacy_pairing_confirmed ⟶ pairing_completed
  request_lesc : idle ⟶ lesc_pairing_requested
  exchange_keys : lesc_pairing_requested ⟶ lesc_public_keys_exchanged
  send_confirm : lesc_public_keys_exchanged ⟶ lesc_pairing_confirm_send
  exchange_random : lesc_pairing_confirm_send ⟶ lesc_pairing_random_exchanged
  ask : lesc_pairing_confirm_send ⟶ user_response_wait
  agree_at_once : lesc_pairing_confirm_send ⟶ user_response_success
  agree : user_response_wait ⟶ user_response_success
  refuse : user_response_wait ⟶ user_response_failed
  finish_lesc : lesc_pairing_random_exchanged ⟶ pairing_completed
  finish_agreed : user_response_success ⟶ pairing_completed

pub same_state_sound : (a b : PairingState) → same_state a b ≡ true → a ≡ b
unfolding same_state
same_state_sound a b h = ground arith

-- To where a handler may lead from a state.
abbrev pub Leads : PairingState → PairingData × List ℕ → Type 0
Leads s r = s ⟶ r.0.state

pub distribute_keys_state :
    (is_encrypted : Bool) (d : PairingData) → (distribute_keys is_encrypted d).0.state ≡ d.state
unfolding distribute_keys
distribute_keys_state is_encrypted d = ground arith

module _ (f : SecurityFunctions) (v : Device) where
  handle_pairing_request-Leads :
      (input : List ℕ) (d : PairingData) → Leads d.state (handle_pairing_request f v input d)
  unfolding handle_pairing_request guard_request start_legacy start_lesc error_response same_state
  handle_pairing_request-Leads input d = grind (arith, stay, give_up, request_legacy, request_lesc)

  legacy_handle_pairing_confirm-Leads :
      (input : List ℕ) (d : PairingData) → Leads d.state (legacy_handle_pairing_confirm f v input d)
  unfolding legacy_handle_pairing_confirm answer_confirm legacy_create_temporary_key error_response
      same_state
  legacy_handle_pairing_confirm-Leads input d = grind (arith, give_up, confirm_legacy)

  legacy_handle_pairing_random-Leads :
      (input : List ℕ) (d : PairingData) → Leads d.state (legacy_handle_pairing_random f v input d)
  unfolding legacy_handle_pairing_random complete_legacy arm_key_distribution error_response
      same_state
  legacy_handle_pairing_random-Leads input d = grind (arith, give_up, finish_legacy)

  lesc_handle_pairing_public_key-Leads :
      (input : List ℕ) (d : PairingData)
      → Leads d.state (lesc_handle_pairing_public_key f v input d)
  unfolding lesc_handle_pairing_public_key exchange_public_keys error_response same_state
  lesc_handle_pairing_public_key-Leads input d = grind (arith, give_up, exchange_keys)

  lesc_handle_pairing_random-Leads :
      (input : List ℕ) (d : PairingData) → Leads d.state (lesc_handle_pairing_random f v input d)
  unfolding lesc_handle_pairing_random answer_random request_yes_no error_response same_state
  lesc_handle_pairing_random-Leads input d =
      grind (arith, give_up, exchange_random, ask, agree_at_once)

  complete_lesc-Leads : (d : PairingData) → (complete_lesc f v d).0.state ≡ pairing_completed
  unfolding complete_lesc store_lesc_key
  complete_lesc-Leads d = ground arith

  lesc_handle_pairing_dhkey_check-Leads :
      (input : List ℕ) (d : PairingData)
      → Leads d.state (lesc_handle_pairing_dhkey_check f v input d)
  unfolding lesc_handle_pairing_dhkey_check verify_dhkey_check error_response same_state
  lesc_handle_pairing_dhkey_check-Leads input d =
      grind (arith, stay, give_up, finish_lesc, finish_agreed, complete_lesc-Leads d)

  l2cap_input-Leads : (input : List ℕ) (d : PairingData) → Leads d.state (l2cap_input f v input d)
  unfolding error_response
  l2cap_input-Leads input d =
      l2cap_input-elim f v (Leads d.state) input d (λ code. give_up)
        (handle_pairing_request-Leads input d) (legacy_handle_pairing_confirm-Leads input d)
        (legacy_handle_pairing_random-Leads input d) (lesc_handle_pairing_random-Leads input d)
        (lesc_handle_pairing_public_key-Leads input d)
        (lesc_handle_pairing_dhkey_check-Leads input d)

  l2cap_output-Leads :
      (is_encrypted : Bool) (d : PairingData) → Leads d.state (l2cap_output f v is_encrypted d)
  unfolding l2cap_output lesc_security_manager_output_available lesc_l2cap_output error_response
      same_state
  l2cap_output-Leads is_encrypted d = grind (
    arith,
    stay,
    give_up,
    send_confirm,
    finish_agreed,
    complete_lesc-Leads d,
    distribute_keys_state is_encrypted d,
  )

-- Whatever a peer sends, whenever output is asked for and whatever the user answers, the state of
-- pairing only follows the diagram of legacy pairing and LE secure connections: it stays, is given
-- up, or takes one of its thirteen further transitions.
pub pairing_step-⟶ :
    (d d' : PairingData) (e : PairingEvent) (answer : List ℕ)
    → pairing_step d e ≡ some (d', answer)
    → d.state ⟶ d'.state
unfolding pairing_step yes_no_response same_state
pairing_step-⟶ d d' (input_received f v input) answer h =
    grind (arith, l2cap_input-Leads f v input d)
pairing_step-⟶ d d' (output_wanted f v is_encrypted) answer h =
    grind (arith, l2cap_output-Leads f v is_encrypted d)
pairing_step-⟶ d d' (user_answered response) answer h = grind (arith, agree, refuse)
