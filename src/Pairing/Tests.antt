-- ===== src/Pairing/Tests.antt =====
-- Witnesses and tests for pairing.
use bluetoe.Shared.{
  ℕ, ◌≡◌, refl, true, false, Option, none, some, ◌==◌, if◌then◌else◌, List, [], ◌∷◌, replicate,
  drop, get_or, arith,
}
use bluetoe.Address.{DeviceAddress, equal_bytes}
use bluetoe.IoCapabilities.{just_works, oob_authentication, pairing_no_input, pairing_no_output}
use bluetoe.Pairing.Data.{
  PairingState, idle, pairing_completed, user_response_wait, lesc_pairing_random_exchanged,
  legacy_pairing_confirmed, lesc_pairing_confirm_send, PairingData, SecurityFunctions, Device,
  same_state, unauthenticated_key, no_key, find_key, bonded_find_key, local_device_pairing_status,
}
use bluetoe.Pairing.Requests.{error_response, pairing_failed}
use bluetoe.Pairing.Legacy.{
  legacy_handle_pairing_random, complete_legacy, arm_key_distribution, legacy_temporary_key,
}
use bluetoe.Pairing.Lesc.{lesc_handle_pairing_random, answer_random, lesc_keys, expected_check}
use bluetoe.Pairing.Manager.{pairing_step, input_received, l2cap_input}
use bluetoe.Pairing.Diagram.{◌⟶◌, pairing_step-⟶}
use bluetoe.Pairing.Keys.{IsGrounded, pairing_step-IsGrounded}
use bluetoe.Pairing.Errors.{
  l2cap_input_failure, bond_of, after_random, run_events, checks_then_yes, agreed_without_check,
}

abbrev peer : DeviceAddress
peer = record { value = 1 ∷ 2 ∷ 3 ∷ 4 ∷ 5 ∷ 6 ∷ []; is_random = true }

abbrev here : DeviceAddress
here = record { value = 6 ∷ 5 ∷ 4 ∷ 3 ∷ 2 ∷ 1 ∷ []; is_random = false }

-- The confirm value is the random value itself.
abbrev functions : SecurityFunctions
functions = record {
  local_address = here;
  create_srand = replicate 16 1;
  create_passkey = replicate 16 2;
  c1 = λ key random p1 p2. random;
  s1 = λ key local remote. remote;
  is_valid_public_key = λ key. true;
  generate_keys = (replicate 64 3, replicate 32 4);
  select_random_nonce = replicate 16 5;
  p256 = λ private public. private;
  f4 = λ u w x z. x;
  f5 = λ secret remote local a b. (remote, local);
  f6 = λ key n1 n2 r caps a b. n1;
}

abbrev device : Device
device = record {
  input = pairing_no_input;
  output = pairing_no_output;
  authentication_requirements_flags = 0;
  request_key_flags = 0;
  entered_passkey = 0;
  yes_no_answer = none;
  oob_data = none;
  new_bond = none;
}

abbrev connection_in : PairingState → PairingData
connection_in s = record {
  state = s;
  remote_address = peer;
  long_term_key = [];
  pairing_status = no_key;
  legacy_algorithm = just_works;
  c1_p1 = [];
  c1_p2 = [];
  srand = replicate 16 1;
  mconfirm = replicate 16 9;
  passkey = [];
  lesc_algorithm = oob_authentication;
  local_private_key = replicate 32 4;
  local_public_key = replicate 64 3;
  remote_public_key = replicate 64 7;
  local_nonce = replicate 16 5;
  remote_nonce = replicate 16 6;
  remote_io_caps = 3 ∷ 1 ∷ 8 ∷ [];
  pending_encryption_information = true;
  pending_central_identification = true;
  pending_key = record { longterm_key = replicate 16 8; rand = 77; ediv = 258 };
  stored_bonds = [];
}

abbrev random_input : List ℕ
random_input = 4 ∷ replicate 16 9

abbrev completed : PairingData
completed = record (connection_in legacy_pairing_confirmed) {
  state = pairing_completed;
  long_term_key = replicate 16 9;
  pairing_status = unauthenticated_key;
}

random_completes :
    pairing_step
      (connection_in legacy_pairing_confirmed)
      (input_received functions device random_input)
    ≡ some (completed, 4 ∷ replicate 16 1)
unfolding pairing_step l2cap_input legacy_handle_pairing_random complete_legacy arm_key_distribution
    same_state error_response legacy_temporary_key equal_bytes
random_completes = refl

pairing_step-⟶_example : legacy_pairing_confirmed ⟶ pairing_completed
pairing_step-⟶_example =
    pairing_step-⟶ (connection_in legacy_pairing_confirmed) completed
      (input_received functions device random_input) (4 ∷ replicate 16 1) random_completes

pairing_step-IsGrounded_example :
    IsGrounded
      (connection_in legacy_pairing_confirmed)
      (input_received functions device random_input)
      completed
pairing_step-IsGrounded_example =
    pairing_step-IsGrounded (connection_in legacy_pairing_confirmed) completed
      (input_received functions device random_input) (4 ∷ replicate 16 1) (grind (arith))
      random_completes

-- A random value that does not belong to the confirm value.
abbrev wrong_input : List ℕ
wrong_input = 4 ∷ replicate 16 10

wrong_input_fails :
    get_or (l2cap_input functions device wrong_input (connection_in legacy_pairing_confirmed)).1 0 0
    ≡ pairing_failed
unfolding l2cap_input legacy_handle_pairing_random same_state error_response legacy_temporary_key
    equal_bytes
wrong_input_fails = refl

-- A data base with one key.
abbrev bonds : Option (ℕ → ℕ → DeviceAddress → Option (List ℕ))
bonds = some (λ ediv rand peer. if ediv == 5 then some (7 ∷ []) else none)

l2cap_input_failure_example :
    let failed : PairingData =
      (l2cap_input functions device wrong_input (connection_in legacy_pairing_confirmed)).0 in
    (failed.state ≡ idle)
    × (bonded_find_key bonds failed 5 0 ≡ bond_of bonds 5 0 failed.remote_address)
    × (local_device_pairing_status failed ≡ no_key)
l2cap_input_failure_example =
    l2cap_input_failure functions device wrong_input (connection_in legacy_pairing_confirmed) 5 0
      bonds wrong_input_fails

abbrev check_input : List ℕ
check_input = 13 ∷ replicate 16 9

check_fits :
    expected_check functions device
      (after_random functions device random_input (connection_in lesc_pairing_confirm_send))
    ≡ drop 1 check_input
unfolding lesc_handle_pairing_random answer_random same_state error_response
check_fits = refl

abbrev bonded : PairingData
bonded = connection_in pairing_completed

-- The peer's check value would be its random value; it sends two others.
agreed_without_check_example :
    let waiting : PairingData = connection_in user_response_wait in
    let other : List ℕ = replicate 16 9 in
    (run_events
        (record waiting { state = lesc_pairing_random_exchanged })
        (input_received functions device (13 ∷ other) ∷ [])
      ≡ some (record waiting { state = idle }))
    × (done : PairingData) × (run_events waiting
          (checks_then_yes functions device false (other ∷ (replicate 16 0) ∷ []))
        ≡ some done)
    × (done.state ≡ pairing_completed)
    × (find_key done 0 0 ≡ some (lesc_keys functions device waiting).1)
agreed_without_check_example =
    agreed_without_check functions device (connection_in user_response_wait) false (replicate 16 9)
      (replicate 16 0 ∷ []) refl refl (refl, omega arith) (ground arith)
