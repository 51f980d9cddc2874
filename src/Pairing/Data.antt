-- ===== src/Pairing/Data.antt =====
-- bluetoe/sm/include/bluetoe/security_connection_data.hpp: `security_connection_data`, the state of pairing of one
-- connection, and the bonding data of security_manager.hpp beside it that belongs to the connection.
-- Keys, nonces and values of 128 bits are lists of bytes. The fields that share memory in a union are
-- fields of their own.
use bluetoe.Shared.{ℕ, Bool, true, false, not, ◌&&◌, Option, none, some, List, ◌==◌, if◌then◌else◌}
use bluetoe.Address.{DeviceAddress}
use bluetoe.IoCapabilities.{
  PairingAlgorithm, just_works, oob_authentication, passkey_entry_display, passkey_entry_input,
  numeric_comparison, InputCapability, OutputCapability,
}

-- `sm_pairing_state`
pub data PairingState : Type 0 where
  idle : PairingState
  pairing_completed : PairingState
  user_response_wait : PairingState
  user_response_failed : PairingState
  user_response_success : PairingState
  legacy_pairing_requested : PairingState
  legacy_pairing_confirmed : PairingState
  lesc_pairing_requested : PairingState
  lesc_public_keys_exchanged : PairingState
  lesc_pairing_confirm_send : PairingState
  lesc_pairing_random_exchanged : PairingState

-- `device_pairing_status`
pub data DevicePairingStatus : Type 0 where
  no_key : DevicePairingStatus
  unauthenticated_key : DevicePairingStatus
  authenticated_key : DevicePairingStatus
  authenticated_key_with_secure_connection : DevicePairingStatus

-- `longterm_key_t`
pub record LongtermKey : Type 0 where
  pub longterm_key : List ℕ
  pub rand : ℕ
  pub ediv : ℕ

pub record PairingData : Type 0 where
  pub state : PairingState
  pub remote_address : DeviceAddress
  pub long_term_key : List ℕ
  pub pairing_status : DevicePairingStatus
  pub legacy_algorithm : PairingAlgorithm
  pub c1_p1 : List ℕ
  pub c1_p2 : List ℕ
  pub srand : List ℕ
  pub mconfirm : List ℕ
  pub passkey : List ℕ
  pub lesc_algorithm : PairingAlgorithm
  pub local_private_key : List ℕ
  pub local_public_key : List ℕ
  pub remote_public_key : List ℕ
  pub local_nonce : List ℕ
  pub remote_nonce : List ℕ
  pub remote_io_caps : List ℕ
  pub pending_encryption_information : Bool
  pub pending_central_identification : Bool
  pub pending_key : LongtermKey
  -- What was handed to the bonding data base, the last first.
  pub stored_bonds : List LongtermKey

-- The functions that the hardware binding provides, with the random values of one call.
pub record SecurityFunctions : Type 0 where
  pub local_address : DeviceAddress
  pub create_srand : List ℕ
  pub create_passkey : List ℕ
  pub c1 : List ℕ → List ℕ → List ℕ → List ℕ → List ℕ
  pub s1 : List ℕ → List ℕ → List ℕ → List ℕ
  pub is_valid_public_key : List ℕ → Bool
  -- The public key, then the private key.
  pub generate_keys : List ℕ × List ℕ
  pub select_random_nonce : List ℕ
  pub p256 : List ℕ → List ℕ → List ℕ
  pub f4 : List ℕ → List ℕ → List ℕ → ℕ → List ℕ
  -- The MAC key, then the long term key.
  pub f5 : List ℕ → List ℕ → List ℕ → DeviceAddress → DeviceAddress → List ℕ × List ℕ
  pub f6 : List ℕ → List ℕ → List ℕ → List ℕ → List ℕ → DeviceAddress → DeviceAddress → List ℕ

-- The options of the device and what its application answers.
pub record Device : Type 0 where
  pub input : InputCapability
  pub output : OutputCapability
  pub authentication_requirements_flags : ℕ
  pub request_key_flags : ℕ
  -- What `sm_pairing_passkey` of the application returns.
  pub entered_passkey : ℕ
  -- What the application answers within `sm_pairing_yes_no`, if it answers at once.
  pub yes_no_answer : Option Bool
  -- What the out of band callback returned for the peer.
  pub oob_data : Option (List ℕ)
  -- The key that `create_new_bond` returns, if there is a bonding data base.
  pub new_bond : Option LongtermKey

unfoldable pub same_state : PairingState → PairingState → Bool
same_state idle idle = true
same_state pairing_completed pairing_completed = true
same_state user_response_wait user_response_wait = true
same_state user_response_failed user_response_failed = true
same_state user_response_success user_response_success = true
same_state legacy_pairing_requested legacy_pairing_requested = true
same_state legacy_pairing_confirmed legacy_pairing_confirmed = true
same_state lesc_pairing_requested lesc_pairing_requested = true
same_state lesc_public_keys_exchanged lesc_public_keys_exchanged = true
same_state lesc_pairing_confirm_send lesc_pairing_confirm_send = true
same_state lesc_pairing_random_exchanged lesc_pairing_random_exchanged = true
same_state a b = false

abbrev pub error_reset : PairingData → PairingData
error_reset d = record d { state = idle }

abbrev pub legacy_pairing_request : PairingData → List ℕ → List ℕ → List ℕ → PairingData
legacy_pairing_request d srand p1 p2 = record d {
  state = legacy_pairing_requested;
  c1_p1 = p1;
  c1_p2 = p2;
  srand = srand;
}

-- `pairing_confirm`
abbrev pub store_confirm : PairingData → List ℕ → PairingData
store_confirm d confirm = record d { state = legacy_pairing_confirmed; mconfirm = confirm }

-- What both kinds of pairing hold a key for that was agreed on by `algorithm`.
abbrev pub status_of : PairingAlgorithm → DevicePairingStatus
status_of just_works = unauthenticated_key
status_of oob_authentication = authenticated_key
status_of passkey_entry_display = authenticated_key
status_of passkey_entry_input = authenticated_key
status_of numeric_comparison = authenticated_key

abbrev pub legacy_pairing_completed : PairingData → List ℕ → PairingData
legacy_pairing_completed d short_term_key = record d {
  state = pairing_completed;
  long_term_key = short_term_key;
  pairing_status = status_of d.legacy_algorithm;
}

abbrev pub pairing_requested : PairingData → List ℕ → PairingData
pairing_requested d io_caps = record d { state = lesc_pairing_requested; remote_io_caps = io_caps }

abbrev pub public_key_exchanged : PairingData → List ℕ → List ℕ → List ℕ → List ℕ → PairingData
public_key_exchanged d private_key public_key remote_key nonce = record d {
  state = lesc_public_keys_exchanged;
  local_private_key = private_key;
  local_public_key = public_key;
  remote_public_key = remote_key;
  local_nonce = nonce;
}

abbrev pub pairing_confirm_send : PairingData → PairingData
pairing_confirm_send d = record d { state = lesc_pairing_confirm_send }

abbrev pub pairing_random_exchanged : PairingData → List ℕ → PairingData
pairing_random_exchanged d nonce = record d {
  state = lesc_pairing_random_exchanged;
  remote_nonce = nonce;
}

abbrev pub lesc_pairing_completed : PairingData → List ℕ → PairingData
lesc_pairing_completed d key = record d {
  state = pairing_completed;
  long_term_key = key;
  pairing_status = status_of d.lesc_algorithm;
}

abbrev pub wait_for_user_response : PairingData → PairingData
wait_for_user_response d = record d { state = user_response_wait }

-- The application may answer only while it is waited for: an `assert`.
unfoldable pub yes_no_response : PairingData → Bool → Option PairingData
yes_no_response d response =
    if same_state d.state user_response_wait
    then some
        (record d { state = if response then user_response_success else user_response_failed })
    else none

-- The key for an encryption request, if it is the one that was just agreed on.
unfoldable pub find_key : PairingData → ℕ → ℕ → Option (List ℕ)
find_key d ediv rand =
    if same_state d.state pairing_completed && (ediv == 0) && (rand == 0)
    then some d.long_term_key
    else none

-- `find_key` of `bonding_db_data_t`: if it is not, the key that the data base has for the peer. The data base is the
-- application's, and there may be none.
unfoldable pub bonded_find_key :
    Option (ℕ → ℕ → DeviceAddress → Option (List ℕ)) → PairingData → ℕ → ℕ → Option (List ℕ)
bonded_find_key bonds d ediv rand = elim (find_key d ediv rand) [
  | some key ↦ some key
  | none ↦ elim bonds [ none ↦ none | some find ↦ find ediv rand d.remote_address ]
]

unfoldable pub local_device_pairing_status : PairingData → DevicePairingStatus
local_device_pairing_status d =
    if same_state d.state pairing_completed then d.pairing_status else no_key

unfoldable pub outgoing_security_manager_data_available : PairingData → Bool → Bool
outgoing_security_manager_data_available d is_encrypted =
    is_encrypted && not (same_state d.state pairing_completed)
