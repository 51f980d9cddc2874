-- ===== src/Pairing/Requests.antt =====
-- bluetoe/sm/include/bluetoe/security_manager.hpp: the pairing request of each of the three managers.
-- An input is a list of bytes, and an answer too, the empty one for `out_size` 0.
use bluetoe.Shared.{
  ℕ, Bool, true, false, not, ◌&&◌, ◌||◌, none, some, List, [], ◌∷◌, ◌++◌, ◌==◌, if◌then◌else◌, leb,
  ltb, length, get_or, replicate, has_flag, set_flag,
}
use bluetoe.Address.{DeviceAddress}
use bluetoe.IoCapabilities.{
  PairingAlgorithm, oob_authentication, get_io_capabilities, select_legacy_pairing_algorithm,
  select_lesc_pairing_algorithm, last_io_capability,
}
use bluetoe.Pairing.Data.{
  PairingData, SecurityFunctions, Device, idle, same_state, error_reset, legacy_pairing_request,
  pairing_requested,
}

abbrev pub passkey_entry_failed : ℕ
passkey_entry_failed = 1

abbrev pub confirm_value_failed : ℕ
confirm_value_failed = 4

abbrev pub pairing_not_supported : ℕ
pairing_not_supported = 5

abbrev pub command_not_supported : ℕ
command_not_supported = 7

abbrev pub unspecified_reason : ℕ
unspecified_reason = 8

abbrev pub invalid_parameters : ℕ
invalid_parameters = 10

abbrev pub dhkey_check_failed : ℕ
dhkey_check_failed = 11

-- `sm_opcodes`
abbrev pub pairing_request : ℕ
pairing_request = 1

abbrev pub pairing_response : ℕ
pairing_response = 2

abbrev pub pairing_confirm : ℕ
pairing_confirm = 3

abbrev pub pairing_random : ℕ
pairing_random = 4

abbrev pub pairing_failed : ℕ
pairing_failed = 5

abbrev pub encryption_information : ℕ
encryption_information = 6

abbrev pub central_identification : ℕ
central_identification = 7

abbrev pub pairing_public_key : ℕ
pairing_public_key = 12

abbrev pub pairing_dhkey_check : ℕ
pairing_dhkey_check = 13

abbrev pub pairing_req_resp_size : ℕ
pairing_req_resp_size = 7

abbrev pub min_max_key_size : ℕ
min_max_key_size = 7

abbrev pub max_max_key_size : ℕ
max_max_key_size = 16

-- The mask of `authentication_requirements_flags::secure_connections`.
abbrev pub secure_connections : ℕ
secure_connections = 8

-- `error_response`: whatever was going on is given up.
unfoldable pub error_response : ℕ → PairingData → PairingData × List ℕ
error_response code d = (error_reset d, pairing_failed ∷ code ∷ [])

-- The bytes of a request that has the right size.
pub record PairingRequest : Type 0 where
  pub io_capability : ℕ
  pub oob_data_flag : ℕ
  pub auth_req : ℕ
  pub max_key_size : ℕ
  pub initiator_key_distribution : ℕ
  pub responder_key_distribution : ℕ

abbrev pub read_request : List ℕ → PairingRequest
read_request input = record {
  io_capability = get_or input 1 0;
  oob_data_flag = get_or input 2 0;
  auth_req = get_or input 3 0;
  max_key_size = get_or input 4 0;
  initiator_key_distribution = get_or input 5 0;
  responder_key_distribution = get_or input 6 0;
}

-- The test of the parameters, for bytes: `x & ~0x01` and `x & 0xf0` are whether a higher bit is set.
unfoldable pub has_invalid_parameters : PairingRequest → Bool
has_invalid_parameters r =
    ltb last_io_capability r.io_capability
    || leb 2 r.oob_data_flag
    || (ltb r.max_key_size min_max_key_size || ltb max_max_key_size r.max_key_size)
    || leb 16 r.initiator_key_distribution
    || leb 16 r.responder_key_distribution

abbrev pub has_oob_data : Device → Bool
has_oob_data v = elim v.oob_data [ none ↦ false | some bytes ↦ true ]

unfoldable pub legacy_select_algorithm : Device → ℕ → ℕ → PairingAlgorithm
legacy_select_algorithm v io oob_data_flag =
    if not (oob_data_flag == 0) && has_oob_data v
    then oob_authentication
    else select_legacy_pairing_algorithm v.output v.input io

unfoldable pub lesc_select_algorithm : Device → ℕ → ℕ → PairingAlgorithm
lesc_select_algorithm v io oob_data_flag =
    if not (oob_data_flag == 0) || has_oob_data v
    then oob_authentication
    else select_lesc_pairing_algorithm v.output v.input io

abbrev pub legacy_local_io_caps : Device → List ℕ
legacy_local_io_caps v =
    get_io_capabilities v.output v.input
    ∷ (if has_oob_data v then 1 else 0)
    ∷ v.authentication_requirements_flags
    ∷ []

abbrev pub lesc_local_io_caps : Device → List ℕ
lesc_local_io_caps v =
    get_io_capabilities v.output v.input
    ∷ 0
    ∷ set_flag secure_connections v.authentication_requirements_flags
    ∷ []

unfoldable pub create_pairing_response : Device → List ℕ → List ℕ
create_pairing_response v io_caps =
    pairing_response
    ∷ get_or io_caps 0 0
    ∷ get_or io_caps 1 0
    ∷ get_or io_caps 2 0
    ∷ max_max_key_size
    ∷ 0
    ∷ v.request_key_flags
    ∷ []

abbrev pub address_type : DeviceAddress → ℕ
address_type a = if a.is_random then 1 else 0

unfoldable pub legacy_c1_p1 : List ℕ → List ℕ → DeviceAddress → DeviceAddress → List ℕ
legacy_c1_p1 input output initiating responding =
    address_type initiating ∷ address_type responding ∷ (input ++ output)

unfoldable pub legacy_c1_p2 : DeviceAddress → DeviceAddress → List ℕ
legacy_c1_p2 initiating responding = responding.value ++ (initiating.value ++ replicate 4 0)

module _ (f : SecurityFunctions) (v : Device) where
  -- An accepted request for legacy pairing, with the local io capabilities of the manager.
  unfoldable pub start_legacy : List ℕ → List ℕ → ℕ → ℕ → PairingData → PairingData × List ℕ
  start_legacy io_caps input io oob_data_flag d =
      let output : List ℕ = create_pairing_response v io_caps in
      (
        legacy_pairing_request
            (record d { legacy_algorithm = legacy_select_algorithm v io oob_data_flag })
            f.create_srand (legacy_c1_p1 input output d.remote_address f.local_address)
            (legacy_c1_p2 d.remote_address f.local_address),
        output,
      )

  unfoldable pub start_lesc : ℕ → ℕ → ℕ → PairingData → PairingData × List ℕ
  start_lesc io oob_data_flag auth_req d = (
    pairing_requested (record d { lesc_algorithm = lesc_select_algorithm v io oob_data_flag })
        (io ∷ oob_data_flag ∷ auth_req ∷ []),
    create_pairing_response v (lesc_local_io_caps v),
  )

  -- What the three handlers have in common: the guards, and what follows for a valid request.
  unfoldable pub guard_request :
      (PairingRequest → PairingData → PairingData × List ℕ)
      → List ℕ
      → PairingData
      → PairingData × List ℕ
  guard_request accept input d =
      if not (length input == pairing_req_resp_size)
      then error_response invalid_parameters d
      else if not (same_state d.state idle)
      then error_response unspecified_reason d
      else if has_invalid_parameters (read_request input)
      then error_response invalid_parameters d
      else accept (read_request input) d

  unfoldable pub legacy_handle_pairing_request : List ℕ → PairingData → PairingData × List ℕ
  legacy_handle_pairing_request input =
      guard_request
        (λ r. start_legacy (legacy_local_io_caps v) input r.io_capability r.oob_data_flag) input

  unfoldable pub lesc_handle_pairing_request : List ℕ → PairingData → PairingData × List ℕ
  lesc_handle_pairing_request input =
      guard_request
        (λ r d.
          if has_flag secure_connections r.auth_req
          then start_lesc r.io_capability r.oob_data_flag r.auth_req d
          else error_response pairing_not_supported d)
        input

  -- `security_manager_impl::handle_pairing_request`: both kinds, as the peer asks for.
  unfoldable pub handle_pairing_request : List ℕ → PairingData → PairingData × List ℕ
  handle_pairing_request input =
      guard_request
        (λ r d.
          if has_flag secure_connections r.auth_req
          then start_lesc r.io_capability r.oob_data_flag r.auth_req d
          else start_legacy (lesc_local_io_caps v) input r.io_capability r.oob_data_flag d)
        input
