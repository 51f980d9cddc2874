-- ===== src/Pairing/Legacy.antt =====
-- bluetoe/sm/include/bluetoe/security_manager.hpp: legacy pairing after the request.
use bluetoe.Shared.{
  ℕ, Bool, true, not, none, some, List, ◌∷◌, ◌==◌, if◌then◌else◌, length, drop, replicate,
}
use bluetoe.Address.{equal_bytes}
use bluetoe.IoCapabilities.{
  PairingAlgorithm, just_works, oob_authentication, passkey_entry_display, passkey_entry_input,
  numeric_comparison, sm_pairing_passkey,
}
use bluetoe.Pairing.Data.{
  PairingData, SecurityFunctions, Device, legacy_pairing_requested, legacy_pairing_confirmed,
  same_state, store_confirm, legacy_pairing_completed,
}
use bluetoe.Pairing.Requests.{
  error_response, invalid_parameters, unspecified_reason, confirm_value_failed, pairing_confirm,
  pairing_random,
}

-- `get_oob_data_for_last_remote_device`
abbrev pub oob_data_for_remote : Device → List ℕ
oob_data_for_remote v = elim v.oob_data [ none ↦ replicate 16 0 | some bytes ↦ bytes ]

-- The temporary key, and the passkey that is kept.
abbrev pub create_key : SecurityFunctions → Device → PairingAlgorithm → List ℕ → List ℕ × List ℕ
create_key f v just_works old = (replicate 16 0, old)
create_key f v oob_authentication old = (oob_data_for_remote v, old)
create_key f v passkey_entry_display old = (f.create_passkey, f.create_passkey)
create_key f v passkey_entry_input old =
    (sm_pairing_passkey v.input v.entered_passkey, sm_pairing_passkey v.input v.entered_passkey)
create_key f v numeric_comparison old = (replicate 16 0, old)

unfoldable pub legacy_create_temporary_key :
    SecurityFunctions → Device → PairingData → PairingData × List ℕ
legacy_create_temporary_key f v d =
    let (key, kept) = create_key f v d.legacy_algorithm d.passkey in
    (record d { passkey = kept }, key)

abbrev pub kept_key : Device → List ℕ → PairingAlgorithm → List ℕ
kept_key v kept just_works = replicate 16 0
kept_key v kept oob_authentication = oob_data_for_remote v
kept_key v kept passkey_entry_display = kept
kept_key v kept passkey_entry_input = kept
kept_key v kept numeric_comparison = replicate 16 0

unfoldable pub legacy_temporary_key : Device → PairingData → List ℕ
legacy_temporary_key v d = kept_key v d.passkey d.legacy_algorithm

-- `arm_key_distribution`: with a bonding data base, the new bond is stored and goes to the peer.
unfoldable pub arm_key_distribution : Device → PairingData → PairingData
arm_key_distribution v d = elim v.new_bond [
  | none ↦ d
  | some bond ↦ record d {
    pending_encryption_information = true;
    pending_central_identification = true;
    pending_key = bond;
    stored_bonds = bond ∷ d.stored_bonds;
  }
]

module _ (f : SecurityFunctions) (v : Device) where
  unfoldable pub answer_confirm : PairingData → PairingData × List ℕ
  answer_confirm d =
      let (d', key) = legacy_create_temporary_key f v d in
      (d', pairing_confirm ∷ f.c1 key d'.srand d'.c1_p1 d'.c1_p2)

  unfoldable pub legacy_handle_pairing_confirm : List ℕ → PairingData → PairingData × List ℕ
  legacy_handle_pairing_confirm input d =
      if not (length input == 17)
      then error_response invalid_parameters d
      else if not (same_state d.state legacy_pairing_requested)
      then error_response unspecified_reason d
      else answer_confirm (store_confirm d (drop 1 input))

  -- Whether the random value of the peer explains the confirm value that it sent before.
  abbrev pub confirms : List ℕ → PairingData → Bool
  confirms mrand d = equal_bytes (f.c1 (legacy_temporary_key v d) mrand d.c1_p1 d.c1_p2) d.mconfirm

  unfoldable pub complete_legacy : List ℕ → PairingData → PairingData × List ℕ
  complete_legacy mrand d = (
    arm_key_distribution v
        (legacy_pairing_completed d (f.s1 (legacy_temporary_key v d) d.srand mrand)),
    pairing_random ∷ d.srand,
  )

  unfoldable pub legacy_handle_pairing_random : List ℕ → PairingData → PairingData × List ℕ
  legacy_handle_pairing_random input d =
      if not (length input == 17)
      then error_response invalid_parameters d
      else if not (same_state d.state legacy_pairing_confirmed)
      then error_response unspecified_reason d
      else if not (confirms (drop 1 input) d)
      then error_response confirm_value_failed d
      else complete_legacy (drop 1 input) d
