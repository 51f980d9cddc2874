-- ===== src/IoCapabilities/Table.antt =====
-- bluetoe/sm/include/bluetoe/io_capabilities.hpp against the Core Specification, Vol 3, Part H, table 2.8.
use bluetoe.Shared.{ℕ, ◌≡◌, ◌≤◌, arith, ◌==◌, if◌then◌else◌, ◌||◌, Bool, true, false}
use bluetoe.IoCapabilities.{
  PairingAlgorithm, just_works, passkey_entry_display, passkey_entry_input, numeric_comparison,
  InputCapability, OutputCapability, pairing_no_input, pairing_yes_no, pairing_keyboard,
  pairing_no_output, pairing_numeric_output, get_io_capabilities, select_legacy_pairing_algorithm,
  select_lesc_pairing_algorithm, last_io_capability,
}

-- What a device with some io capabilities can do.
abbrev pub has_keyboard : ℕ → Bool
has_keyboard io = (io == 2) || (io == 4)

abbrev pub has_display : ℕ → Bool
has_display io = (io == 0) || (io == 1) || (io == 4)

abbrev pub can_confirm : ℕ → Bool
can_confirm io = (io == 1) || (io == 4)

abbrev secure_numbers : Bool → ℕ → ℕ → Bool
secure_numbers true responder initiator =
    if can_confirm responder then can_confirm initiator else false
secure_numbers false responder initiator = false

abbrev shown_or_typed : Bool → PairingAlgorithm
shown_or_typed true = passkey_entry_display
shown_or_typed false = passkey_entry_input

-- The rows and columns of the table, in words: numbers are compared if both can show and confirm one and
-- LE secure connections are used; else a passkey is shown by one and typed on the other, or typed on both;
-- the initiator shows it if it can and the responder has a keyboard.
abbrev pub table_algorithm : Bool → ℕ → ℕ → PairingAlgorithm
table_algorithm secure responder initiator =
    if secure_numbers secure responder initiator
    then numeric_comparison
    else if has_keyboard responder
    then (if has_display initiator
        then passkey_entry_input
        else if has_keyboard initiator
        then shown_or_typed (has_display responder)
        else just_works)
    else if has_display responder
    then (if has_keyboard initiator then passkey_entry_display else just_works)
    else just_works

-- For each combination of local options and each valid io capability of the peer, the algorithms
-- chosen for legacy pairing and for LE secure connections are those of table 2.8 of the Core
-- Specification.
pub select_pairing_algorithm_table :
    (output : OutputCapability) (input : InputCapability) (io : ℕ)
    → io ≤ last_io_capability
    → (select_legacy_pairing_algorithm output input io
        ≡ table_algorithm false (get_io_capabilities output input) io)
      × (select_lesc_pairing_algorithm output input io
          ≡ table_algorithm true (get_io_capabilities output input) io)
unfolding select_legacy_pairing_algorithm select_lesc_pairing_algorithm get_io_capabilities
select_pairing_algorithm_table pairing_no_output pairing_no_input io h = ground arith
select_pairing_algorithm_table pairing_no_output pairing_yes_no io h = ground arith
select_pairing_algorithm_table pairing_no_output pairing_keyboard io h = ground arith
select_pairing_algorithm_table pairing_numeric_output pairing_no_input io h = ground arith
select_pairing_algorithm_table pairing_numeric_output pairing_yes_no io h = ground arith
select_pairing_algorithm_table pairing_numeric_output pairing_keyboard io h = ground arith
