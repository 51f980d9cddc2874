-- ===== src/IoCapabilities.antt =====
-- bluetoe/sm/include/bluetoe/io_capabilities.hpp: what the device can show and ask for during pairing.
-- The io capabilities of the peer come as a byte, so they are numbers here.
pub mod Table
mod Tests
use bluetoe.Shared.{
  ℕ, ◌+◌, ◌/◌, ◌%◌, ◌^◌, Bool, true, false, ◌||◌, List, [], ◌∷◌, ◌++◌, ◌==◌, if◌then◌else◌,
  replicate,
}

abbrev pub display_only : ℕ
display_only = 0

abbrev pub display_yes_no : ℕ
display_yes_no = 1

abbrev pub keyboard_only : ℕ
keyboard_only = 2

abbrev pub no_input_no_output : ℕ
no_input_no_output = 3

abbrev pub keyboard_display : ℕ
keyboard_display = 4

-- `io_capabilities::last`
abbrev pub last_io_capability : ℕ
last_io_capability = keyboard_display

-- The two enumerations of algorithms; legacy pairing has no numeric comparison.
pub data PairingAlgorithm : Type 0 where
  just_works : PairingAlgorithm
  oob_authentication : PairingAlgorithm
  passkey_entry_display : PairingAlgorithm
  passkey_entry_input : PairingAlgorithm
  numeric_comparison : PairingAlgorithm

pub data InputCapability : Type 0 where
  pairing_no_input : InputCapability
  pairing_yes_no : InputCapability
  pairing_keyboard : InputCapability

pub data OutputCapability : Type 0 where
  pairing_no_output : OutputCapability
  pairing_numeric_output : OutputCapability

unfoldable pub get_io_capabilities : OutputCapability → InputCapability → ℕ
get_io_capabilities pairing_no_output pairing_no_input = no_input_no_output
get_io_capabilities pairing_no_output pairing_yes_no = no_input_no_output
get_io_capabilities pairing_no_output pairing_keyboard = keyboard_only
get_io_capabilities pairing_numeric_output pairing_no_input = display_only
get_io_capabilities pairing_numeric_output pairing_yes_no = display_yes_no
get_io_capabilities pairing_numeric_output pairing_keyboard = keyboard_display

-- `pairing_no_output` with a keyboard, for both ways to pair.
abbrev pub keyboard_algorithm : ℕ → PairingAlgorithm
keyboard_algorithm io = if io == no_input_no_output then just_works else passkey_entry_input

-- A display without a keyboard shows the passkey to a peer that has one.
abbrev pub display_algorithm : ℕ → PairingAlgorithm
display_algorithm io =
    if (io == keyboard_only) || (io == keyboard_display) then passkey_entry_display else just_works

unfoldable pub select_legacy_pairing_algorithm :
    OutputCapability → InputCapability → ℕ → PairingAlgorithm
select_legacy_pairing_algorithm pairing_no_output pairing_no_input io = just_works
select_legacy_pairing_algorithm pairing_no_output pairing_yes_no io = just_works
select_legacy_pairing_algorithm pairing_no_output pairing_keyboard io = keyboard_algorithm io
select_legacy_pairing_algorithm pairing_numeric_output pairing_no_input io = display_algorithm io
select_legacy_pairing_algorithm pairing_numeric_output pairing_yes_no io = display_algorithm io
select_legacy_pairing_algorithm pairing_numeric_output pairing_keyboard io =
    if io == no_input_no_output
    then just_works
    else if io == keyboard_only
    then passkey_entry_display
    else passkey_entry_input

unfoldable pub select_lesc_pairing_algorithm :
    OutputCapability → InputCapability → ℕ → PairingAlgorithm
select_lesc_pairing_algorithm pairing_no_output pairing_no_input io = just_works
select_lesc_pairing_algorithm pairing_no_output pairing_yes_no io = just_works
select_lesc_pairing_algorithm pairing_no_output pairing_keyboard io = keyboard_algorithm io
select_lesc_pairing_algorithm pairing_numeric_output pairing_no_input io = display_algorithm io
select_lesc_pairing_algorithm pairing_numeric_output pairing_yes_no io =
    if (io == display_yes_no) || (io == keyboard_display)
    then numeric_comparison
    else if io == keyboard_only
    then passkey_entry_display
    else just_works
select_lesc_pairing_algorithm pairing_numeric_output pairing_keyboard io =
    if (io == display_yes_no) || (io == keyboard_display)
    then numeric_comparison
    else if io == display_only
    then passkey_entry_input
    else if io == keyboard_only
    then passkey_entry_display
    else just_works

-- `sm_pairing_passkey`: only a keyboard asks the application for the passkey.
unfoldable pub sm_pairing_passkey : InputCapability → ℕ → List ℕ
sm_pairing_passkey pairing_keyboard entered =
    entered % 256
    ∷ entered / 2 ^ 8 % 256
    ∷ entered / 2 ^ 16 % 256
    ∷ entered / 2 ^ 24 % 256
    ∷ replicate 12 0
sm_pairing_passkey pairing_no_input entered = replicate 16 0
sm_pairing_passkey pairing_yes_no entered = replicate 16 0
