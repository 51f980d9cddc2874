-- ===== src/WhiteList/Tests.antt =====
-- A white list with two entries of three, and the theorems of
-- bluetoe/link_layer/include/bluetoe/white_list.hpp at it.
use bluetoe.Shared.{◌≡◌, ◌≢◌, ◌↔◌, true, false, refl, List, [], ◌∷◌, arith}
use bluetoe.Address.{DeviceAddress, equal_bytes, equal_address}
use bluetoe.WhiteList.{
  WhiteList, initial_white_list, find_address, is_in_white_list, add_to_white_list,
  remove_from_white_list,
}
use bluetoe.WhiteList.Entries.{IsValid, Holds}
use bluetoe.WhiteList.Changes.{remove_from_white_list-Holds}
use bluetoe.WhiteList.Valid.{Change, added, removed, run_changes, run_changes-IsValid}

abbrev phone : DeviceAddress
phone = record { value = 1 ∷ 2 ∷ 3 ∷ 4 ∷ 5 ∷ 6 ∷ []; is_random = false }

abbrev tablet : DeviceAddress
tablet = record { value = 1 ∷ 2 ∷ 3 ∷ 4 ∷ 5 ∷ 192 ∷ []; is_random = true }

abbrev start : WhiteList
start = initial_white_list 2

start-IsValid : IsValid 2 start
unfolding initial_white_list
start-IsValid = (refl, omega arith, λ i j hi hj e. absurd (omega arith))

abbrev changes : List Change
changes = added phone ∷ added tablet ∷ added phone ∷ removed tablet ∷ []

abbrev one : WhiteList
one = run_changes 2 start changes

one-IsValid : IsValid 2 one
one-IsValid = run_changes-IsValid 2 start changes start-IsValid

runs :
    (one.free_size ≡ 1)
    × (is_in_white_list 2 one phone ≡ true)
    × (is_in_white_list 2 one tablet ≡ false)
unfolding initial_white_list run_changes add_to_white_list remove_from_white_list is_in_white_list
    find_address equal_address equal_bytes
runs = (refl, refl, refl)

remove_from_white_list-Holds_example :
    Holds 2 (remove_from_white_list 2 one phone).0 tablet ↔ (Holds 2 one tablet × (tablet ≢ phone))
remove_from_white_list-Holds_example = remove_from_white_list-Holds 2 one phone tablet one-IsValid
