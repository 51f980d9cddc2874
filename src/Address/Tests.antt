-- ===== src/Address/Tests.antt =====
-- Addresses, and the theorems of bluetoe/utility/address.cpp at them.
use bluetoe.Shared.{ℕ, ◌≡◌, ◌↔◌, true, false, refl, List, [], ◌∷◌}
use bluetoe.Address.{
  DeviceAddress, equal_bytes, equal_address, create_prand, generate_static_random_address,
  is_static, is_private,
}
use bluetoe.Address.Same.{equal_address_iff}
use bluetoe.Address.Resolvable.{generate_static_random_address_lem}

abbrev pub phone : DeviceAddress
phone = record { value = 1 ∷ 2 ∷ 3 ∷ 4 ∷ 5 ∷ 6 ∷ []; is_random = false }

abbrev pub tablet : DeviceAddress
tablet = record { value = 1 ∷ 2 ∷ 3 ∷ 4 ∷ 5 ∷ 192 ∷ []; is_random = true }

abbrev zero_hash : List ℕ → ℕ → ℕ
zero_hash irk prand = 0

runs :
    (equal_address phone tablet ≡ false)
    × (create_prand 0 ≡ 4194305)
    × (create_prand 4294967295 ≡ 8388606)
unfolding equal_address equal_bytes create_prand
runs = (refl, refl, refl)

equal_address_iff_example : (equal_address phone phone ≡ true) ↔ (phone ≡ phone)
equal_address_iff_example = equal_address_iff phone phone

generate_static_random_address_lem_example :
    (is_static (generate_static_random_address 305419896) ≡ true)
    × (is_private (generate_static_random_address 305419896) ≡ false)
generate_static_random_address_lem_example = generate_static_random_address_lem 305419896
