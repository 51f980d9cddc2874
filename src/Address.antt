-- ===== src/Address.antt =====
-- bluetoe/utility/include/bluetoe/address.hpp and bluetoe/utility/address.cpp: device addresses.
-- An address is the list of its bytes, of which there are six, the least significant one first.
pub mod Same
pub mod Resolvable
mod Tests
use bluetoe.Shared.{
  ℕ, zero, suc, ◌+◌, ◌-◌, ◌*◌, ◌/◌, ◌%◌, ◌^◌, Bool, true, false, not, ◌&&◌, ◌||◌, List, [], ◌∷◌,
  ◌==◌, if◌then◌else◌, same, get_or, set_flag, replicate,
}

abbrev pub address_size_in_bytes : ℕ
address_size_in_bytes = 6

pub record DeviceAddress : Type 0 where
  pub value : List ℕ
  pub is_random : Bool

-- `std::equal` on the bytes of two addresses.
unfoldable pub equal_bytes : List ℕ → List ℕ → Bool
equal_bytes [] [] = true
equal_bytes [] (y ∷ ys) = false
equal_bytes (x ∷ xs) [] = false
equal_bytes (x ∷ xs) (y ∷ ys) = (x == y) && equal_bytes xs ys

-- `device_address::operator==`
unfoldable pub equal_address : DeviceAddress → DeviceAddress → Bool
equal_address a b = equal_bytes a.value b.value && same a.is_random b.is_random

-- `device_address()`
abbrev pub default_address : DeviceAddress
default_address = record { value = replicate address_size_in_bytes 0; is_random = true }

abbrev pub msb : DeviceAddress → ℕ
msb a = get_or a.value (address_size_in_bytes - 1) 0

-- The two highest bits, `msb & 0xC0`, stand for 0 to 3 here.
unfoldable pub is_static : DeviceAddress → Bool
is_static a = msb a / 64 % 4 == 3

unfoldable pub is_private : DeviceAddress → Bool
is_private a = (msb a / 64 % 4 == 1) || (msb a / 64 % 4 == 0)

unfoldable pub is_resolvable : DeviceAddress → Bool
is_resolvable a = msb a / 64 % 4 == 1

unfoldable pub is_random_resolvable : DeviceAddress → Bool
is_random_resolvable a = a.is_random && is_resolvable a

unfoldable pub generate_static_random_address : ℕ → DeviceAddress
generate_static_random_address seed = record {
  value =
      seed / 2 ^ 24 % 256 ∷ seed / 2 ^ 16 % 256 ∷ seed / 2 ^ 8 % 256 ∷ seed % 256 ∷ 15 ∷ 192 ∷ [];
  is_random = true;
}

-- `( rand & 0x007fffff ) | 0x00400000`; `^ 0x01` flips the lowest bit.
unfoldable pub create_prand : ℕ → ℕ
create_prand rand =
    let masked : ℕ = set_flag 4194304 (rand % 2 ^ 23) in
    if (masked == 8388607) || (masked == 4194304)
    then (if masked % 2 == 1 then masked - 1 else masked + 1)
    else masked

-- The hash function takes the key and the random part, and gives 32 bits.
unfoldable pub generate_resolvable_private_address : List ℕ → ℕ → (List ℕ → ℕ → ℕ) → DeviceAddress
generate_resolvable_private_address irk random hash_func =
    let prand : ℕ = create_prand random in
    let hash : ℕ = hash_func irk prand in
    record {
      value =
          prand / 2 ^ 16 % 256
          ∷ prand / 2 ^ 8 % 256
          ∷ prand % 256
          ∷ hash / 2 ^ 16 % 256
          ∷ hash / 2 ^ 8 % 256
          ∷ hash % 256
          ∷ [];
      is_random = true;
    }
