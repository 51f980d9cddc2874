-- ===== src/Address/Resolvable.antt =====
-- bluetoe/utility/include/bluetoe/address.hpp: the kinds of generated addresses.
use bluetoe.Shared.{ℕ, true, false, List, ◌≡◌, refl, arith, ◌==◌, ◌<◌, ◌/◌, ◌%◌, get_or}
use bluetoe.Address.{
  create_prand, generate_resolvable_private_address, generate_static_random_address, is_static,
  is_private, is_resolvable, is_random_resolvable,
}

pub generate_static_random_address_lem :
    (seed : ℕ)
    → (is_static (generate_static_random_address seed) ≡ true)
      × (is_private (generate_static_random_address seed) ≡ false)
unfolding is_static is_private generate_static_random_address
generate_static_random_address_lem seed = (refl, refl)

pub create_prand_range : (rand : ℕ) → (4194304 < create_prand rand) × (create_prand rand < 8388607)
unfolding create_prand
create_prand_range rand = ground arith

-- Whether a generated resolvable private address passes is_random_resolvable depends on the lowest
-- byte of the hash alone; the bits that mark it as resolvable stand in its first, least
-- significant byte.
pub resolvable_by_hash :
    (irk : List ℕ) (random : ℕ) (hash_func : List ℕ → ℕ → ℕ)
    → (is_random_resolvable (generate_resolvable_private_address irk random hash_func)
        ≡ (hash_func irk (create_prand random) / 64 % 4 == 1))
      × (get_or ((generate_resolvable_private_address irk random hash_func).value) 0 0 / 64 ≡ 1)
unfolding is_random_resolvable is_resolvable generate_resolvable_private_address
resolvable_by_hash irk random hash_func =
    let range = create_prand_range random in (ground arith, ground arith)
