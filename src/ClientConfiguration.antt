-- ===== src/ClientConfiguration.antt =====
-- bluetoe/utility/include/bluetoe/client_characteristic_configuration.hpp: two bits for each characteristic, in an
-- array of bytes.
pub mod Packed
mod Tests
use bluetoe.Shared.{ℕ, ◌+◌, ◌-◌, ◌*◌, ◌/◌, ◌%◌, ◌^◌}
use bluetoe.Shared.Memory.{Memory, store}

abbrev pub bits_per_config : ℕ
bits_per_config = 2

abbrev pub shift : ℕ → ℕ
shift index = index % 4 * bits_per_config

-- The getter `flags( index )`.
unfoldable pub flags : Memory → ℕ → ℕ
flags configs index = configs (index / 4) / 2 ^ shift index % 4

-- The two bits at a shift are taken out of a byte, `byte & ~mask`, and others put there.
unfoldable pub replace_bits : ℕ → ℕ → ℕ → ℕ
replace_bits byte scale new_flags = byte - byte / scale % 4 * scale + new_flags % 4 * scale

-- The setter `flags( index, new_flags )`.
unfoldable pub set_flags : Memory → ℕ → ℕ → Memory
set_flags configs index new_flags =
    store configs (index / 4) (replace_bits (configs (index / 4)) (2 ^ shift index) new_flags)
