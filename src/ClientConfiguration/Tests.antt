-- ===== src/ClientConfiguration/Tests.antt =====
-- Six characteristics in two bytes.
use bluetoe.Shared.{◌≡◌, refl, arith}
use bluetoe.Shared.Memory.{Memory}
use bluetoe.ClientConfiguration.{flags, set_flags, replace_bits}
use bluetoe.ClientConfiguration.Packed.{flags-set_flags}

abbrev all_set : Memory
all_set p = 255

runs : (set_flags all_set 5 0 1 ≡ 243) × (set_flags all_set 5 0 0 ≡ 255)
unfolding set_flags replace_bits
runs = (refl, refl)

flags-set_flags_example : flags (set_flags all_set 5 2) 5 ≡ 2
flags-set_flags_example = flags-set_flags all_set 5 5 2 (λ p. omega arith)
