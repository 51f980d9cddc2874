-- ===== src/Shared/Memory.antt =====
-- Memory as C++ sees an array of `std::uint8_t`: a byte at each offset. The accessors are those of
-- bluetoe/utility/include/bluetoe/bits.hpp.
use Prim.Native.Nat.{ℕ, zero, suc, ◌+◌, ◌*◌, ◌/◌, ◌%◌, ◌^◌, ◌≤◌, ◌<◌}
use mathlib.Core.Path.{◌≡◌, refl, ap₂}
use mathlib.Core.List.{List, [], ◌∷◌}
use native.Mathlib.Omega.{arith}
use bluetoe.Shared.Tests.{◌==◌, if◌then◌else◌}

abbrev pub Memory : Type 0
Memory = ℕ → ℕ

-- Every cell holds a byte.
abbrev pub IsBytes : Memory → Type 0
IsBytes mem = (p : ℕ) → mem p < 256

abbrev pub store : Memory → ℕ → ℕ → Memory
store mem p v i = if i == p then v else mem i

-- `read_16bit`: the low byte first.
abbrev pub read_16bit : Memory → ℕ → ℕ
read_16bit mem p = (mem p + mem (p + 1) * 256) % 2 ^ 16

-- `write_16bit`
abbrev pub write_16bit : Memory → ℕ → ℕ → Memory
write_16bit mem p v = store (store mem p (v % 256)) (p + 1) (v / 256 % 256)

-- The `n` bytes from offset `p` on.
abbrev pub bytes_at : Memory → ℕ → ℕ → List ℕ
bytes_at mem p zero = []
bytes_at mem p (suc n) = mem p ∷ bytes_at mem (p + 1) n

-- `std::copy` of bytes to an offset.
unfoldable pub copy_bytes : Memory → ℕ → List ℕ → Memory
copy_bytes mem p [] = mem
copy_bytes mem p (x ∷ xs) = copy_bytes (store mem p x) (p + 1) xs

pub store-IsBytes : (mem : Memory) (p v : ℕ) → IsBytes mem → v < 256 → IsBytes (store mem p v)
store-IsBytes mem p v h hv i = ground (arith, h i)

pub write_16bit-IsBytes : (mem : Memory) (p v : ℕ) → IsBytes mem → IsBytes (write_16bit mem p v)
write_16bit-IsBytes mem p v h i = ground (arith, h i)

-- What was written is read back, and nothing else changes.
pub read_16bit-write_16bit :
    (mem : Memory) (p v : ℕ) → v < 2 ^ 16 → read_16bit (write_16bit mem p v) p ≡ v
read_16bit-write_16bit mem p v h = ground arith

pub bytes_at-frame :
    (mem mem' : Memory) (p n : ℕ)
    → ((i : ℕ) → p ≤ i → i < p + n → mem' i ≡ mem i)
    → bytes_at mem' p n ≡ bytes_at mem p n
bytes_at-frame mem mem' p zero h = refl
bytes_at-frame mem mem' p (suc n) h =
    ap₂ ◌∷◌ (h p (omega arith) (omega arith))
      (bytes_at-frame mem mem' (p + 1) n (λ i a b. h i (omega arith) (omega arith)))
