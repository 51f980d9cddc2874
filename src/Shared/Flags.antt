-- ===== src/Shared/Flags.antt =====
-- Flags in a number, by the mask that has just the one bit: `h & mask`, `h | mask`, `h & ~mask`.
use Prim.Native.Nat.{ℕ, ◌+◌, ◌-◌, ◌/◌, ◌%◌}
use mathlib.Core.Bool.{Bool}
use bluetoe.Shared.Tests.{◌==◌, if◌then◌else◌}

abbrev pub has_flag : ℕ → ℕ → Bool
has_flag mask h = h / mask % 2 == 1

abbrev pub set_flag : ℕ → ℕ → ℕ
set_flag mask h = if has_flag mask h then h else h + mask

abbrev pub clear_flag : ℕ → ℕ → ℕ
clear_flag mask h = if has_flag mask h then h - mask else h
