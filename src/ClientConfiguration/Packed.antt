-- ===== src/ClientConfiguration/Packed.antt =====
-- bluetoe/utility/include/bluetoe/client_characteristic_configuration.hpp: the entries do not disturb each other.
use bluetoe.Shared.{
  ℕ, ◌+◌, ◌-◌, ◌*◌, ◌/◌, ◌%◌, ◌^◌, ◌<◌, ◌≡◌, Bool, true, false, ◌==◌, ==_iff, if◌then◌else◌, arith,
  refl, sym, ap, ap₂, ◌∙◌, Bool-cases, inl, inr, each_under, each_under_lem,
}
use bluetoe.Shared.Memory.{Memory, IsBytes}
use bluetoe.ClientConfiguration.{flags, set_flags, replace_bits}

-- Writing `n` at one of the four places of a byte, and reading at another.
abbrev undisturbed : ℕ → ℕ → ℕ → ℕ → Bool
undisturbed place n byte other =
    replace_bits byte (2 ^ (place * 2)) n / 2 ^ (other * 2) % 4
    == (if place == other then n else byte / 2 ^ (other * 2) % 4)

-- Checked for every byte.
undisturbed_table :
    each_under
      (λ place.
        each_under (λ n. each_under (λ byte. each_under (undisturbed place n byte) 4) 256) 4)
      4
    ≡ true
unfolding each_under replace_bits
undisturbed_table = refl

replace_bits_cut : (byte scale n : ℕ) → replace_bits byte scale n ≡ replace_bits byte scale (n % 4)
unfolding replace_bits
replace_bits_cut byte scale n =
    let twice : n % 4 % 4 ≡ n % 4 = omega arith in
    ap (λ k. byte - byte / scale % 4 * scale + k * scale) (sym twice)

undisturbed_lem :
    (byte i j n : ℕ)
    → byte < 256
    → replace_bits byte (2 ^ (i % 4 * 2)) n / 2 ^ (j % 4 * 2) % 4
      ≡ (if i % 4 == j % 4 then n % 4 else byte / 2 ^ (j % 4 * 2) % 4)
undisturbed_lem byte i j n h =
    let place = each_under_lem _ {i = i % 4} 4 (omega arith) undisturbed_table in
    let number = each_under_lem _ {i = n % 4} 4 (omega arith) place in
    let of_byte = each_under_lem _ {i = byte} 256 h number in
    let cell = each_under_lem _ {i = j % 4} 4 (omega arith) of_byte in
    ap (λ b. b / 2 ^ (j % 4 * 2) % 4) (replace_bits_cut byte (2 ^ (i % 4 * 2)) n)
    ∙ (==_iff _ _).0 cell

same_place : (i j : ℕ) → j / 4 ≡ i / 4 → (i % 4 == j % 4) ≡ (i == j)
same_place i j h = ground arith

-- After the flags of one characteristic were set in an array of bytes, reading them gives the
-- lowest two bits of what was set, and the flags of every other characteristic are as before.
pub flags-set_flags :
    (configs : Memory) (i j new_flags : ℕ)
    → IsBytes configs
    → flags (set_flags configs i new_flags) j ≡ (if i == j then new_flags % 4 else flags configs j)
unfolding flags set_flags
flags-set_flags configs i j new_flags bytes = elim (Bool-cases (j / 4 == i / 4)) [
  | inl e ↦
      let cell : j / 4 ≡ i / 4 = (==_iff (j / 4) (i / 4)).0 e in
      let test : (i % 4 == j % 4) ≡ (i == j) = same_place i j cell in
      rw (flags, set_flags, e)
        (undisturbed_lem (configs (i / 4)) i j new_flags (bytes (i / 4))
          ∙ ap₂ (λ t c. if t then new_flags % 4 else configs c / 2 ^ (j % 4 * 2) % 4) test
              (sym cell))
  | inr e ↦ let test : (i == j) ≡ false = ground arith in rw (flags, set_flags, e) (rw test refl)
]
