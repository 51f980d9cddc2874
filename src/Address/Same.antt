-- ===== src/Address/Same.antt =====
-- bluetoe/utility/address.cpp: the comparison of addresses.
use bluetoe.Shared.{ℕ, Bool, true, false, List, [], ◌∷◌, ◌≡◌, refl, ◌↔◌, arith, same, ap₂}
use bluetoe.Address.{DeviceAddress, equal_bytes, equal_address}

same_refl : (b : Bool) → same b b ≡ true
same_refl true = refl
same_refl false = refl

same_sound : (a b : Bool) → same a b ≡ true → a ≡ b
same_sound true b h = ground (arith, h)
same_sound false true h = ground (arith, h)
same_sound false false h = refl

pub equal_bytes_sound : (xs ys : List ℕ) → equal_bytes xs ys ≡ true → xs ≡ ys
unfolding equal_bytes
equal_bytes_sound [] [] h = refl
equal_bytes_sound [] (y ∷ ys) h = ground (arith, h)
equal_bytes_sound (x ∷ xs) [] h = ground (arith, h)
equal_bytes_sound (x ∷ xs) (y ∷ ys) h =
    ap₂ ◌∷◌ (ground arith) (equal_bytes_sound xs ys (ground arith))

pub equal_bytes_refl : (xs : List ℕ) → equal_bytes xs xs ≡ true
unfolding equal_bytes
equal_bytes_refl [] = refl
equal_bytes_refl (x ∷ xs) = ground (arith, equal_bytes_refl xs)

pub equal_address_iff : (a b : DeviceAddress) → (equal_address a b ≡ true) ↔ (a ≡ b)
unfolding equal_address
equal_address_iff a b = (
  λ h.
      ap₂ (λ v r. record { value = v; is_random = r })
        (equal_bytes_sound a.value b.value (ground arith))
        (same_sound a.is_random b.is_random (ground arith)),
  λ e. rw e (rw (equal_bytes_refl b.value) (same_refl b.is_random)),
)
