-- ===== src/DeltaTime/Arithmetic.antt =====
-- bluetoe/link_layer/delta_time.cpp: which operations are exact, and when their `assert`s fail.
use bluetoe.Shared.{
  ℕ, zero, suc, ◌+◌, ◌-◌, ◌*◌, ◌/◌, ◌^◌, ◌≤◌, ◌<◌, ◌≡◌, none, some, arith, ltb, leb, if◌then◌else◌,
}
use native.Mathlib.Nat.{mul-le-mul}
use bluetoe.DeltaTime.{
  DeltaTime, add, subtract, multiply, ppm, print, TimeUnit, milliseconds, microseconds,
}

-- A time span that fits its 32 bits.
abbrev pub IsTime : DeltaTime → Type 0
IsTime t = t.usec < 2 ^ 32

-- Adding two 32 bit time spans gives their exact sum if it fits 32 bits, and a failed assert
-- otherwise.
pub add_exact :
    (t rhs : DeltaTime)
    → IsTime t
    → IsTime rhs
    → add t rhs ≡ (
        if ltb (t.usec + rhs.usec) (2 ^ 32)
        then some (record { usec = t.usec + rhs.usec })
        else none)
unfolding add
add_exact t rhs ht hr = ground arith

pub subtract_exact :
    (t rhs : DeltaTime)
    → IsTime t
    → IsTime rhs
    → subtract t rhs
      ≡ (if leb rhs.usec t.usec then some (record { usec = t.usec - rhs.usec }) else none)
unfolding subtract
subtract_exact t rhs ht hr = ground arith

-- If the sum of two 32 bit time spans could be built, subtracting the second one from it gives the
-- first one back.
pub subtract-add :
    (t rhs sum : DeltaTime)
    → IsTime t
    → IsTime rhs
    → add t rhs ≡ some sum
    → subtract sum rhs ≡ some t
unfolding add subtract
subtract-add t rhs sum ht hr e = ground arith

-- The product, where the `assert`s look at it.
product_grows : (a b : ℕ) → 1 < a → 1 < b → a < a * b
product_grows a zero ha hb = absurd (omega arith)
product_grows a (suc zero) ha hb = absurd (omega arith)
product_grows a (suc (suc b)) ha hb = omega arith

-- Scaling a time span by a number gives the exact product, if that fits 32 bits.
pub multiply_exact :
    (t : DeltaTime) (n : ℕ)
    → t.usec * n < 2 ^ 32
    → multiply t n ≡ some (record { usec = t.usec * n })
unfolding multiply
multiply_exact t zero h = ground arith
multiply_exact t (suc n) h =
    ground (arith, product_grows t.usec (suc n), product_grows (suc n) t.usec)

-- Scaling by five a time span of more than 2^30 microseconds whose exact product is below 2^33
-- passes all asserts and gives the product less 2^32.
pub multiply_unnoticed :
    (t : DeltaTime)
    → 2 ^ 30 < t.usec
    → t.usec * 5 < 2 ^ 33
    → multiply t 5 ≡ some (record { usec = t.usec * 5 - 2 ^ 32 })
unfolding multiply
multiply_unnoticed t lo hi = ground arith

-- For a time span of at most 10^8 microseconds and at most 1000 parts per million, ppm gives the
-- part rounded down, or one microsecond less.
pub ppm_close :
    (t : DeltaTime) (part : ℕ)
    → t.usec ≤ 100000000
    → part ≤ 1000
    → ((ppm t part).usec ≤ t.usec * part / 1000000)
      × (t.usec * part / 1000000 ≤ (ppm t part).usec + 1)
unfolding ppm
ppm_close t part ht hp = let b = mul-le-mul ht hp in ground arith

-- What is printed, in microseconds.
abbrev pub printed_usec : ℕ × TimeUnit → ℕ
printed_usec (n, milliseconds) = n * 1000
printed_usec (n, microseconds) = n

pub print_exact : (t : DeltaTime) → printed_usec (print t) ≡ t.usec
unfolding print
print_exact t = ground arith
