-- ===== src/DeltaTime.antt =====
-- bluetoe/link_layer/delta_time.cpp: `delta_time`.
-- A time span is a count of microseconds in 32 bits. An operation that ends in a failed `assert` gives
-- `none`; what wraps at 32 bits does so here too.
pub mod Arithmetic
mod Tests
use bluetoe.Shared.{
  ℕ, zero, suc, ◌+◌, ◌-◌, ◌*◌, ◌/◌, ◌%◌, ◌^◌, Bool, true, false, not, ◌&&◌, ◌||◌, Option, none,
  some, ltb, leb, ◌==◌, if◌then◌else◌,
}

pub record DeltaTime : Type 0 where
  pub usec : ℕ

-- The constructor, from a `std::uint32_t`.
abbrev pub delta_time : ℕ → DeltaTime
delta_time n = record { usec = n % 2 ^ 32 }

unfoldable pub msec : ℕ → Option DeltaTime
msec n =
    let wrapped : ℕ = n * 1000 % 2 ^ 32 in if leb n wrapped then some (delta_time wrapped) else none

abbrev pub now : DeltaTime
now = delta_time 0

-- `operator+=`
unfoldable pub add : DeltaTime → DeltaTime → Option DeltaTime
add t rhs =
    let sum : ℕ = (t.usec + rhs.usec) % 2 ^ 32 in
    if leb t.usec sum && leb rhs.usec sum then some (record { usec = sum }) else none

-- `operator-=`: the difference of two `std::uint32_t` wraps at zero.
unfoldable pub subtract : DeltaTime → DeltaTime → Option DeltaTime
subtract t rhs =
    let diff : ℕ = (t.usec + (2 ^ 32 - rhs.usec)) % 2 ^ 32 in
    if leb diff t.usec then some (record { usec = diff }) else none

-- `operator*=`
unfoldable pub multiply : DeltaTime → ℕ → Option DeltaTime
multiply t rhs =
    if (rhs == 0) || (t.usec == 0)
    then some (record { usec = 0 })
    else if ltb 1 rhs
    then (if t.usec == 1
        then some (record { usec = rhs })
        else (let prod : ℕ = t.usec * rhs % 2 ^ 32 in
            if ltb t.usec prod && ltb rhs prod then some (record { usec = prod }) else none))
    else some t

-- `operator/`
unfoldable pub divide : DeltaTime → DeltaTime → Option ℕ
divide t rhs = if rhs.usec == 0 then none else some (t.usec / rhs.usec)

unfoldable pub less : DeltaTime → DeltaTime → Bool
less t rhs = ltb t.usec rhs.usec

unfoldable pub less_equal : DeltaTime → DeltaTime → Bool
less_equal t rhs = leb t.usec rhs.usec

unfoldable pub greater : DeltaTime → DeltaTime → Bool
greater t rhs = ltb rhs.usec t.usec

unfoldable pub greater_equal : DeltaTime → DeltaTime → Bool
greater_equal t rhs = leb rhs.usec t.usec

unfoldable pub equal : DeltaTime → DeltaTime → Bool
equal t rhs = t.usec == rhs.usec

unfoldable pub not_equal : DeltaTime → DeltaTime → Bool
not_equal t rhs = not (t.usec == rhs.usec)

unfoldable pub is_zero : DeltaTime → Bool
is_zero t = t.usec == 0

-- The product is taken in 64 bits; the shift by 47 divides by `2 ^ 47`.
unfoldable pub ppm : DeltaTime → ℕ → DeltaTime
ppm t part = delta_time (t.usec * part * 140737488 % 2 ^ 64 / 2 ^ 47)

pub data TimeUnit : Type 0 where
  milliseconds : TimeUnit
  microseconds : TimeUnit

-- The number and the unit that `print` writes.
unfoldable pub print : DeltaTime → ℕ × TimeUnit
print t =
    if (t.usec == 0) || (t.usec % 1000 == 0)
    then (t.usec / 1000, milliseconds)
    else (t.usec, microseconds)

-- `operator*` of a number and a time span.
unfoldable pub times : ℕ → DeltaTime → Option DeltaTime
times lhs rhs = multiply rhs lhs
