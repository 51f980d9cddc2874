-- ===== src/HandleMapping/Ascending.antt =====
-- bluetoe/attribute_handle.hpp: the abstract view, a list of handles in ascending order.
use bluetoe.Shared.{
  ℕ, zero, suc, ◌+◌, ◌-◌, ◌≤◌, ◌≡◌, refl, ap, arith, false, Bool-cases, inl, inr, Option, none,
  some, map_option, List, [], ◌∷◌, ◌++◌, if◌then◌else◌, leb, ltb, length, get_or,
}

-- The index of the first handle that is not below the given one.
unfoldable pub first_at_least : ℕ → List ℕ → Option ℕ
first_at_least h [] = none
first_at_least h (x ∷ xs) =
    let rest : Option ℕ = map_option suc (first_at_least h xs) in if leb h x then some 0 else rest

-- In ascending order from a bound on; the handles end below the second bound.
abbrev pub IsAscending : ℕ → List ℕ → ℕ → Type 0
IsAscending lo [] hi = lo ≤ hi
IsAscending lo (x ∷ xs) hi = (lo ≤ x) × IsAscending (x + 1) xs hi

pub IsAscending-append :
    (lo mid hi : ℕ) (xs ys : List ℕ)
    → IsAscending lo xs mid
    → IsAscending mid ys hi
    → IsAscending lo (xs ++ ys) hi
IsAscending-append lo mid hi [] ys h g = widen lo mid hi ys h g
  where
    widen : (lo mid hi : ℕ) (ys : List ℕ) → lo ≤ mid → IsAscending mid ys hi → IsAscending lo ys hi
    widen lo mid hi [] h g = omega arith
    widen lo mid hi (y ∷ ys) h g = (omega arith, g.1)
IsAscending-append lo mid hi (x ∷ xs) ys h g = (h.0, IsAscending-append (x + 1) mid hi xs ys h.1 g)

pub bounds : (lo hi : ℕ) (xs : List ℕ) → IsAscending lo xs hi → lo ≤ hi
bounds lo hi [] h = h
bounds lo hi (y ∷ ys) h = let b = bounds (y + 1) hi ys h.1 in omega arith

-- Handles below the bound are not found behind it.
pub first_at_least-high :
    (lo hi h : ℕ) (xs : List ℕ) → IsAscending lo xs hi → hi ≤ h → first_at_least h xs ≡ none
unfolding first_at_least
first_at_least-high lo hi h [] a g = refl
first_at_least-high lo hi h (x ∷ xs) a g =
    let none_behind = first_at_least-high (x + 1) hi h xs a.1 g in
    let below : leb h x ≡ false = ground (arith, bounds (x + 1) hi xs a.1) in
    rw (first_at_least, below, none_behind) refl

abbrev pub moved : ℕ → Option ℕ → Option ℕ
moved n none = none
moved n (some i) = some (n + i)

abbrev pub or_else : Option ℕ → Option ℕ → Option ℕ
or_else none b = b
or_else (some i) b = some i

moved_zero : (b : Option ℕ) → b ≡ moved 0 b
moved_zero none = refl
moved_zero (some i) = ap some (omega arith)

suc-or_else :
    (n : ℕ) (a b : Option ℕ)
    → map_option suc (or_else a (moved n b)) ≡ or_else (map_option suc a) (moved (suc n) b)
suc-or_else n none none = refl
suc-or_else n none (some i) = ap some (omega arith)
suc-or_else n (some i) b = refl

pub first_at_least-append :
    (h : ℕ) (xs ys : List ℕ)
    → first_at_least h (xs ++ ys)
      ≡ or_else (first_at_least h xs) (moved (length xs) (first_at_least h ys))
unfolding first_at_least
first_at_least-append h [] ys = moved_zero (first_at_least h ys)
first_at_least-append h (x ∷ xs) ys = elim (Bool-cases (leb h x)) [
  | inl e ↦ rw e refl
  | inr e ↦
      rw (e, first_at_least-append h xs ys)
        (suc-or_else (length xs) (first_at_least h xs) (first_at_least h ys))
]

pub get_or-append :
    (xs ys : List ℕ) (i : ℕ)
    → get_or (xs ++ ys) i 0
      ≡ (if ltb i (length xs) then get_or xs i 0 else get_or ys (i - length xs) 0)
get_or-append [] ys i = ground arith
get_or-append (x ∷ xs) ys zero = ground arith
get_or-append (x ∷ xs) ys (suc i) = ground (arith, get_or-append xs ys i)
