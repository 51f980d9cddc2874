-- ===== src/WhiteList/Entries.antt =====
-- bluetoe/link_layer/include/bluetoe/white_list.hpp: what the white list holds.
use bluetoe.Shared.{
  ℕ, zero, suc, ◌-◌, ◌≤◌, ◌<◌, Bool, true, false, not, ◌||◌, List, [], ◌∷◌, get_or, length, ◌≡◌,
  ◌↔◌, arith, Bool-cases, inl, inr, refl, ◌⊎◌,
}
use mathlib.Core.Bool.{true≢false}
use bluetoe.Address.{DeviceAddress, equal_address, default_address}
use bluetoe.Address.Same.{equal_address_iff}
use bluetoe.WhiteList.{
  WhiteList, find_address, is_in_white_list, is_connection_request_in_filter,
  is_scan_request_in_filter,
}

abbrev pub entry : WhiteList → ℕ → DeviceAddress
entry w i = get_or w.addresses i default_address

-- `addr` stands among the first `n` addresses.
abbrev pub IsAmong : List DeviceAddress → ℕ → DeviceAddress → Type 0
IsAmong xs n addr = (i : ℕ) × (i < n) × (get_or xs i default_address ≡ addr)

-- `addr` is an entry of the white list.
abbrev pub Holds : ℕ → WhiteList → DeviceAddress → Type 0
Holds size w addr = IsAmong w.addresses (size - w.free_size) addr

-- The array has its size, and no address is stored twice.
abbrev pub IsValid : ℕ → WhiteList → Type 0
IsValid size w =
    (length w.addresses ≡ size)
    × (w.free_size ≤ size)
    × ((i j : ℕ) → i < size - w.free_size → j < size - w.free_size → entry w i ≡ entry w j → i ≡ j)

pub find_address_found :
    (xs : List DeviceAddress) (n : ℕ) (addr : DeviceAddress)
    → n ≤ length xs
    → (find_address xs n addr ≤ n)
      × (find_address xs n addr < n → get_or xs (find_address xs n addr) default_address ≡ addr)
unfolding find_address
find_address_found xs zero addr h = (omega arith, λ l. absurd (omega arith))
find_address_found [] (suc n) addr h = (omega arith, λ l. absurd (omega arith))
find_address_found (x ∷ xs) (suc n) addr h =
    let ih = find_address_found xs n addr (omega arith) in
    elim (Bool-cases (equal_address x addr)) [
      | inl e ↦ rw e (omega arith, λ l. (equal_address_iff x addr).0 e)
      | inr e ↦ rw e (omega (arith, ih.0), λ l. ih.1 (omega arith))
    ]

pub find_address_complete :
    (xs : List DeviceAddress) (n : ℕ) (addr : DeviceAddress)
    → n ≤ length xs
    → IsAmong xs n addr
    → find_address xs n addr < n
unfolding find_address
find_address_complete xs zero addr h (i, l, e) = absurd (omega arith)
find_address_complete [] (suc n) addr h (i, l, e) = absurd (omega arith)
find_address_complete (x ∷ xs) (suc n) addr h (zero, l, e) =
    rw ((equal_address_iff x addr).1 e) (omega arith)
find_address_complete (x ∷ xs) (suc n) addr h (suc i, l, e) =
    let ih = find_address_complete xs n addr (omega arith) (i, omega arith, e) in ground arith

pub is_in_white_list_iff :
    (size : ℕ) (w : WhiteList) (addr : DeviceAddress)
    → IsValid size w
    → (is_in_white_list size w addr ≡ true) ↔ Holds size w addr
unfolding is_in_white_list
is_in_white_list_iff size w addr v =
    let bound : size - w.free_size ≤ length w.addresses = omega arith in
    let found = find_address_found w.addresses (size - w.free_size) addr bound in
    (
      λ h. (
        find_address w.addresses (size - w.free_size) addr,
        ground arith,
        found.1 (ground arith),
      ),
      λ s.
          let l = find_address_complete w.addresses (size - w.free_size) addr bound s in
          ground arith,
    )

filter_iff :
    {b : Bool} {P : Type 0} (on : Bool)
    → (b ≡ true) ↔ P
    → ((not on || b) ≡ true) ↔ ((on ≡ false) ⊎ P)
filter_iff true h =
    (λ e. inr (h.0 e), λ s. elim s [ inl f ↦ absurd (true≢false f) | inr p ↦ h.1 p ])
filter_iff false h = (λ e. inl refl, λ s. refl)

-- A connection or scan request passes its filter exactly if the filter is off or the valid white
-- list holds the address.
pub requests_in_filter_iff :
    (size : ℕ) (w : WhiteList) (addr : DeviceAddress)
    → IsValid size w
    → ((is_connection_request_in_filter size w addr ≡ true)
        ↔ ((w.connection_filter ≡ false) ⊎ Holds size w addr))
      × ((is_scan_request_in_filter size w addr ≡ true)
          ↔ ((w.scan_filter ≡ false) ⊎ Holds size w addr))
unfolding is_connection_request_in_filter is_scan_request_in_filter
requests_in_filter_iff size w addr v =
    let held = is_in_white_list_iff size w addr v in
    (filter_iff w.connection_filter held, filter_iff w.scan_filter held)
