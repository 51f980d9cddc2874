-- ===== src/WhiteList/Valid.antt =====
-- bluetoe/link_layer/include/bluetoe/white_list.hpp: no address is stored twice.
use bluetoe.Shared.{
  [], ◌∷◌, ℕ, suc, ◌+◌, ◌-◌, ◌≤◌, ◌<◌, List, ◌==◌, get_or, length, set, ◌≡◌, arith, Bool-cases, inl,
  inr, ◌≢◌, get_or-set_self, get_or-set_ne, length-set, sym, subst, ◌∙◌,
}
use mathlib.Core.Bool.{true≢false}
use bluetoe.Address.{DeviceAddress, default_address}
use bluetoe.WhiteList.{
  WhiteList, find_address, is_in_white_list, add_to_white_list, remove_from_white_list,
}
use bluetoe.WhiteList.Entries.{IsAmong, IsValid, find_address_found, is_in_white_list_iff}
use bluetoe.WhiteList.Changes.{same_or_not}

-- The first `n` addresses differ from each other.
abbrev pub IsDistinct : List DeviceAddress → ℕ → Type 0
IsDistinct xs n =
    (i j : ℕ) → i < n → j < n → get_or xs i default_address ≡ get_or xs j default_address → i ≡ j

append-IsDistinct :
    (xs : List DeviceAddress) (n : ℕ) (addr : DeviceAddress)
    → n < length xs
    → ¬ IsAmong xs n addr
    → IsDistinct xs n
    → IsDistinct (set xs n addr) (suc n)
append-IsDistinct xs n addr h new distinct i j hi hj e =
    let self = get_or-set_self xs n addr default_address h in
    let other : (k : ℕ)
        → k ≢ n
        → get_or (set xs n addr) k default_address ≡ get_or xs k default_address =
      λ k ne. get_or-set_ne xs addr default_address (λ r. ne (sym r)) in
    elim (same_or_not i n) [
      | inl q ↦ elim (same_or_not j n) [
        | inl r ↦ q ∙ sym r
        | inr r ↦ absurd (new (j, omega (arith, r), sym (other j r) ∙ sym e ∙ rw q self))
      ]
      | inr q ↦ elim (same_or_not j n) [
        | inl r ↦ absurd (new (i, omega (arith, q), sym (other i q) ∙ e ∙ rw r self))
        | inr r ↦
            distinct i j (omega (arith, q)) (omega (arith, r)) (sym (other i q) ∙ e ∙ other j r)
      ]
    ]

-- Where the last of the addresses takes the place of the one at `pos`.
replace-IsDistinct :
    (xs : List DeviceAddress) (m pos : ℕ)
    → m < length xs
    → pos ≤ m
    → IsDistinct xs (suc m)
    → IsDistinct (set xs pos (get_or xs m default_address)) m
replace-IsDistinct xs m pos h hp distinct i j hi hj e =
    let self = get_or-set_self xs pos (get_or xs m default_address) default_address (omega arith) in
    let other : (k : ℕ)
        → k ≢ pos
        → get_or (set xs pos (get_or xs m default_address)) k default_address
          ≡ get_or xs k default_address =
      λ k ne. get_or-set_ne xs (get_or xs m default_address) default_address (λ r. ne (sym r)) in
    elim (same_or_not i pos) [
      | inl q ↦ elim (same_or_not j pos) [
        | inl r ↦ q ∙ sym r
        | inr r ↦ absurd (
            omega (
              arith,
              hj,
              distinct j m (omega arith) (omega arith) (sym (other j r) ∙ sym e ∙ rw q self),
            ))
      ]
      | inr q ↦ elim (same_or_not j pos) [
        | inl r ↦ absurd (
            omega (
              arith,
              hi,
              distinct i m (omega arith) (omega arith) (sym (other i q) ∙ e ∙ rw r self),
            ))
        | inr r ↦ distinct i j (omega arith) (omega arith) (sym (other i q) ∙ e ∙ other j r)
      ]
    ]

pub add_to_white_list-IsValid :
    (size : ℕ) (w : WhiteList) (addr : DeviceAddress)
    → IsValid size w
    → IsValid size (add_to_white_list size w addr).0
unfolding add_to_white_list
add_to_white_list-IsValid size w addr v = elim (Bool-cases (is_in_white_list size w addr)) [
  | inl e ↦ rw e v
  | inr e ↦ elim (Bool-cases (w.free_size == 0)) [
    | inl z ↦ rw e (rw z v)
    | inr z ↦
        let more : suc (size - w.free_size) ≡ size - (w.free_size - 1) = ground arith in
        let new : ¬ IsAmong w.addresses (size - w.free_size) addr =
          λ s. true≢false (sym ((is_in_white_list_iff size w addr v).1 s) ∙ e) in
        rw e (
          rw z (
            length-set w.addresses (size - w.free_size) addr ∙ v.0,
            omega arith,
            subst (IsDistinct (set w.addresses (size - w.free_size) addr)) more
                (append-IsDistinct w.addresses (size - w.free_size) addr (ground arith) new v.2),
          ))
  ]
]

pub remove_from_white_list-IsValid :
    (size : ℕ) (w : WhiteList) (addr : DeviceAddress)
    → IsValid size w
    → IsValid size (remove_from_white_list size w addr).0
unfolding remove_from_white_list
remove_from_white_list-IsValid size w addr v =
    let pos = find_address w.addresses (size - w.free_size) addr in
    let found = find_address_found w.addresses (size - w.free_size) addr (omega arith) in
    let m = size - w.free_size - 1 in
    elim (Bool-cases (pos == size - w.free_size)) [
      | inl e ↦ rw e v
      | inr e ↦
          let fewer : m ≡ size - (w.free_size + 1) = omega arith in
          let last : suc m ≡ size - w.free_size = ground arith in
          rw e (
            length-set w.addresses pos (get_or w.addresses m default_address) ∙ v.0,
            ground arith,
            subst (IsDistinct (set w.addresses pos (get_or w.addresses m default_address))) fewer (
                replace-IsDistinct w.addresses m pos (ground arith) (ground arith)
                  (λ i j hi hj. v.2 i j (omega arith) (omega arith))),
          )
    ]

-- Addresses are added and removed in any order.
pub data Change : Type 0 where
  added : DeviceAddress → Change
  removed : DeviceAddress → Change

unfoldable pub run_changes : ℕ → WhiteList → List Change → WhiteList
run_changes size w [] = w
run_changes size w (added addr ∷ rest) = run_changes size (add_to_white_list size w addr).0 rest
run_changes size w (removed addr ∷ rest) =
    run_changes size (remove_from_white_list size w addr).0 rest

-- Through any sequence of additions and removals, a white list keeps the size of its array and
-- stores no address twice.
pub run_changes-IsValid :
    (size : ℕ) (w : WhiteList) (changes : List Change)
    → IsValid size w
    → IsValid size (run_changes size w changes)
unfolding run_changes
run_changes-IsValid size w [] v = v
run_changes-IsValid size w (added addr ∷ rest) v =
    run_changes-IsValid size (add_to_white_list size w addr).0 rest
      (add_to_white_list-IsValid size w addr v)
run_changes-IsValid size w (removed addr ∷ rest) v =
    run_changes-IsValid size (remove_from_white_list size w addr).0 rest
      (remove_from_white_list-IsValid size w addr v)
