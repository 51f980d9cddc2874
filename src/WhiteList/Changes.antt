-- ===== src/WhiteList/Changes.antt =====
-- bluetoe/link_layer/include/bluetoe/white_list.hpp: the white list as a set of addresses.
use bluetoe.Shared.{
  ℕ, suc, ◌+◌, ◌-◌, ◌≤◌, ◌<◌, true, false, List, ◌==◌, get_or, length, set, ◌≡◌, ◌↔◌, arith,
  Bool-cases, inl, inr, refl, ◌≢◌, ◌⊎◌, get_or-set_self, get_or-set_ne, sym, ap, subst, ◌∙◌, ==_iff,
}
use mathlib.Core.Bool.{true≢false}
use bluetoe.Address.{DeviceAddress, default_address}
use bluetoe.WhiteList.{
  WhiteList, find_address, is_in_white_list, add_to_white_list, remove_from_white_list,
}
use bluetoe.WhiteList.Entries.{
  IsAmong, Holds, IsValid, find_address_found, find_address_complete, is_in_white_list_iff,
}

pub same_or_not : (i j : ℕ) → (i ≡ j) ⊎ (i ≢ j)
same_or_not i j = elim (Bool-cases (i == j)) [
  | inl e ↦ inl ((==_iff i j).0 e)
  | inr e ↦ inr (λ q. ground arith)
]

appended :
    (xs : List DeviceAddress) (n : ℕ) (addr b : DeviceAddress)
    → n < length xs
    → IsAmong (set xs n addr) (suc n) b ↔ (IsAmong xs n b ⊎ (b ≡ addr))
appended xs n addr b h = (
  λ (i, l, e). elim (same_or_not i n) [
    | inl q ↦ inr (sym e ∙ rw q (get_or-set_self xs n addr default_address h))
    | inr q ↦
        inl (i, omega (arith, q), sym (get_or-set_ne xs addr default_address (λ r. q (sym r))) ∙ e)
  ],
  λ s. elim s [
    | inl (i, l, e) ↦ (
      i,
      omega arith,
      get_or-set_ne xs addr default_address (λ r. absurd (omega (arith, r, l))) ∙ e,
    )
    | inr e ↦ (n, omega arith, get_or-set_self xs n addr default_address h ∙ sym e)
  ],
)

moved_down :
    (xs : List DeviceAddress) (m pos : ℕ) (b : DeviceAddress)
    → m < length xs
    → pos ≤ m
    → ((i j : ℕ)
        → i < suc m
        → j < suc m
        → get_or xs i default_address ≡ get_or xs j default_address
        → i ≡ j)
    → IsAmong (set xs pos (get_or xs m default_address)) m b
      ↔ (IsAmong xs (suc m) b × (b ≢ get_or xs pos default_address))
moved_down xs m pos b h hp distinct = (
  λ (i, l, e). elim (same_or_not i pos) [
    | inl q ↦
        let there : get_or xs m default_address ≡ b =
          sym (get_or-set_self xs pos (get_or xs m default_address) default_address (omega arith))
          ∙ ap (λ k. get_or (set xs pos (get_or xs m default_address)) k default_address) (sym q)
          ∙ e in
        (
          (m, omega arith, there),
          λ r. absurd (omega (arith, distinct m pos (omega arith) (omega arith) (there ∙ r), q, l)),
        )
    | inr q ↦
        let there : get_or xs i default_address ≡ b =
          sym (get_or-set_ne xs (get_or xs m default_address) default_address (λ r. q (sym r)))
          ∙ e in
        ((i, omega arith, there), λ r. q (distinct i pos (omega arith) (omega arith) (there ∙ r)))
  ],
  λ ((i, l, e), ne). elim (same_or_not i m) [
    | inl q ↦
        let apart : pos ≢ m = λ r. ne (sym e ∙ ap (λ k. get_or xs k default_address) (q ∙ sym r)) in
        (
          pos,
          omega (arith, apart),
          get_or-set_self xs pos (get_or xs m default_address) default_address (omega arith)
              ∙ ap (λ k. get_or xs k default_address) (sym q)
              ∙ e,
        )
    | inr q ↦ (
      i,
      omega (arith, q),
      get_or-set_ne xs (get_or xs m default_address) default_address
            (λ r. ne (sym e ∙ ap (λ k. get_or xs k default_address) (sym r)))
          ∙ e,
    )
  ],
)

-- If add_to_white_list returns true for a valid white list, the white list holds exactly what it
-- held before and the given address.
pub add_to_white_list-Holds :
    (size : ℕ) (w : WhiteList) (addr b : DeviceAddress)
    → IsValid size w
    → (add_to_white_list size w addr).1 ≡ true
    → Holds size (add_to_white_list size w addr).0 b ↔ (Holds size w b ⊎ (b ≡ addr))
unfolding add_to_white_list
add_to_white_list-Holds size w addr b v = elim (Bool-cases (is_in_white_list size w addr)) [
  | inl e ↦
      let there = (is_in_white_list_iff size w addr v).0 e in
      rw e (λ _.
        (λ s. inl s, λ s. elim s [ inl h ↦ h | inr q ↦ subst (λ a. Holds size w a) (sym q) there ]))
  | inr e ↦ elim (Bool-cases (w.free_size == 0)) [
    | inl z ↦ rw e (rw z (λ f. absurd (true≢false (sym f))))
    | inr z ↦
        let more : size - (w.free_size - 1) ≡ suc (size - w.free_size) = ground arith in
        rw e (rw z (rw more (λ _. appended w.addresses (size - w.free_size) addr b (ground arith))))
  ]
]

-- add_to_white_list returns false exactly if a valid white list is full and does not hold the
-- address.
pub add_to_white_list_refuses :
    (size : ℕ) (w : WhiteList) (addr : DeviceAddress)
    → IsValid size w
    → ((add_to_white_list size w addr).1 ≡ false) ↔ ((w.free_size ≡ 0) × (¬ Holds size w addr))
unfolding add_to_white_list
add_to_white_list_refuses size w addr v =
    let held = is_in_white_list_iff size w addr v in
    elim (Bool-cases (is_in_white_list size w addr)) [
      | inl e ↦ rw e (λ f. absurd (true≢false f), λ n. absurd (n.1 (held.0 e)))
      | inr e ↦ elim (Bool-cases (w.free_size == 0)) [
        | inl z ↦ rw e (rw z (λ f. (ground arith, λ s. true≢false (sym (held.1 s) ∙ e)), λ n. refl))
        | inr z ↦ rw e (rw z (λ f. absurd (true≢false f), λ n. absurd (ground arith)))
      ]
    ]

-- After remove_from_white_list, a valid white list holds exactly what it held before, but not the
-- given address.
pub remove_from_white_list-Holds :
    (size : ℕ) (w : WhiteList) (addr b : DeviceAddress)
    → IsValid size w
    → Holds size (remove_from_white_list size w addr).0 b ↔ (Holds size w b × (b ≢ addr))
unfolding remove_from_white_list
remove_from_white_list-Holds size w addr b v =
    let bound : size - w.free_size ≤ length w.addresses = omega arith in
    let pos = find_address w.addresses (size - w.free_size) addr in
    let found = find_address_found w.addresses (size - w.free_size) addr bound in
    elim (Bool-cases (pos == size - w.free_size)) [
      | inl e ↦ rw e (
        λ s. (
          s,
          λ q. absurd (
              ground (
                arith,
                find_address_complete w.addresses (size - w.free_size) addr bound
                    (subst (λ a. Holds size w a) q s),
              )),
        ),
        λ s. s.0,
      )
      | inr e ↦
          let fewer : size - (w.free_size + 1) ≡ size - w.free_size - 1 = omega arith in
          let last : suc (size - w.free_size - 1) ≡ size - w.free_size = ground arith in
          let here = found.1 (ground arith) in
          let m = size - w.free_size - 1 in
          let smaller = set w.addresses pos (get_or w.addresses m default_address) in
          rw e (
            rw fewer (
              subst (λ a. IsAmong smaller m b ↔ (Holds size w b × (b ≢ a))) here
                (subst
                  (λ k.
                    IsAmong smaller m b
                    ↔ (IsAmong w.addresses k b × (b ≢ get_or w.addresses pos default_address)))
                  last
                  (moved_down w.addresses m pos b (omega arith) (ground arith)
                    (λ i j hi hj. v.2 i j (omega arith) (omega arith))))))
    ]
