-- ===== src/HandleMapping/Services.antt =====
-- bluetoe/attribute_handle.hpp: the handles of services, and of the whole server.
use bluetoe.Shared.{
  ℕ, zero, suc, ◌+◌, ◌-◌, ◌^◌, ◌<◌, ◌≤◌, ◌≡◌, refl, sym, ap, ap₂, ◌∙◌, arith, true, false,
  Bool-cases, inl, inr, Option, none, some, List, [], ◌∷◌, ◌++◌, ◌==◌, leb, ltb, length, get_or,
  map_option, length-append,
}
use bluetoe.HandleMapping.{
  ServiceLayout, service_start_handle, service_end_handle, service_attributes,
  characteristic_handle_by_index, characteristic_first_index_by_handle, service_handle_by_index,
  service_first_index_by_handle, handle_by_index, first_index_by_handle, index_by_handle,
  attribute_handle_by_index, sum_by_attributes,
}
use bluetoe.HandleMapping.Ascending.{
  first_at_least, IsAscending, IsAscending-append, first_at_least-append, first_at_least-high,
  get_or-append, moved, bounds,
}
use bluetoe.HandleMapping.Characteristics.{
  all_handles, AreIncreasing, length-all_handles, all_handles-IsAscending, handle-all_handles,
  index-all_handles, found_in_characteristics, moved-moved, last_characteristic_end_handle-bound,
  attribute_handle_by_index-behind,
}

abbrev pub of_service : ℕ → ServiceLayout → List ℕ
of_service start s =
    service_start_handle start s ∷ all_handles (service_start_handle start s + 1) s.characteristics

abbrev pub of_services : ℕ → List ServiceLayout → List ℕ
of_services start [] = []
of_services start (s ∷ ss) = of_service start s ++ of_services (service_end_handle start s) ss

-- The `static_assert`s, and that all handles are below 2^16, for a service that includes no other.
abbrev pub IsLaidOut : ℕ → ServiceLayout → Type 0
IsLaidOut start s =
    (start ≤ service_start_handle start s)
    × (service_start_handle start s + 1 < 2 ^ 16)
    × (s.number_of_service_attributes ≡ 1)
    × AreIncreasing (service_start_handle start s + 1) s.characteristics

abbrev pub AreLaidOut : ℕ → List ServiceLayout → Type 0
AreLaidOut start [] = 0 < 1
AreLaidOut start (s ∷ ss) = IsLaidOut start s × AreLaidOut (service_end_handle start s) ss

moved-suc : (n : ℕ) (o : Option ℕ) → moved (n + 1) o ≡ moved n (map_option suc o)
moved-suc n none = refl
moved-suc n (some i) = ap some (omega arith)

module _ (start : ℕ) (s : ServiceLayout) (valid : IsLaidOut start s) where
  pub length-of_service : length (of_service start s) ≡ service_attributes s
  length-of_service =
      let size = length-all_handles (service_start_handle start s + 1) s.characteristics valid.3 in
      omega (arith, size, valid.2)

  pub of_service-IsAscending : IsAscending start (of_service start s) (service_end_handle start s)
  unfolding service_end_handle
  of_service-IsAscending = (
    valid.0,
    all_handles-IsAscending (service_start_handle start s + 1) s.characteristics valid.3,
  )

  pub handle-of_service :
      (start_index k : ℕ)
      → characteristic_handle_by_index start start_index s (start_index + k)
        ≡ get_or (of_service start s) k 0
  unfolding characteristic_handle_by_index
  handle-of_service start_index zero = ground arith
  handle-of_service start_index (suc k) =
      let other : (start_index + suc k == start_index) ≡ false = ground arith in
      let place : start_index + suc k ≡ start_index + 1 + k = omega arith in
      rw (other, place)
        (handle-all_handles (service_start_handle start s + 1) (start_index + 1) k s.characteristics
          valid.3)

  pub index-of_service :
      (start_index h : ℕ)
      → characteristic_first_index_by_handle start start_index s h
        ≡ moved start_index (first_at_least h (of_service start s))
  unfolding characteristic_first_index_by_handle first_at_least
  index-of_service start_index h = elim (Bool-cases (leb h (service_start_handle start s))) [
    | inl e ↦ rw (characteristic_first_index_by_handle, e) (ap some (omega arith))
    | inr e ↦
        rw (characteristic_first_index_by_handle, e)
          (index-all_handles (service_start_handle start s + 1) (start_index + 1) h
              s.characteristics valid.3
            ∙ moved-suc start_index _)
  ]

-- `number_of_attributes` of a server
abbrev pub attributes_of : List ServiceLayout → ℕ
attributes_of [] = 0
attributes_of (s ∷ ss) = service_attributes s + attributes_of ss

-- Where the handles of all services end.
abbrev end_of_services : ℕ → List ServiceLayout → ℕ
end_of_services start [] = start
end_of_services start (s ∷ ss) = end_of_services (service_end_handle start s) ss

end_of_services-bound :
    (start : ℕ) (ss : List ServiceLayout)
    → AreLaidOut start ss
    → start < 2 ^ 16
    → end_of_services start ss < 2 ^ 16
unfolding service_end_handle
end_of_services-bound start [] v h = h
end_of_services-bound start (s ∷ ss) (v, vs) h =
    end_of_services-bound (service_end_handle start s) ss vs (
      last_characteristic_end_handle-bound (service_start_handle start s + 1) s.characteristics v.1)

pub of_services-IsAscending :
    (start : ℕ) (ss : List ServiceLayout)
    → AreLaidOut start ss
    → IsAscending start (of_services start ss) (end_of_services start ss)
of_services-IsAscending start [] v = omega arith
of_services-IsAscending start (s ∷ ss) (v, vs) =
    IsAscending-append start (service_end_handle start s) _ (of_service start s) _
      (of_service-IsAscending start s v)
      (of_services-IsAscending (service_end_handle start s) ss vs)

handle-of_services :
    (start start_index k : ℕ) (ss : List ServiceLayout)
    → AreLaidOut start ss
    → service_handle_by_index start start_index ss (start_index + k)
      ≡ get_or (of_services start ss) k 0
unfolding service_handle_by_index
handle-of_services start start_index k [] v = refl
handle-of_services start start_index k (s ∷ ss) (v, vs) =
    let size = length-of_service start s v in
    let all = get_or-append (of_service start s) (of_services (service_end_handle start s) ss) k in
    elim (Bool-cases (ltb k (service_attributes s))) [
      | inl e ↦
          let test : ltb (start_index + k) (start_index + service_attributes s) ≡ true =
            ground arith in
          rw (service_handle_by_index, test)
            (handle-of_service start s v start_index k ∙ sym (all ∙ rw (size, e) refl))
      | inr e ↦
          let test : ltb (start_index + k) (start_index + service_attributes s) ≡ false =
            ground arith in
          let place : start_index + k
              ≡ start_index + service_attributes s + (k - service_attributes s) =
            ground arith in
          rw (service_handle_by_index, test)
            (ap
                (service_handle_by_index (service_end_handle start s)
                  (start_index + service_attributes s) ss)
                place
              ∙ handle-of_services (service_end_handle start s) (start_index + service_attributes s)
                  (k - service_attributes s) ss vs
              ∙ sym (all ∙ rw (size, e) refl))
    ]

found_in_service :
    (start h : ℕ) (s : ServiceLayout)
    → IsLaidOut start s
    → h < service_end_handle start s
    → (i : ℕ) × (first_at_least h (of_service start s) ≡ some i)
unfolding service_end_handle first_at_least
found_in_service start h s v l = elim (Bool-cases (leb h (service_start_handle start s))) [
  | inl e ↦ (0, rw (first_at_least, e) refl)
  | inr e ↦
      let (i, f) =
        found_in_characteristics (service_start_handle start s + 1) h s.characteristics v.3
          (ground arith) l in
      (suc i, rw (first_at_least, e, f) refl)
]

index-of_services :
    (start start_index h : ℕ) (ss : List ServiceLayout)
    → AreLaidOut start ss
    → service_first_index_by_handle start start_index ss h
      ≡ moved start_index (first_at_least h (of_services start ss))
unfolding service_first_index_by_handle first_at_least
index-of_services start start_index h [] v = refl
index-of_services start start_index h (s ∷ ss) (v, vs) =
    let size = length-of_service start s v in
    let all =
      first_at_least-append h (of_service start s) (of_services (service_end_handle start s) ss) in
    elim (Bool-cases (ltb h (service_end_handle start s))) [
      | inl e ↦
          let (i, f) = found_in_service start h s v (ground arith) in
          rw (service_first_index_by_handle, e)
            (index-of_service start s v start_index h
              ∙ ap (moved start_index) (f ∙ sym (all ∙ rw f refl)))
      | inr e ↦
          let behind =
            first_at_least-high start (service_end_handle start s) h (of_service start s)
              (of_service-IsAscending start s v) (ground arith) in
          rw (service_first_index_by_handle, e)
            (index-of_services (service_end_handle start s) (start_index + service_attributes s) h
                ss vs
              ∙ moved-moved start_index (service_attributes s) _
              ∙ sym (ap (moved start_index) (all ∙ rw (behind, size) refl)))
    ]

moved_none : (o : Option ℕ) → moved 0 o ≡ o
moved_none none = refl
moved_none (some i) = ap some (omega arith)

-- What a mapping between indices and handles is, for a list of all handles in ascending order.
pub record IsMapping (handles : List ℕ) (handle_of : ℕ → ℕ) (first_index : ℕ → Option ℕ)
    : Type 0 where
  pub reads : (i : ℕ) → handle_of i ≡ get_or handles i 0
  pub finds : (h : ℕ) → first_index h ≡ first_at_least h handles
  pub last : ℕ
  pub ascending : IsAscending 1 handles last

below-get_or :
    (lo hi i : ℕ) (xs : List ℕ) → IsAscending lo xs hi → hi < 2 ^ 16 → get_or xs i 0 < 2 ^ 16
below-get_or lo hi i [] a h = omega arith
below-get_or lo hi zero (x ∷ xs) a h = let b = bounds (x + 1) hi xs a.1 in omega arith
below-get_or lo hi (suc i) (x ∷ xs) a h = below-get_or (x + 1) hi i xs a.1 h

-- If every service includes no other, the handles that options ask for are increasing, as the
-- static_asserts check, and the handles of each service and characteristic end below 2^16, the
-- handle of an index and the first index for a handle are those of one list of handles in strictly
-- ascending order, and every handle is below 2^16.
pub services-IsMapping :
    (services : List ServiceLayout)
    → AreLaidOut 1 services
    → IsMapping (of_services 1 services) (handle_by_index services) (first_index_by_handle services)
      × ((i : ℕ) → handle_by_index services i < 2 ^ 16)
unfolding handle_by_index first_index_by_handle
services-IsMapping services v =
    let reads : (i : ℕ)
        → service_handle_by_index 1 0 services i ≡ get_or (of_services 1 services) i 0 =
      λ i.
        ap (service_handle_by_index 1 0 services) (omega arith)
        ∙ handle-of_services 1 0 i services v in
    let ascending = of_services-IsAscending 1 services v in
    (
      record {
        reads = reads;
        finds = λ h. index-of_services 1 0 h services v ∙ moved_none _;
        last = end_of_services 1 services;
        ascending = ascending;
      },
      λ i.
          let below =
            below-get_or 1 (end_of_services 1 services) i (of_services 1 services) ascending
              (end_of_services-bound 1 services v (omega arith)) in
          omega (arith, reads i, below),
    )

pub first_at_least-get_or :
    (lo hi i : ℕ) (xs : List ℕ)
    → IsAscending lo xs hi
    → i < length xs
    → (first_at_least (get_or xs i 0) xs ≡ some i) × (lo ≤ get_or xs i 0)
unfolding first_at_least
first_at_least-get_or lo hi i [] a h = ground arith
first_at_least-get_or lo hi zero (x ∷ xs) a h = ground arith
first_at_least-get_or lo hi (suc i) (x ∷ xs) a h =
    let (e, l) = first_at_least-get_or (x + 1) hi i xs a.1 (omega arith) in
    let above : leb (get_or xs i 0) x ≡ false = ground arith in (rw (above, e) refl, ground arith)

length-of_services :
    (start : ℕ) (ss : List ServiceLayout)
    → AreLaidOut start ss
    → length (of_services start ss) ≡ attributes_of ss
length-of_services start [] v = refl
length-of_services start (s ∷ ss) (v, vs) =
    length-append (of_service start s) (of_services (service_end_handle start s) ss)
    ∙ ap₂ ◌+◌ (length-of_service start s v) (length-of_services (service_end_handle start s) ss vs)

-- If every service includes no other, the handles that options ask for are increasing and those of
-- each service and characteristic end below 2^16, the handle of each attribute of the server is
-- not 0 and leads back to its index.
pub index_by_handle-handle_by_index :
    (services : List ServiceLayout) (i : ℕ)
    → AreLaidOut 1 services
    → i < attributes_of services
    → (index_by_handle services (handle_by_index services i) ≡ some i)
      × (0 < handle_by_index services i)
unfolding index_by_handle
index_by_handle-handle_by_index services i v h =
    let m = (services-IsMapping services v).0 in
    let size = length-of_services 1 services v in
    let (e, l) =
      first_at_least-get_or 1 (end_of_services 1 services) i (of_services 1 services)
        (of_services-IsAscending 1 services v) (omega arith) in
    let handle = m.reads i in
    let found : first_index_by_handle services (handle_by_index services i) ≡ some i =
      m.finds (handle_by_index services i)
      ∙ ap (λ x. first_at_least x (of_services 1 services)) handle
      ∙ e in
    (rw found (ground arith), ground arith)

-- The attributes of the first service with an index above the number of its characteristics'
-- attributes, which it has if it includes other services, have the invalid handle 0, whatever
-- services follow.
pub included_without_handle :
    (s : ServiceLayout) (ss : List ServiceLayout) (i : ℕ)
    → sum_by_attributes s.characteristics < i
    → i < service_attributes s
    → handle_by_index (s ∷ ss) i ≡ 0
unfolding handle_by_index service_handle_by_index characteristic_handle_by_index
included_without_handle s ss i h g =
    let inside : ltb i (0 + service_attributes s) ≡ true = ground arith in
    let behind : (i == 0) ≡ false = ground arith in
    let place : i ≡ 0 + 1 + (i - 1) = omega arith in
    rw (handle_by_index, service_handle_by_index, inside, characteristic_handle_by_index, behind)
      (ap (attribute_handle_by_index (service_start_handle 1 s + 1) (0 + 1) s.characteristics) place
        ∙ attribute_handle_by_index-behind (service_start_handle 1 s + 1) (0 + 1) (i - 1)
            s.characteristics (omega arith))
