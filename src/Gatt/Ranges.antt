-- ===== src/Gatt/Ranges.antt =====
-- bluetoe/server.hpp: the range of indices that stands for a range of handles, over bluetoe/attribute_handle.hpp.
use bluetoe.Shared.{
  ℕ, zero, suc, ◌+◌, ◌≤◌, ◌<◌, ◌≡◌, sym, subst, ap, ap₂, ◌∙◌, arith, true, false, ◌&&◌, Bool-cases,
  Option-cases, inl, inr, Option, none, some, List, [], ◌∷◌, ◌==◌, if◌then◌else◌, ltb, leb, length,
  get_or, map_option,
}
use bluetoe.HandleMapping.Ascending.{first_at_least, IsAscending}
use bluetoe.HandleMapping.Services.{IsMapping, first_at_least-get_or}
use bluetoe.Gatt.{Server}
use bluetoe.Gatt.Discovery.{up_to, previous_index, ending_index}

-- What is known of the handles and of the index that was found for one.
abbrev IsFound : ℕ → List ℕ → Option ℕ → Type 0
IsFound h xs none = (i : ℕ) → i < length xs → get_or xs i 0 < h
IsFound h xs (some j) =
    (j < length xs) × ((i : ℕ) → i < length xs → leb j i ≡ leb h (get_or xs i 0))

first_at_least-IsFound :
    (lo hi h : ℕ) (xs : List ℕ) → IsAscending lo xs hi → IsFound h xs (first_at_least h xs)
unfolding first_at_least
first_at_least-IsFound lo hi h [] a = λ i less. absurd (omega arith)
first_at_least-IsFound lo hi h (x ∷ xs) a = elim (Bool-cases (leb h x)) [
  | inl e ↦ rw e (omega arith, here e)
  | inr e ↦ rw e (behind e (first_at_least h xs) (first_at_least-IsFound (x + 1) hi h xs a.1))
]
  where
    here : leb h x ≡ true → (i : ℕ) → i < length (x ∷ xs) → leb 0 i ≡ leb h (get_or (x ∷ xs) i 0)
    here e zero less = sym e
    here e (suc i) less =
        let (found, l) = first_at_least-get_or (x + 1) hi i xs a.1 (omega arith) in ground arith

    missing :
        leb h x ≡ false
        → ((i : ℕ) → i < length xs → get_or xs i 0 < h)
        → (i : ℕ) → i < length (x ∷ xs)
        → get_or (x ∷ xs) i 0 < h
    missing e f zero less = ground arith
    missing e f (suc i) less = f i (omega arith)

    there :
        leb h x ≡ false
        → (j : ℕ) → ((i : ℕ) → i < length xs → leb j i ≡ leb h (get_or xs i 0))
        → (i : ℕ) → i < length (x ∷ xs)
        → leb (suc j) i ≡ leb h (get_or (x ∷ xs) i 0)
    there e j f zero less = ground arith
    there e j f (suc i) less = let q = f i (omega arith) in ground arith

    behind :
        leb h x ≡ false → (o : Option ℕ) → IsFound h xs o → IsFound h (x ∷ xs) (map_option suc o)
    behind e none f = missing e f
    behind e (some j) f = (omega arith, there e j f.1)

mono :
    (lo hi i k : ℕ) (xs : List ℕ)
    → IsAscending lo xs hi
    → i < k
    → k < length xs
    → get_or xs i 0 < get_or xs k 0
mono lo hi i k [] a h g = absurd (omega arith)
mono lo hi i zero (x ∷ xs) a h g = absurd (omega arith)
mono lo hi zero (suc k) (x ∷ xs) a h g =
    let (found, l) = first_at_least-get_or (x + 1) hi k xs a.1 (omega arith) in omega arith
mono lo hi (suc i) (suc k) (x ∷ xs) a h g = mono (x + 1) hi i k xs a.1 (omega arith) (omega arith)

mono_le :
    (lo hi i k : ℕ) (xs : List ℕ)
    → IsAscending lo xs hi
    → i < length xs
    → k < length xs
    → leb i k ≡ leb (get_or xs i 0) (get_or xs k 0)
mono_le lo hi i k xs a h g = elim (Bool-cases (ltb i k)) [
  | inl e ↦ let l = mono lo hi i k xs a (ground arith) g in ground arith
  | inr e ↦ elim (Bool-cases (ltb k i)) [
    | inl d ↦ let l = mono lo hi k i xs a (ground arith) h in ground arith
    | inr d ↦ let q : i ≡ k = ground arith in rw q (ground arith)
  ]
]

module _ {ℓ} {S : Type ℓ} (v : Server S) (handles : List ℕ)
    (mapping : IsMapping handles v.handle_by_index v.first_index_by_handle) where
  ending_lem :
      (ending_handle i : ℕ)
      → get_or handles 0 0 ≤ ending_handle
      → i < length handles
      → up_to (ending_index v ending_handle) i ≡ leb (get_or handles i 0) ending_handle
  unfolding ending_index
  ending_lem ending_handle i first less =
      elim (Option-cases (v.first_index_by_handle ending_handle)) [
        | inl e ↦ let f = found e in let below = f i less in rw (ending_index, e) (ground arith)
        | inr (j, e) ↦
            let f = found e in
            let here = mapping.reads j in
            rw (ending_index, e, here) (bounded j ending_handle i f first less)
      ]
    where
      found :
          {o : Option ℕ}
          → v.first_index_by_handle ending_handle ≡ o
          → IsFound ending_handle handles o
      found e =
          subst (IsFound ending_handle handles) (sym (mapping.finds ending_handle) ∙ e)
            (first_at_least-IsFound 1 mapping.last ending_handle handles mapping.ascending)

      between :
          (j ending_handle i : ℕ)
          → IsFound ending_handle handles (some j)
          → get_or handles 0 0 ≤ ending_handle
          → i < length handles
          → (get_or handles j 0 == ending_handle) ≡ false
          → up_to (previous_index (some j)) i ≡ leb (get_or handles i 0) ending_handle
      between zero ending_handle i f first less e = let l = f.1 0 f.0 in absurd (ground arith)
      between (suc j) ending_handle i f first less e =
          let at_end = f.1 (suc j) f.0 in
          let at_i = f.1 i less in
          let order = mono_le 1 mapping.last (suc j) i handles mapping.ascending f.0 less in
          ground arith

      bounded :
          (j ending_handle i : ℕ)
          → IsFound ending_handle handles (some j)
          → get_or handles 0 0 ≤ ending_handle
          → i < length handles
          → up_to
              (if get_or handles j 0 == ending_handle then some j else previous_index (some j))
              i
            ≡ leb (get_or handles i 0) ending_handle
      bounded j ending_handle i f first less =
          elim (Bool-cases (get_or handles j 0 == ending_handle)) [
            | inl e ↦
                let q : get_or handles j 0 ≡ ending_handle = ground arith in
                rw e (
                  mono_le 1 mapping.last i j handles mapping.ascending less f.0
                  ∙ ap (leb (get_or handles i 0)) q)
            | inr e ↦ rw e (between j ending_handle i f first less e)
          ]

  -- If the handles of the server are a list in strictly ascending order, as HandleMapping shows,
  -- and the first one is not above an ending handle, then an attribute lies between the first
  -- index for a starting handle and the ending index just if its handle lies between the two
  -- handles.
  pub range_of_handles :
      (starting_handle ending_handle start i : ℕ)
      → v.first_index_by_handle starting_handle ≡ some start
      → get_or handles 0 0 ≤ ending_handle
      → i < length handles
      → (leb start i && up_to (ending_index v ending_handle) i)
        ≡ (leb starting_handle (v.handle_by_index i) && leb (v.handle_by_index i) ending_handle)
  range_of_handles starting_handle ending_handle start i known first less =
      let found : IsFound starting_handle handles (some start) =
        subst (IsFound starting_handle handles) (sym (mapping.finds starting_handle) ∙ known)
          (first_at_least-IsFound 1 mapping.last starting_handle handles mapping.ascending) in
      ap₂ ◌&&◌ (found.1 i less) (ending_lem ending_handle i first less)
      ∙ ap (λ h. leb starting_handle h && leb h ending_handle) (sym (mapping.reads i))
