-- ===== src/HandleMapping/Characteristics.antt =====
-- bluetoe/attribute_handle.hpp: the handles of characteristics.
use bluetoe.Shared.{
  ℕ, zero, suc, ◌+◌, ◌-◌, ◌<◌, ◌≤◌, ◌≡◌, refl, sym, ap, ap₂, ◌∙◌, arith, true, false, Bool-cases,
  ◌⊎◌, ◌^◌, ◌%◌, inl, inr, Option, none, some, List, [], ◌∷◌, ◌++◌, ◌==◌, leb, ltb, length, get_or,
  length-append,
}
use bluetoe.HandleMapping.{
  HandleOption, no_handles, attribute_handle, attribute_handles, CharacteristicLayout,
  select_attribute_handles, selected_handles, characteristic_end_handle,
  characteristic_attribute_handle_by_index, characteristic_attribute_index_by_handle,
  attribute_handle_by_index, attribute_index_by_handle, last_characteristic_end_handle,
  sum_by_attributes,
}
use bluetoe.HandleMapping.Ascending.{
  first_at_least, IsAscending, IsAscending-append, first_at_least-append, first_at_least-high,
  get_or-append, moved, or_else,
}

abbrev pub from_to : ℕ → ℕ → List ℕ
from_to a zero = []
from_to a (suc n) = a ∷ from_to (a + 1) n

-- The handles of a characteristic: declaration, value, and those from the CCCD on.
abbrev pub handles_of : ℕ → CharacteristicLayout → List ℕ
handles_of start c =
    (selected_handles start c).declaration_handle
    ∷ (selected_handles start c).value_handle
    ∷ from_to (selected_handles start c).cccd_handle (c.number_of_attributes - 2)

-- What the `static_assert`s ask for, and that the handles of so many attributes end below 2^16.
abbrev pub IsIncreasing : ℕ → HandleOption → ℕ → Type 0
IsIncreasing start no_handles n = start + n < 2 ^ 16
IsIncreasing start (attribute_handle h) n = (start ≤ h) × (h + n < 2 ^ 16)
IsIncreasing start (attribute_handles d v c) n =
    (start ≤ d) × (d < v) × (v + n < 2 ^ 16 + 1) × ((c ≡ 0) ⊎ ((v < c) × (c + n < 2 ^ 16 + 2)))

length-from_to : (a n : ℕ) → length (from_to a n) ≡ n
length-from_to a zero = refl
length-from_to a (suc n) = ap suc (length-from_to (a + 1) n)

get_or-from_to : (a n i : ℕ) → i < n → get_or (from_to a n) i 0 ≡ a + i
get_or-from_to a zero i h = ground arith
get_or-from_to a (suc n) zero h = omega arith
get_or-from_to a (suc n) (suc i) h = get_or-from_to (a + 1) n i (omega arith) ∙ omega arith

from_to-IsAscending : (lo a n : ℕ) → lo ≤ a → IsAscending lo (from_to a n) (a + n)
from_to-IsAscending lo a zero h = omega arith
from_to-IsAscending lo a (suc n) h = (
  h,
  (let e : a + suc n ≡ a + 1 + n = omega arith in
      rw e (from_to-IsAscending (a + 1) (a + 1) n (omega arith))),
)

first_at_least-from_to :
    (h a n : ℕ) → h < a + n → 0 < n → first_at_least h (from_to a n) ≡ some (h - a)
unfolding first_at_least
first_at_least-from_to h a zero l p = ground arith
first_at_least-from_to h a (suc n) l p = elim (Bool-cases (leb h a)) [
  | inl e ↦ let here : h - a ≡ 0 = ground arith in rw (e, here) refl
  | inr e ↦
      rw (e, first_at_least-from_to h (a + 1) n (ground arith) (ground arith))
        (ap some (ground arith))
]

-- The handles of a characteristic in their order.
ordered :
    (start : ℕ) (o : HandleOption) (n : ℕ)
    → IsIncreasing start o n
    → 2 ≤ n
    → let s = select_attribute_handles start o in
      (start ≤ s.declaration_handle)
      × (s.declaration_handle < s.value_handle)
      × (s.value_handle < s.cccd_handle)
      × (s.cccd_handle + (n - 2) < 2 ^ 16)
ordered start no_handles n h two = omega arith
ordered start (attribute_handle x) n h two = omega arith
ordered start (attribute_handles d v c) n h two = ground arith

module _ (start : ℕ) (c : CharacteristicLayout)
    (valid : IsIncreasing start c.handle_option c.number_of_attributes)
    (two : 2 ≤ c.number_of_attributes) where
  pub length-handles_of : length (handles_of start c) ≡ c.number_of_attributes
  length-handles_of =
      let e = length-from_to (selected_handles start c).cccd_handle (c.number_of_attributes - 2) in
      omega arith

  pub handles_of-IsAscending :
      IsAscending start (handles_of start c) (characteristic_end_handle start c)
  unfolding characteristic_end_handle
  handles_of-IsAscending =
      let (a, b, d, below) = ordered start c.handle_option c.number_of_attributes valid two in
      elim (Bool-cases (c.number_of_attributes == 2)) [
        | inl e ↦
            let none_more : c.number_of_attributes - 2 ≡ 0 = ground arith in
            let end : ((selected_handles start c).value_handle + 1) % 2 ^ 16
                ≡ (selected_handles start c).value_handle + 1 =
              omega arith in
            rw (e, none_more, end) (a, (omega arith, omega arith))
        | inr e ↦
            let end : ((selected_handles start c).cccd_handle + (c.number_of_attributes - 2))
                  % 2 ^ 16
                ≡ (selected_handles start c).cccd_handle + (c.number_of_attributes - 2) =
              omega arith in
            rw (e, end) (a, (omega arith, from_to-IsAscending _ _ _ (omega arith)))
      ]

  pub handle-handles_of :
      (start_index k : ℕ)
      → k < c.number_of_attributes
      → characteristic_attribute_handle_by_index start c start_index (start_index + k)
        ≡ get_or (handles_of start c) k 0
  unfolding characteristic_attribute_handle_by_index
  handle-handles_of start_index zero h = ground arith
  handle-handles_of start_index (suc zero) h = ground arith
  handle-handles_of start_index (suc (suc k)) h = ground (
    arith,
    ordered start c.handle_option c.number_of_attributes valid two,
    get_or-from_to (selected_handles start c).cccd_handle (c.number_of_attributes - 2) k
        (omega arith),
  )

  pub index-handles_of :
      (start_index h : ℕ)
      → h < characteristic_end_handle start c
      → some (characteristic_attribute_index_by_handle start c start_index h)
        ≡ moved start_index (first_at_least h (handles_of start c))
  unfolding characteristic_attribute_index_by_handle characteristic_end_handle first_at_least
  index-handles_of start_index h l =
      let (a, b, d, below) = ordered start c.handle_option c.number_of_attributes valid two in
      elim (Bool-cases (leb h (selected_handles start c).declaration_handle)) [
        | inl e ↦ rw (characteristic_attribute_index_by_handle, e) refl
        | inr e ↦ elim (Bool-cases (leb h (selected_handles start c).value_handle)) [
          | inl g ↦ rw (characteristic_attribute_index_by_handle, e, g) refl
          | inr g ↦
              let inside : h
                  < (selected_handles start c).cccd_handle + (c.number_of_attributes - 2) =
                ground arith in
              let more : 0 < c.number_of_attributes - 2 = ground arith in
              rw
                (
                  characteristic_attribute_index_by_handle,
                  e,
                  g,
                  first_at_least-from_to h (selected_handles start c).cccd_handle
                      (c.number_of_attributes - 2) inside more,
                )
                (ap some (ground arith))
        ]
      ]

-- The handles of all characteristics of a service, from where the first may start.
abbrev pub all_handles : ℕ → List CharacteristicLayout → List ℕ
all_handles start [] = []
all_handles start (c ∷ cs) =
    handles_of start c ++ all_handles (characteristic_end_handle start c) cs

abbrev pub AreIncreasing : ℕ → List CharacteristicLayout → Type 0
AreIncreasing start [] = 0 < 1
AreIncreasing start (c ∷ cs) =
    IsIncreasing start c.handle_option c.number_of_attributes
    × (2 ≤ c.number_of_attributes)
    × AreIncreasing (characteristic_end_handle start c) cs

pub length-all_handles :
    (start : ℕ) (cs : List CharacteristicLayout)
    → AreIncreasing start cs
    → length (all_handles start cs) ≡ sum_by_attributes cs
length-all_handles start [] v = refl
length-all_handles start (c ∷ cs) (v, two, vs) =
    length-append (handles_of start c) (all_handles (characteristic_end_handle start c) cs)
    ∙ ap₂ ◌+◌ (length-handles_of start c v two)
        (length-all_handles (characteristic_end_handle start c) cs vs)

pub all_handles-IsAscending :
    (start : ℕ) (cs : List CharacteristicLayout)
    → AreIncreasing start cs
    → IsAscending start (all_handles start cs) (last_characteristic_end_handle start cs)
unfolding last_characteristic_end_handle
all_handles-IsAscending start [] v = omega arith
all_handles-IsAscending start (c ∷ cs) (v, two, vs) =
    IsAscending-append start (characteristic_end_handle start c) _ (handles_of start c) _
      (handles_of-IsAscending start c v two)
      (all_handles-IsAscending (characteristic_end_handle start c) cs vs)

pub last_characteristic_end_handle-bound :
    (start : ℕ) (cs : List CharacteristicLayout)
    → start < 2 ^ 16
    → last_characteristic_end_handle start cs < 2 ^ 16
unfolding last_characteristic_end_handle characteristic_end_handle
last_characteristic_end_handle-bound start [] h = h
last_characteristic_end_handle-bound start (c ∷ cs) h =
    last_characteristic_end_handle-bound (characteristic_end_handle start c) cs (ground arith)

-- Behind the attributes of all characteristics there is no handle.
pub attribute_handle_by_index-behind :
    (start start_index k : ℕ) (cs : List CharacteristicLayout)
    → sum_by_attributes cs ≤ k
    → attribute_handle_by_index start start_index cs (start_index + k) ≡ 0
unfolding attribute_handle_by_index
attribute_handle_by_index-behind start start_index k [] h = refl
attribute_handle_by_index-behind start start_index k (c ∷ cs) h =
    let n = c.number_of_attributes in
    let test : ltb (start_index + k) (start_index + n) ≡ false = ground arith in
    let place : start_index + k ≡ start_index + n + (k - n) = omega arith in
    let end = characteristic_end_handle start c in
    rw (attribute_handle_by_index, test)
      (ap (attribute_handle_by_index end (start_index + n) cs) place
        ∙ attribute_handle_by_index-behind end (start_index + n) (k - n) cs (omega arith))

pub handle-all_handles :
    (start start_index k : ℕ) (cs : List CharacteristicLayout)
    → AreIncreasing start cs
    → attribute_handle_by_index start start_index cs (start_index + k)
      ≡ get_or (all_handles start cs) k 0
unfolding attribute_handle_by_index
handle-all_handles start start_index k [] v = refl
handle-all_handles start start_index k (c ∷ cs) (v, two, vs) =
    let size = length-handles_of start c v two in
    elim (Bool-cases (ltb k c.number_of_attributes)) [
      | inl e ↦
          let test : ltb (start_index + k) (start_index + c.number_of_attributes) ≡ true =
            ground arith in
          rw (attribute_handle_by_index, test)
            (handle-handles_of start c v two start_index k (ground arith)
              ∙ sym (
                  get_or-append (handles_of start c)
                    (all_handles (characteristic_end_handle start c) cs) k
                  ∙ rw (size, e) refl))
      | inr e ↦
          let test : ltb (start_index + k) (start_index + c.number_of_attributes) ≡ false =
            ground arith in
          let place : start_index + k
              ≡ start_index + c.number_of_attributes + (k - c.number_of_attributes) =
            ground arith in
          rw (attribute_handle_by_index, test)
            (ap
                (attribute_handle_by_index (characteristic_end_handle start c)
                  (start_index + c.number_of_attributes) cs)
                place
              ∙ handle-all_handles (characteristic_end_handle start c)
                  (start_index + c.number_of_attributes) (k - c.number_of_attributes) cs vs
              ∙ sym (
                  get_or-append (handles_of start c)
                    (all_handles (characteristic_end_handle start c) cs) k
                  ∙ rw (size, e) refl))
    ]

pub or_else-some :
    (o : Option ℕ) (i si : ℕ) (b : Option ℕ) → some i ≡ moved si o → some i ≡ moved si (or_else o b)
or_else-some none i si b h = ground arith
or_else-some (some j) i si b h = h

pub moved-moved : (a b : ℕ) (o : Option ℕ) → moved (a + b) o ≡ moved a (moved b o)
moved-moved a b none = refl
moved-moved a b (some i) = ap some (omega arith)

pub index-all_handles :
    (start start_index h : ℕ) (cs : List CharacteristicLayout)
    → AreIncreasing start cs
    → attribute_index_by_handle start start_index cs h
      ≡ moved start_index (first_at_least h (all_handles start cs))
unfolding attribute_index_by_handle first_at_least
index-all_handles start start_index h [] v = refl
index-all_handles start start_index h (c ∷ cs) (v, two, vs) =
    let both =
      first_at_least-append h (handles_of start c)
        (all_handles (characteristic_end_handle start c) cs) in
    elim (Bool-cases (ltb h (characteristic_end_handle start c))) [
      | inl e ↦
          rw (attribute_index_by_handle, e)
            (or_else-some _ _ start_index _
                (index-handles_of start c v two start_index h (ground arith))
              ∙ sym (ap (moved start_index) both))
      | inr e ↦
          let behind =
            first_at_least-high start (characteristic_end_handle start c) h (handles_of start c)
              (handles_of-IsAscending start c v two) (ground arith) in
          let size = length-handles_of start c v two in
          let found : first_at_least h
                (handles_of start c ++ all_handles (characteristic_end_handle start c) cs)
              ≡ moved c.number_of_attributes
                  (first_at_least h (all_handles (characteristic_end_handle start c) cs)) =
            both ∙ rw (behind, size) refl in
          rw (attribute_index_by_handle, e)
            (index-all_handles (characteristic_end_handle start c)
                (start_index + c.number_of_attributes) h cs vs
              ∙ moved-moved start_index c.number_of_attributes _
              ∙ sym (ap (moved start_index) found))
    ]

found_first :
    (o b : Option ℕ) {all : Option ℕ} (k : ℕ)
    → some k ≡ moved 0 o
    → all ≡ or_else o b
    → (i : ℕ) × (all ≡ some i)
found_first none b k h e = ground arith
found_first (some i) b k h e = (i, e)

-- A handle between the start and the end is at or before one of the characteristics'.
pub found_in_characteristics :
    (start h : ℕ) (cs : List CharacteristicLayout)
    → AreIncreasing start cs
    → start ≤ h
    → h < last_characteristic_end_handle start cs
    → (i : ℕ) × (first_at_least h (all_handles start cs) ≡ some i)
unfolding last_characteristic_end_handle
found_in_characteristics start h [] v l g = ground arith
found_in_characteristics start h (c ∷ cs) (v, two, vs) l g =
    let both =
      first_at_least-append h (handles_of start c)
        (all_handles (characteristic_end_handle start c) cs) in
    elim (Bool-cases (ltb h (characteristic_end_handle start c))) [
      | inl e ↦
          let here = index-handles_of start c v two 0 h (ground arith) in
          found_first (first_at_least h (handles_of start c)) _ _ here both
      | inr e ↦
          let behind =
            first_at_least-high start (characteristic_end_handle start c) h (handles_of start c)
              (handles_of-IsAscending start c v two) (ground arith) in
          let (i, f) =
            found_in_characteristics (characteristic_end_handle start c) h cs vs (ground arith) g in
          (length (handles_of start c) + i, both ∙ rw (behind, f) refl)
    ]
