-- ===== src/HandleMapping.antt =====
-- bluetoe/attribute_handle.hpp: from the index of an attribute to its handle, and back.
-- The options of services and characteristics are data. Handles have 16 bits; the number of
-- all attributes is below 2^16. Of an index, `none` is `invalid_attribute_index`.
pub mod Ascending
pub mod Characteristics
pub mod Services
mod Tests
use bluetoe.Shared.{
  ℕ, ◌+◌, ◌-◌, ◌*◌, ◌%◌, ◌^◌, Bool, true, false, not, Option, none, some, List, [], ◌∷◌, ◌==◌,
  if◌then◌else◌, ltb, leb,
}

abbrev pub invalid_attribute_handle : ℕ
invalid_attribute_handle = 0

-- `attribute_handle<>`, `attribute_handles<>`, or neither of them.
pub data HandleOption : Type 0 where
  no_handles : HandleOption
  attribute_handle : ℕ → HandleOption
  attribute_handles : ℕ → ℕ → ℕ → HandleOption

pub record CharacteristicLayout : Type 0 where
  pub handle_option : HandleOption
  pub number_of_attributes : ℕ

pub record SelectedHandles : Type 0 where
  pub declaration_handle : ℕ
  pub value_handle : ℕ
  pub cccd_handle : ℕ

abbrev pub select_attribute_handles : ℕ → HandleOption → SelectedHandles
select_attribute_handles default no_handles = record {
  declaration_handle = default;
  value_handle = (default + 1) % 2 ^ 16;
  cccd_handle = (default + 2) % 2 ^ 16;
}
select_attribute_handles default (attribute_handle h) = record {
  declaration_handle = h;
  value_handle = (h + 1) % 2 ^ 16;
  cccd_handle = (h + 2) % 2 ^ 16;
}
select_attribute_handles default (attribute_handles declaration value cccd) = record {
  declaration_handle = declaration;
  value_handle = value;
  cccd_handle = if cccd == 0 then (value + 1) % 2 ^ 16 else cccd;
}

-- `characteristic_index_mapping`
module _ (start_handle : ℕ) (c : CharacteristicLayout) where
  abbrev pub selected_handles : SelectedHandles
  selected_handles = select_attribute_handles start_handle c.handle_option

  unfoldable pub characteristic_end_handle : ℕ
  characteristic_end_handle =
      if c.number_of_attributes == 2
      then (selected_handles.value_handle + 1) % 2 ^ 16
      else (selected_handles.cccd_handle + (c.number_of_attributes - 2)) % 2 ^ 16

  unfoldable pub characteristic_attribute_handle_by_index : ℕ → ℕ → ℕ
  characteristic_attribute_handle_by_index start_index index =
      let relative_index : ℕ = index - start_index in
      if relative_index == 0
      then selected_handles.declaration_handle
      else if relative_index == 1
      then selected_handles.value_handle
      else if relative_index == 2
      then selected_handles.cccd_handle
      else (relative_index - 2 + selected_handles.cccd_handle) % 2 ^ 16

  unfoldable pub characteristic_attribute_index_by_handle : ℕ → ℕ → ℕ
  characteristic_attribute_index_by_handle start_index handle =
      if leb handle selected_handles.declaration_handle
      then start_index + 0
      else if leb handle selected_handles.value_handle
      then start_index + 1
      else if leb handle selected_handles.cccd_handle
      then start_index + 2
      else start_index + 2 + handle - selected_handles.cccd_handle

-- `interate_characteristic_index_mappings`
unfoldable pub attribute_handle_by_index : ℕ → ℕ → List CharacteristicLayout → ℕ → ℕ
attribute_handle_by_index start_handle start_index [] index = invalid_attribute_handle
attribute_handle_by_index start_handle start_index (c ∷ cs) index =
    let end_index : ℕ = start_index + c.number_of_attributes in
    let next : ℕ =
      attribute_handle_by_index (characteristic_end_handle start_handle c) end_index cs index in
    if ltb index end_index
    then characteristic_attribute_handle_by_index start_handle c start_index index
    else next

unfoldable pub attribute_index_by_handle : ℕ → ℕ → List CharacteristicLayout → ℕ → Option ℕ
attribute_index_by_handle start_handle start_index [] handle = none
attribute_index_by_handle start_handle start_index (c ∷ cs) handle =
    let end_handle : ℕ = characteristic_end_handle start_handle c in
    let next : Option ℕ =
      attribute_index_by_handle end_handle (start_index + c.number_of_attributes) cs handle in
    if ltb handle end_handle
    then some (characteristic_attribute_index_by_handle start_handle c start_index handle)
    else next

unfoldable pub last_characteristic_end_handle : ℕ → List CharacteristicLayout → ℕ
last_characteristic_end_handle start_handle [] = start_handle
last_characteristic_end_handle start_handle (c ∷ cs) =
    last_characteristic_end_handle (characteristic_end_handle start_handle c) cs

abbrev pub sum_by_attributes : List CharacteristicLayout → ℕ
sum_by_attributes [] = 0
sum_by_attributes (c ∷ cs) = c.number_of_attributes + sum_by_attributes cs

-- A service declares itself and what it includes, and has characteristics.
pub record ServiceLayout : Type 0 where
  pub service_handle_option : Option ℕ
  pub number_of_service_attributes : ℕ
  pub characteristics : List CharacteristicLayout

abbrev pub service_attributes : ServiceLayout → ℕ
service_attributes s = s.number_of_service_attributes + sum_by_attributes s.characteristics

abbrev pub service_start_handle : ℕ → ServiceLayout → ℕ
service_start_handle start_handle s = elim s.service_handle_option [
  | none ↦ start_handle
  | some h ↦ h
]

-- `service_index_mapping`
unfoldable pub service_end_handle : ℕ → ServiceLayout → ℕ
service_end_handle start_handle s =
    last_characteristic_end_handle (service_start_handle start_handle s + 1) s.characteristics

unfoldable pub characteristic_handle_by_index : ℕ → ℕ → ServiceLayout → ℕ → ℕ
characteristic_handle_by_index start_handle start_index s index =
    if index == start_index
    then service_start_handle start_handle s
    else attribute_handle_by_index (service_start_handle start_handle s + 1) (start_index + 1)
        s.characteristics index

unfoldable pub characteristic_first_index_by_handle : ℕ → ℕ → ServiceLayout → ℕ → Option ℕ
characteristic_first_index_by_handle start_handle start_index s handle =
    if leb handle (service_start_handle start_handle s)
    then some start_index
    else attribute_index_by_handle (service_start_handle start_handle s + 1) (start_index + 1)
        s.characteristics handle

-- `interate_service_index_mappings`
unfoldable pub service_handle_by_index : ℕ → ℕ → List ServiceLayout → ℕ → ℕ
service_handle_by_index start_handle start_index [] index = invalid_attribute_handle
service_handle_by_index start_handle start_index (s ∷ ss) index =
    let end_index : ℕ = start_index + service_attributes s in
    let next : ℕ = service_handle_by_index (service_end_handle start_handle s) end_index ss index in
    if ltb index end_index
    then characteristic_handle_by_index start_handle start_index s index
    else next

unfoldable pub service_first_index_by_handle : ℕ → ℕ → List ServiceLayout → ℕ → Option ℕ
service_first_index_by_handle start_handle start_index [] handle = none
service_first_index_by_handle start_handle start_index (s ∷ ss) handle =
    let end_handle : ℕ = service_end_handle start_handle s in
    let next : Option ℕ =
      service_first_index_by_handle end_handle (start_index + service_attributes s) ss handle in
    if ltb handle end_handle
    then characteristic_first_index_by_handle start_handle start_index s handle
    else next

-- `handle_index_mapping`, of the services of a server
unfoldable pub handle_by_index : List ServiceLayout → ℕ → ℕ
handle_by_index services index = service_handle_by_index 1 0 services index

unfoldable pub first_index_by_handle : List ServiceLayout → ℕ → Option ℕ
first_index_by_handle services handle = service_first_index_by_handle 1 0 services handle

-- The first index at or behind a handle counts if it has just this handle.
abbrev pub exact_index : (ℕ → ℕ) → Option ℕ → ℕ → Option ℕ
exact_index handle_of none handle = none
exact_index handle_of (some i) handle = if handle_of i == handle then some i else none

unfoldable pub index_by_handle : List ServiceLayout → ℕ → Option ℕ
index_by_handle services handle =
    exact_index (handle_by_index services) (first_index_by_handle services handle) handle
