-- ===== src/HandleMapping/Tests.antt =====
-- Runs of bluetoe/attribute_handle.hpp, and the theorems on them.
use bluetoe.Shared.{ℕ, ◌^◌, ◌<◌, ◌≡◌, refl, none, some, List, [], ◌∷◌, arith}
use bluetoe.HandleMapping.{
  no_handles, attribute_handle, attribute_handles, CharacteristicLayout, ServiceLayout,
  handle_by_index, first_index_by_handle, index_by_handle, service_handle_by_index,
  characteristic_handle_by_index, attribute_handle_by_index,
  characteristic_attribute_handle_by_index, service_first_index_by_handle, service_end_handle,
  last_characteristic_end_handle, characteristic_end_handle, characteristic_first_index_by_handle,
  attribute_index_by_handle, characteristic_attribute_index_by_handle,
}
use bluetoe.HandleMapping.Services.{
  AreLaidOut, of_services, IsMapping, services-IsMapping, index_by_handle-handle_by_index,
  included_without_handle,
}

abbrev temperature : CharacteristicLayout
temperature = record { handle_option = no_handles; number_of_attributes = 3 }

abbrev humidity : CharacteristicLayout
humidity = record { handle_option = attribute_handles 32 34 0; number_of_attributes = 4 }

abbrev pressure : CharacteristicLayout
pressure = record { handle_option = attribute_handle 64; number_of_attributes = 2 }

-- Two services, the second one with a handle of its own.
abbrev weather : List ServiceLayout
weather =
    record {
      service_handle_option = none;
      number_of_service_attributes = 1;
      characteristics = temperature ∷ humidity ∷ [];
    }
    ∷ record {
      service_handle_option = some 48;
      number_of_service_attributes = 1;
      characteristics = pressure ∷ [];
    }
    ∷ []

-- A service that includes another one.
abbrev including : ServiceLayout
including = record {
  service_handle_option = none;
  number_of_service_attributes = 2;
  characteristics = pressure ∷ [];
}

weather-AreLaidOut : AreLaidOut 1 weather
unfolding service_end_handle last_characteristic_end_handle characteristic_end_handle
weather-AreLaidOut = ground arith

-- The last handle leaves none for the value.
abbrev at_the_end : ServiceLayout
at_the_end = record {
  service_handle_option = none;
  number_of_service_attributes = 1;
  characteristics =
      record { handle_option = attribute_handle 65535; number_of_attributes = 2 } ∷ [];
}

wraps : (handle_by_index (at_the_end ∷ []) 1 ≡ 65535) × (handle_by_index (at_the_end ∷ []) 2 ≡ 0)
unfolding handle_by_index service_handle_by_index characteristic_handle_by_index
    attribute_handle_by_index characteristic_attribute_handle_by_index service_end_handle
    last_characteristic_end_handle characteristic_end_handle
wraps = (refl, refl)

runs :
    (handle_by_index weather 0 ≡ 1)
    × (handle_by_index weather 4 ≡ 32)
    × (handle_by_index weather 6 ≡ 35)
    × (handle_by_index weather 8 ≡ 48)
    × (handle_by_index weather 10 ≡ 65)
    × (handle_by_index weather 11 ≡ 0)
    × (first_index_by_handle weather 33 ≡ some 5)
    × (first_index_by_handle weather 37 ≡ some 8)
    × (first_index_by_handle weather 66 ≡ none)
    × (index_by_handle weather 33 ≡ none)
    × (index_by_handle weather 65 ≡ some 10)
unfolding handle_by_index first_index_by_handle index_by_handle service_handle_by_index
    characteristic_handle_by_index attribute_handle_by_index
    characteristic_attribute_handle_by_index service_first_index_by_handle service_end_handle
    last_characteristic_end_handle characteristic_end_handle characteristic_first_index_by_handle
    attribute_index_by_handle characteristic_attribute_index_by_handle
runs = (refl, refl, refl, refl, refl, refl, refl, refl, refl, refl, refl)

services-IsMapping_example :
    IsMapping (of_services 1 weather) (handle_by_index weather) (first_index_by_handle weather)
    × ((i : ℕ) → handle_by_index weather i < 2 ^ 16)
services-IsMapping_example = services-IsMapping weather weather-AreLaidOut

index_by_handle-handle_by_index_example :
    (index_by_handle weather (handle_by_index weather 5) ≡ some 5) × (0 < handle_by_index weather 5)
index_by_handle-handle_by_index_example =
    index_by_handle-handle_by_index weather 5 weather-AreLaidOut (omega arith)

included_without_handle_example : handle_by_index (including ∷ []) 3 ≡ 0
included_without_handle_example = included_without_handle including [] 3 (omega arith) (omega arith)
