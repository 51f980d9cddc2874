-- ===== src/Gatt/BoundValue.antt =====
-- bluetoe/utility/include/bluetoe/attribute.hpp: the access to a value that stands in memory, for reads and comparisons.
use bluetoe.Shared.{
  ℕ, ◌-◌, ◌≤◌, arith, min, ◌&&◌, List, [], ◌==◌, if◌then◌else◌, if-elim, ltb, length, take, drop,
}
use bluetoe.Gatt.{
  Access, read_access, write_access, compare_128bit_uuid, compare_value, Values, Accessed, success,
  value_equal, Attribute,
}
use bluetoe.Gatt.ErrorCode
use bluetoe.Gatt.Reads.{begins_with}
use bluetoe.Gatt.Answers.{IsBounded, length-take}

module _ {ℓ} {S : Type ℓ} (memory : List ℕ) where
  -- A result without any bytes.
  abbrev pub only_result : ℕ → Values S → Accessed S
  only_result result values = record { result = result; bytes = []; values = values }

  -- From the offset on, as much as fits.
  unfoldable pub read_memory : ℕ → ℕ → Values S → Accessed S
  read_memory size offset values =
      if ltb (length memory) offset then only_result ErrorCode.invalid_offset values else record {
        result = success;
        bytes = take (min size (length memory - offset)) (drop offset memory);
        values = values;
      }

  -- `attribute_value_read_access`. It is called for reads and comparisons of values.
  unfoldable pub attribute_value_read_access : Access → Values S → Accessed S
  attribute_value_read_access (read_access size offset) values = read_memory size offset values
  attribute_value_read_access (write_access bytes offset) values =
      read_memory (length bytes) offset values
  attribute_value_read_access (compare_128bit_uuid bytes) values = read_memory 16 0 values
  attribute_value_read_access (compare_value bytes) values =
      only_result
        (if (length memory == length bytes) && begins_with memory bytes
          then value_equal
          else ErrorCode.read_not_permitted)
        values

  unfoldable pub attribute_value_read_only_access : Access → Values S → Accessed S
  attribute_value_read_only_access (read_access size offset) values =
      attribute_value_read_access (read_access size offset) values
  attribute_value_read_only_access (compare_value bytes) values =
      attribute_value_read_access (compare_value bytes) values
  attribute_value_read_only_access (write_access bytes offset) values =
      only_result ErrorCode.write_not_permitted values
  attribute_value_read_only_access (compare_128bit_uuid bytes) values =
      only_result ErrorCode.write_not_permitted values

  -- An attribute with such a value.
  abbrev pub value_attribute : ℕ → Attribute S
  value_attribute uuid = record {
    uuid = uuid;
    access = λ a who index values. attribute_value_read_only_access a values;
  }

  pub value_attribute-IsBounded : (uuid : ℕ) → IsBounded (value_attribute uuid)
  unfolding attribute_value_read_only_access attribute_value_read_access read_memory
  value_attribute-IsBounded uuid size offset index who values h =
      if-elim (λ (r : Accessed S). length r.bytes ≤ size) (ltb (length memory) offset)
        (λ t. omega arith)
        (λ f.
          let l = length-take (min size (length memory - offset)) (drop offset memory) in
          omega (arith, l.0))
