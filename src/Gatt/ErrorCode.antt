-- ===== src/Gatt/ErrorCode.antt =====
-- bluetoe/utility/include/bluetoe/codes.hpp: `att_error_codes`.
use bluetoe.Shared.{ℕ}

abbrev pub invalid_handle : ℕ
invalid_handle = 1

abbrev pub read_not_permitted : ℕ
read_not_permitted = 2

abbrev pub write_not_permitted : ℕ
write_not_permitted = 3

abbrev pub invalid_pdu : ℕ
invalid_pdu = 4

abbrev pub request_not_supported : ℕ
request_not_supported = 6

abbrev pub invalid_offset : ℕ
invalid_offset = 7

abbrev pub prepare_queue_full : ℕ
prepare_queue_full = 9

abbrev pub attribute_not_found : ℕ
attribute_not_found = 10

abbrev pub invalid_attribute_value_length : ℕ
invalid_attribute_value_length = 13

abbrev pub unsupported_group_type : ℕ
unsupported_group_type = 16
