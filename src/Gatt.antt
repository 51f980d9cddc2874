-- ===== src/Gatt.antt =====
-- bluetoe/server.hpp: the server that answers the requests of the attribute protocol (ATT), with
-- bluetoe/utility/include/bluetoe/attribute.hpp and codes.hpp beside it. An attribute is a uuid and an access function, over
-- the state of the application and the client's configuration; an answer is a list of bytes, the empty one for an
-- `out_size` of 0. Handlers take the size of the output buffer.
pub mod ErrorCode
pub mod Checks
pub mod Reads
pub mod Discovery
pub mod Writes
pub mod Requests
pub mod Answers
pub mod Sessions
pub mod Prepared
pub mod Execution
pub mod Preparation
pub mod LongWrite
pub mod Information
pub mod Ranges
pub mod BoundValue
pub mod LongRead
pub mod Notification
mod Tests
use bluetoe.Shared.{
  ℕ, zero, suc, ◌+◌, ◌-◌, ◌*◌, ◌/◌, ◌%◌, ◌^◌, ◌≤◌, min, Bool, true, false, Option, none, some, List,
  [], ◌∷◌, ◌==◌, if◌then◌else◌, ltb, length, get_or,
}
use bluetoe.Shared.Memory.{Memory}
use bluetoe.HandleMapping.{exact_index}
use bluetoe.NotificationQueue.{NotificationQueue}
use bluetoe.WriteQueue.{WriteQueue}

-- `connection_security_attributes`; the pairing status is a number.
pub record ConnectionSecurity : Type 0 where
  pub is_encrypted : Bool
  pub pairing_status : ℕ

abbrev pub default_security : ConnectionSecurity
default_security = record { is_encrypted = false; pairing_status = 0 }

-- `attribute_access_arguments`, by their type: the buffer's size and offset of a read, the bytes of the other ones.
pub data Access : Type 0 where
  read_access : ℕ → ℕ → Access
  write_access : List ℕ → ℕ → Access
  compare_128bit_uuid : List ℕ → Access
  compare_value : List ℕ → Access

-- Whose configuration and security an access has: a client's, or the default ones.
pub data Caller : Type 0 where
  of_client : ConnectionSecurity → Caller
  nobody : Caller

abbrev pub security_of : Caller → ConnectionSecurity
security_of (of_client s) = s
security_of nobody = default_security

-- What accesses read and change.
pub record Values {ℓ} (S : Type ℓ) : Type ℓ where
  pub application : S
  pub configurations : Memory

-- The result, what a read has put into the buffer, and the state.
pub record Accessed {ℓ} (S : Type ℓ) : Type ℓ where
  pub result : ℕ
  pub bytes : List ℕ
  pub values : Values S

-- `attribute_access_result`
abbrev pub success : ℕ
success = 0

abbrev pub uuid_equal : ℕ
uuid_equal = 256

abbrev pub value_equal : ℕ
value_equal = 257

pub record Attribute {ℓ} (S : Type ℓ) : Type ℓ where
  pub uuid : ℕ
  pub access : Access → Caller → ℕ → Values S → Accessed S

pub record Service : Type 0 where
  pub number_of_attributes : ℕ
  pub is_128bit : Bool

-- The server's tables and constants, which templates compute: `attribute_at`, `handle_mapping`, the services, and for each
-- characteristic with notifications its index in the table of attributes and in the configurations.
pub record Server {ℓ} (S : Type ℓ) : Type ℓ where
  pub attribute_at : ℕ → Attribute S
  pub number_of_all_attributes : ℕ
  pub services : List Service
  pub handle_by_index : ℕ → ℕ
  pub first_index_by_handle : ℕ → Option ℕ
  pub server_mtu : ℕ
  pub write_queue_size : Option ℕ
  pub attribute_table_index : ℕ → ℕ
  pub client_characteristic_configuration_index : ℕ → ℕ

-- The server's and the connection's state: `connection_data`, the notification queue of `channel_data_t`, the write queue, and
-- whether the L2CAP layer has set its callback.
pub record AttState {ℓ} (S : Type ℓ) : Type ℓ where
  pub values : Values S
  pub client_mtu : ℕ
  pub notifications : NotificationQueue
  pub write_queue : WriteQueue
  pub has_callback : Bool

-- A connection as the server is given it: who it is, and how secure.
pub record Link : Type 0 where
  pub client_id : ℕ
  pub security : ConnectionSecurity

abbrev pub default_att_mtu_size : ℕ
default_att_mtu_size = 23

-- `gatt_uuids`
abbrev pub primary_service : ℕ
primary_service = 10240

abbrev pub internal_128bit_uuid : ℕ
internal_128bit_uuid = 1

-- As a number, an index that is not found is `invalid_attribute_index`, ~0.
abbrev pub index_of : Option ℕ → ℕ
index_of none = 2 ^ 32 - 1
index_of (some i) = i

module _ {ℓ} {S : Type ℓ} (v : Server S) where
  unfoldable pub negotiated_mtu : AttState S → ℕ
  negotiated_mtu s = min v.server_mtu s.client_mtu

  abbrev pub index_by_handle : ℕ → Option ℕ
  index_by_handle handle = exact_index v.handle_by_index (v.first_index_by_handle handle) handle

  abbrev pub access_at : ℕ → Access → Caller → Values S → Accessed S
  access_at index a who values = (v.attribute_at index).access a who index values
