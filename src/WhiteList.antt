-- ===== src/WhiteList.antt =====
-- bluetoe/link_layer/include/bluetoe/white_list.hpp: the white list that is kept in software.
pub mod Entries
pub mod Changes
pub mod Valid
mod Tests
use bluetoe.Shared.{
  ℕ, zero, suc, ◌+◌, ◌-◌, Bool, true, false, not, ◌&&◌, ◌||◌, List, [], ◌∷◌, ◌==◌, if◌then◌else◌,
  get_or, set, replicate,
}
use bluetoe.Address.{DeviceAddress, equal_address, default_address}

pub record WhiteList : Type 0 where
  pub free_size : ℕ
  pub addresses : List DeviceAddress
  pub connection_filter : Bool
  pub scan_filter : Bool

unfoldable pub initial_white_list : ℕ → WhiteList
initial_white_list size = record {
  free_size = size;
  addresses = replicate size default_address;
  connection_filter = false;
  scan_filter = false;
}

-- `std::find` in the first `n` entries; `n` if there is none.
unfoldable pub find_address : List DeviceAddress → ℕ → DeviceAddress → ℕ
find_address xs zero addr = 0
find_address [] (suc n) addr = suc n
find_address (x ∷ xs) (suc n) addr =
    let rest : ℕ = find_address xs n addr in if equal_address x addr then 0 else suc rest

unfoldable pub white_list_free_size : WhiteList → ℕ
white_list_free_size w = w.free_size

unfoldable pub set_connection_request_filter : WhiteList → Bool → WhiteList
set_connection_request_filter w b = record w { connection_filter = b }

unfoldable pub set_scan_request_filter : WhiteList → Bool → WhiteList
set_scan_request_filter w b = record w { scan_filter = b }

module _ (size : ℕ) where
  unfoldable pub clear_white_list : WhiteList → WhiteList
  clear_white_list w = record w { free_size = size }

  unfoldable pub is_in_white_list : WhiteList → DeviceAddress → Bool
  is_in_white_list w addr =
      let end : ℕ = size - w.free_size in not (find_address w.addresses end addr == end)

  unfoldable pub add_to_white_list : WhiteList → DeviceAddress → WhiteList × Bool
  add_to_white_list w addr =
      if is_in_white_list w addr then (w, true) else if w.free_size == 0 then (w, false) else (
        record w {
          free_size = w.free_size - 1;
          addresses = set w.addresses (size - w.free_size) addr;
        },
        true,
      )

  -- The last entry takes the place of the removed one.
  unfoldable pub remove_from_white_list : WhiteList → DeviceAddress → WhiteList × Bool
  remove_from_white_list w addr =
      let end : ℕ = size - w.free_size in
      let pos : ℕ = find_address w.addresses end addr in
      if pos == end then (w, false) else (
        record w {
          free_size = w.free_size + 1;
          addresses = set w.addresses pos (get_or w.addresses (end - 1) default_address);
        },
        true,
      )

  unfoldable pub is_connection_request_in_filter : WhiteList → DeviceAddress → Bool
  is_connection_request_in_filter w addr = not w.connection_filter || is_in_white_list w addr

  unfoldable pub is_scan_request_in_filter : WhiteList → DeviceAddress → Bool
  is_scan_request_in_filter w addr = not w.scan_filter || is_in_white_list w addr
