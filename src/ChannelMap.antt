-- ===== src/ChannelMap.antt =====
-- bluetoe/link_layer/channel_map.cpp: `channel_map`.
-- `map` is the channel map of a connection request, five bytes with one bit for a channel; a `std::uint8_t`
-- array is a list of bytes, and a read outside of it gives 0.
pub mod Used
pub mod Sequence
mod Tests
use bluetoe.Shared.{
  ℕ, zero, suc, ◌+◌, ◌-◌, ◌*◌, ◌/◌, ◌%◌, ◌^◌, Bool, false, true, ◌||◌, not, List, [], ◌∷◌, ◌++◌,
  ltb, leb, ◌==◌, if◌then◌else◌, length, get_or,
}

abbrev pub max_number_of_data_channels : ℕ
max_number_of_data_channels = 37

-- `map[ index / 8 ] & ( 1 << ( index % 8 ) )`: the bit is picked by a shift.
unfoldable pub in_map : List ℕ → ℕ → Bool
in_map map index = get_or map (index / 8) 0 / 2 ^ (index % 8) % 2 == 1

-- The loop of `build_used_channel_map`, with `n` channels to go; `used` grows at its end.
unfoldable pub used_from : List ℕ → ℕ → List ℕ
used_from map zero = []
used_from map (suc n) =
    let channel : ℕ = max_number_of_data_channels - suc n in
    let rest : List ℕ = used_from map n in if in_map map channel then channel ∷ rest else rest

unfoldable pub build_used_channel_map : List ℕ → List ℕ
unfolding used_from
build_used_channel_map map = used_from map max_number_of_data_channels

-- The loop of `reset` that fills `map_`, with `n` entries to go.
unfoldable pub fill_from : List ℕ → List ℕ → ℕ → ℕ → ℕ → List ℕ
fill_from map used hop zero channel = []
fill_from map used hop (suc n) channel =
    (if in_map map channel then channel else get_or used (channel % length used) 0)
    ∷ fill_from map used hop n ((channel + hop) % max_number_of_data_channels)

pub record ChannelMap : Type 0 where
  pub entries : List ℕ
  pub hop : ℕ

-- `reset( map, hop )`: the new state and the result. `hop_` is written before the map is checked.
unfoldable pub reset : ChannelMap → List ℕ → ℕ → ChannelMap × Bool
reset c map hop =
    if ltb hop 5 || ltb 16 hop
    then (c, false)
    else (let used : List ℕ = build_used_channel_map map in
        if ltb (length used) 2 then (record c { hop = hop }, false) else (
          record { entries = fill_from map used hop max_number_of_data_channels hop; hop = hop },
          true,
        ))

-- `reset( map )` keeps the hop increment.
unfoldable pub reset_map : ChannelMap → List ℕ → ChannelMap × Bool
reset_map c map = reset c map c.hop

unfoldable pub data_channel : ChannelMap → ℕ → ℕ
data_channel c index = get_or c.entries index 0
