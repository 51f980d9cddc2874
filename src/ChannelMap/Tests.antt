-- ===== src/ChannelMap/Tests.antt =====
-- Channel maps of real connections, and the theorems at them.
use bluetoe.Shared.{ℕ, ◌≡◌, refl, true, false, List, [], ◌∷◌, arith, each_under}
use bluetoe.ChannelMap.{ChannelMap, in_map, build_used_channel_map, used_from, reset, data_channel}
use bluetoe.ChannelMap.Sequence.{data_channel-selected}

abbrev initial : ChannelMap
initial = record { entries = []; hop = 0 }

abbrev all_channels : List ℕ
all_channels = 0xff ∷ 0xff ∷ 0xff ∷ 0xff ∷ 0x1f ∷ []

-- Channels 0, 9 and 36.
abbrev three_channels : List ℕ
three_channels = 0x01 ∷ 0x02 ∷ 0 ∷ 0 ∷ 0x10 ∷ []

used_three : build_used_channel_map three_channels ≡ 0 ∷ 9 ∷ 36 ∷ []
unfolding build_used_channel_map used_from in_map
used_three = refl

one_channel_is_refused :
    reset initial (1 ∷ 0 ∷ 0 ∷ 0 ∷ 0 ∷ []) 7 ≡ (record { entries = []; hop = 7 }, false)
unfolding reset build_used_channel_map used_from in_map
one_channel_is_refused = refl

data_channel-selected_example : data_channel (reset initial three_channels 10).0 3 ≡ 0
unfolding reset build_used_channel_map used_from in_map
data_channel-selected_example = data_channel-selected initial three_channels 10 3 refl (omega arith)

all_allowed : each_under (in_map all_channels) 37 ≡ true
unfolding each_under in_map
all_allowed = refl
