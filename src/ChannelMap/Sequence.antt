-- ===== src/ChannelMap/Sequence.antt =====
-- The hop sequence against the channel selection of the Core Specification: event `i` is on the
-- unmapped channel `hop * (i + 1) mod 37`, or if that is not used, on the used channel with the
-- index `unmapped mod number of used channels`.
use bluetoe.Shared.{
  ℕ, zero, suc, ◌+◌, ◌*◌, ◌%◌, ◌≤◌, ◌<◌, ◌≡◌, refl, ◌∙◌, ap, Bool, true, List, arith, if◌then◌else◌,
  length, get_or, inl, inr, Bool-cases, ◌↔◌, ◌||◌, ◌≢◌, ◌==◌, not, each_under, each_under_lem, sym,
  ◌-◌,
}
use bluetoe.ChannelMap.{ChannelMap, in_map, build_used_channel_map, fill_from, reset, data_channel}
use bluetoe.ChannelMap.Used.{IsUsed, get_or-IsUsed}

abbrev unmapped : ℕ → ℕ → ℕ
unmapped hop i = hop * (i + 1) % 37

abbrev remap : List ℕ → List ℕ → ℕ → ℕ
remap map used channel =
    if in_map map channel then channel else get_or used (channel % length used) 0

abbrev pub selected : List ℕ → ℕ → ℕ → ℕ
selected map hop i = remap map (build_used_channel_map map) (unmapped hop i)

get_or-fill_from :
    (map used : List ℕ) (hop n i channel : ℕ)
    → channel < 37
    → i < n
    → get_or (fill_from map used hop n channel) i 0 ≡ remap map used ((channel + hop * i) % 37)
unfolding fill_from
get_or-fill_from map used hop zero i channel c h = absurd (omega arith)
get_or-fill_from map used hop (suc n) zero channel c h = ap (remap map used) (omega arith)
get_or-fill_from map used hop (suc n) (suc i) channel c h =
    get_or-fill_from map used hop n i ((channel + hop) % 37) (omega arith) (omega arith)
    ∙ ap (remap map used) same_channel
  where
    same_channel : ((channel + hop) % 37 + hop * i) % 37 ≡ (channel + hop * suc i) % 37
    same_channel = omega arith

-- reset returns true exactly if the hop increment is from 5 to 16 and the map has at least two
-- used channels.
pub reset_accepts :
    (c : ChannelMap) (map : List ℕ) (hop : ℕ)
    → ((reset c map hop).1 ≡ true)
      ↔ ((5 ≤ hop) × (hop ≤ 16) × (2 ≤ length (build_used_channel_map map)))
unfolding reset
reset_accepts c map hop = ground arith

accepted_entries :
    (c : ChannelMap) (map : List ℕ) (hop : ℕ)
    → (reset c map hop).1 ≡ true
    → (reset c map hop).0.entries ≡ fill_from map (build_used_channel_map map) hop 37 hop
unfolding reset
accepted_entries c map hop h = ground arith

-- After reset accepted a map and a hop increment, data_channel gives, for each of the 37 events,
-- the channel of the channel selection of the Core Specification: hop * (i + 1) mod 37 if it is
-- used, else the used channel with that number modulo the number of used channels.
pub data_channel-selected :
    (c : ChannelMap) (map : List ℕ) (hop index : ℕ)
    → (reset c map hop).1 ≡ true
    → index < 37
    → data_channel (reset c map hop).0 index ≡ selected map hop index
unfolding data_channel
data_channel-selected c map hop index h i =
    ap (λ l. get_or l index 0) (accepted_entries c map hop h)
    ∙ get_or-fill_from map (build_used_channel_map map) hop 37 index hop
        (omega (arith, (reset_accepts c map hop).0 h)) i
    ∙ ap (remap map (build_used_channel_map map)) (omega arith)

selected-IsUsed :
    (map : List ℕ) (hop i : ℕ)
    → 2 ≤ length (build_used_channel_map map)
    → IsUsed map (selected map hop i)
selected-IsUsed map hop i h = elim (Bool-cases (in_map map (unmapped hop i))) [
  | inl e ↦ rw e (omega arith, e)
  | inr e ↦
      rw e (get_or-IsUsed map (unmapped hop i % length (build_used_channel_map map)) (omega arith))
]

-- After reset accepted a map and a hop increment, each of the 37 events is on a channel below 37
-- that the map allows.
pub data_channel-IsUsed :
    (c : ChannelMap) (map : List ℕ) (hop index : ℕ)
    → (reset c map hop).1 ≡ true
    → index < 37
    → IsUsed map (data_channel (reset c map hop).0 index)
data_channel-IsUsed c map hop index h i =
    rw (data_channel-selected c map hop index h i)
      (selected-IsUsed map hop index ((reset_accepts c map hop).0 h).2)

abbrev distinct_hops : ℕ → Bool
distinct_hops hop =
    each_under
      (λ i. each_under (λ j. not (unmapped (hop + 5) i == unmapped (hop + 5) j) || (i == j)) 37) 37

-- 37 is prime: checked for the hop increments from 5 to 16.
hops_table : each_under distinct_hops 12 ≡ true
unfolding each_under
hops_table = refl

unmapped_injective :
    (hop i j : ℕ) → hop < 12 → i < 37 → j < 37 → unmapped (hop + 5) i ≡ unmapped (hop + 5) j → i ≡ j
unmapped_injective hop i j h hi hj e =
    let row = each_under_lem distinct_hops 12 h hops_table in
    let cell = each_under_lem _ {i = j} 37 hj (each_under_lem _ {i = i} 37 hi row) in ground arith

-- After reset accepted a map that allows all 37 channels, no two of the 37 events are on the same
-- channel.
pub data_channel-injective :
    (c : ChannelMap) (map : List ℕ) (hop i j : ℕ)
    → (reset c map hop).1 ≡ true
    → ((channel : ℕ) → channel < 37 → in_map map channel ≡ true)
    → i < 37
    → j < 37
    → i ≢ j
    → data_channel (reset c map hop).0 i ≢ data_channel (reset c map hop).0 j
data_channel-injective c map hop i j h full hi hj ne e = ne (
    unmapped_injective (hop - 5) i j (omega (arith, range)) hi hj
      (rw hop_again (sym (unchanged i hi) ∙ e ∙ unchanged j hj)))
  where
    range : (5 ≤ hop) × (hop ≤ 16) × (2 ≤ length (build_used_channel_map map))
    range = (reset_accepts c map hop).0 h

    hop_again : hop - 5 + 5 ≡ hop
    hop_again = omega (arith, range)

    unchanged : (k : ℕ) → k < 37 → data_channel (reset c map hop).0 k ≡ unmapped hop k
    unchanged k hk =
        data_channel-selected c map hop k h hk ∙ (rw (full (unmapped hop k) (omega arith)))
