-- ===== src/ChannelMap/Used.antt =====
-- The channels that a map allows.
use bluetoe.Shared.{
  ℕ, zero, suc, ◌+◌, ◌-◌, ◌≤◌, ◌<◌, ◌≡◌, refl, ◌↔◌, subst, ◌==◌, ==_iff, inl, inr, true, List, [],
  ◌∷◌, arith, length, get_or, Every, Bool-cases,
}
use bluetoe.ChannelMap.{max_number_of_data_channels, in_map, used_from, build_used_channel_map}

-- Data channel `c` may be used.
abbrev pub IsUsed : List ℕ → ℕ → Type 0
IsUsed map c = (c < max_number_of_data_channels) × (in_map map c ≡ true)

pub used_from-IsUsed : (map : List ℕ) (n : ℕ) → n ≤ 37 → Every (IsUsed map) (used_from map n)
unfolding used_from
used_from-IsUsed map zero h = tt
used_from-IsUsed map (suc n) h = elim (Bool-cases (in_map map (37 - suc n))) [
  | inl e ↦ rw e ((omega arith, e), used_from-IsUsed map n (omega arith))
  | inr e ↦ rw e (used_from-IsUsed map n (omega arith))
]

-- Every allowed channel from `37 - n` on stands in the list.
pub used_from_complete :
    (map : List ℕ) (n c : ℕ)
    → n ≤ 37
    → 37 ≤ c + n
    → IsUsed map c
    → (i : ℕ) × (i < length (used_from map n)) × (get_or (used_from map n) i 0 ≡ c)
unfolding used_from
used_from_complete map zero c h from u = absurd (omega arith)
used_from_complete map (suc n) c h from u = elim (Bool-cases (37 - suc n == c)) [
  | inl e ↦
      let here : 37 - suc n ≡ c = (==_iff (37 - suc n) c).0 e in
      rw (here, u.1) (0, omega arith, refl)
  | inr e ↦
      let (i, short, found) = used_from_complete map n c (omega arith) (ground arith) u in
      elim (Bool-cases (in_map map (37 - suc n))) [
        | inl b ↦ rw b (suc i, omega arith, found)
        | inr b ↦ rw b (i, short, found)
      ]
]

get_or-Every :
    (P : ℕ → Type 0) (xs : List ℕ) (i : ℕ) → Every P xs → i < length xs → P (get_or xs i 0)
get_or-Every P [] i a h = absurd (omega arith)
get_or-Every P (x ∷ xs) zero a h = a.0
get_or-Every P (x ∷ xs) (suc i) a h = get_or-Every P xs i a.1 (omega arith)

pub get_or-IsUsed :
    (map : List ℕ) (i : ℕ)
    → i < length (build_used_channel_map map)
    → IsUsed map (get_or (build_used_channel_map map) i 0)
unfolding build_used_channel_map
get_or-IsUsed map i h =
    get_or-Every (IsUsed map) (used_from map 37) i (used_from-IsUsed map 37 (omega arith)) h

-- A channel stands in the list of build_used_channel_map exactly if it is below 37 and its bit is
-- set in the map.
pub build_used_channel_map_iff :
    (map : List ℕ) (c : ℕ)
    → IsUsed map c ↔ (
        (i : ℕ) × (i < length (build_used_channel_map map))
        × (get_or (build_used_channel_map map) i 0 ≡ c))
unfolding build_used_channel_map
build_used_channel_map_iff map c = (
  used_from_complete map 37 c (omega arith) (omega arith),
  λ w. subst (IsUsed map) w.2 (get_or-IsUsed map w.0 w.1),
)
