-- ===== src/L2cap/Pending.antt =====
-- bluetoe/l2cap.hpp: the loop that collects what the channels have to say.
use bluetoe.Shared.{
  ℕ, zero, suc, ◌<◌, ◌≡◌, refl, ap, subst, arith, true, false, Bool-cases, Option-cases, inl, inr,
  Option, none, some, List, [], ◌∷◌, length, ◌==◌, if◌then◌else◌,
}
use bluetoe.L2cap.{
  Channel, LinkBuffer, has_room, commit, with_l2cap_header, output_of_channels,
  transmit_single_pending_l2cap_output, transmit_pending_l2cap_output,
}
use bluetoe.L2cap.Dispatch.{sdu_bytes, with_sent}

module _ {ℓ} {Connection : Type ℓ} where
  -- The channels are asked in their order, each in the state that the one before has left, up to the first one that has
  -- something to say.
  pub data Says
      : List (Channel Connection) → Connection → Connection → Option (ℕ × List ℕ) → Type ℓ where
    nobody : {c : Connection} → Says [] c c none
    first :
        {ch : Channel Connection} {chs : List (Channel Connection)} {c c' : Connection} {x : ℕ}
        {xs : List ℕ}
        → ch.channel_output c ≡ (c', x ∷ xs)
        → Says (ch ∷ chs) c c' (some (ch.channel_id, x ∷ xs))
    behind :
        {ch : Channel Connection} {chs : List (Channel Connection)} {c c' c1 : Connection}
        {o : Option (ℕ × List ℕ)}
        → ch.channel_output c ≡ (c', [])
        → Says chs c' c1 o
        → Says (ch ∷ chs) c c1 o

  output_of_channels-Says :
      (chs : List (Channel Connection)) (c : Connection)
      → Says chs c (output_of_channels chs c).0 (output_of_channels chs c).1
  unfolding output_of_channels
  output_of_channels-Says [] c = nobody
  output_of_channels-Says (ch ∷ chs) c =
      said (ch.channel_output c).0 (ch.channel_output c).1 refl
        (output_of_channels-Says chs (ch.channel_output c).0)
    where
      said :
          (c' : Connection) (bytes : List ℕ)
          → ch.channel_output c ≡ (c', bytes)
          → Says chs c' (output_of_channels chs c').0 (output_of_channels chs c').1
          → let r : Connection × Option (ℕ × List ℕ) =
              if length bytes == 0
              then output_of_channels chs c'
              else (c', some (ch.channel_id, bytes)) in
            Says (ch ∷ chs) c r.0 r.1
      said c' [] e later = behind e later
      said c' (x ∷ xs) e later =
          let some_bytes : (length (x ∷ xs) == 0) ≡ false = ground arith in rw some_bytes (first e)

  -- A run of the loop: SDUs of the channels in front of the room, until the room or the channels give out.
  pub data Collects (chs : List (Channel Connection))
      : Connection → LinkBuffer → Connection → LinkBuffer → Type ℓ where
    full : {c : Connection} {b : LinkBuffer} → b.room ≡ 0 → Collects chs c b c b
    silent :
        {c c' : Connection} {b : LinkBuffer}
        → 0 < b.room
        → Says chs c c' none
        → Collects chs c b c' b
    collect :
        {c c' c1 : Connection} {b b1 : LinkBuffer} {id : ℕ} {bytes : List ℕ}
        → 0 < b.room
        → Says chs c c' (some (id, bytes))
        → Collects chs c' (with_sent (sdu_bytes id bytes ∷ []) b) c1 b1
        → Collects chs c b c1 b1

  single_none :
      (chs : List (Channel Connection)) (c c' : Connection) (b : LinkBuffer)
      → has_room b ≡ true
      → output_of_channels chs c ≡ (c', none)
      → transmit_single_pending_l2cap_output chs c b ≡ (false, c', b)
  unfolding transmit_single_pending_l2cap_output
  single_none chs c c' b room e =
      rw (transmit_single_pending_l2cap_output, room, ap (λ o. o.1) e) (ap (λ o. (false, o.0, b)) e)

  single_some :
      (chs : List (Channel Connection)) (c c' : Connection) (b : LinkBuffer) (id : ℕ)
      (bytes : List ℕ)
      → has_room b ≡ true
      → output_of_channels chs c ≡ (c', some (id, bytes))
      → transmit_single_pending_l2cap_output chs c b
        ≡ (true, c', commit (with_l2cap_header id bytes) b)
  unfolding transmit_single_pending_l2cap_output
  single_some chs c c' b id bytes room e =
      rw (transmit_single_pending_l2cap_output, room, ap (λ o. o.1) e)
        (ap (λ o. (true, o.0, commit (with_l2cap_header id bytes) b)) e)

  single_full :
      (chs : List (Channel Connection)) (c : Connection) (b : LinkBuffer)
      → has_room b ≡ false
      → transmit_single_pending_l2cap_output chs c b ≡ (false, c, b)
  unfolding transmit_single_pending_l2cap_output
  single_full chs c b room = rw (transmit_single_pending_l2cap_output, room) refl

  -- With more fuel than there is room in the link layer, transmit_pending_l2cap_output ends: it
  -- sends one SDU after the other, each of the first channel, in their order, that has something
  -- to say, behind its length and the identifier of this channel, until there is no more room or
  -- every channel was asked and has nothing to say.
  pub transmit_pending_l2cap_output-Collects :
      (fuel : ℕ) (chs : List (Channel Connection)) (c : Connection) (b : LinkBuffer)
      → b.room < fuel
      → (r : Connection × LinkBuffer) × (transmit_pending_l2cap_output fuel chs c b ≡ some r)
        × Collects chs c b r.0 r.1
  unfolding transmit_pending_l2cap_output with_l2cap_header
  transmit_pending_l2cap_output-Collects zero chs c b h = ground arith
  transmit_pending_l2cap_output-Collects (suc fuel) chs c b h = elim (Bool-cases (has_room b)) [
    | inr out_of_room ↦ ((c, b), rw (single_full chs c b out_of_room) refl, full (ground arith))
    | inl room ↦
        let c' : Connection = (output_of_channels chs c).0 in
        elim (Option-cases (output_of_channels chs c).1) [
          | inl e ↦
              let said : output_of_channels chs c ≡ (c', none) = ap (λ o. (c', o)) e in
              (
                (c', b),
                rw (single_none chs c c' b room said) refl,
                silent (ground arith)
                    (subst (λ o. Says chs c c' o) e (output_of_channels-Says chs c)),
              )
          | inr ((id, bytes), e) ↦
              let said : output_of_channels chs c ≡ (c', some (id, bytes)) = ap (λ o. (c', o)) e in
              let b' : LinkBuffer = commit (with_l2cap_header id bytes) b in
              let (r, f, g) =
                transmit_pending_l2cap_output-Collects fuel chs c' b' (ground arith) in
              (
                r,
                rw (single_some chs c c' b id bytes room said) f,
                collect (ground arith)
                    (subst (λ o. Says chs c c' o) e (output_of_channels-Says chs c)) g,
              )
        ]
  ]
