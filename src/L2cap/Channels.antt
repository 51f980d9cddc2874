-- ===== src/L2cap/Channels.antt =====
-- bluetoe/link_layer/include/bluetoe/link_layer.hpp: the channels of the L2CAP layer of a link layer. The GATT server is a
-- parameter: a channel over a state of its own.
use bluetoe.Shared.{ℕ, ◌<◌, ◌≡◌, refl, arith, Bool, true, some, List, [], ◌∷◌, length, ltb, ◌^◌}
use bluetoe.Pairing.Data.{PairingData, SecurityFunctions, Device}
use bluetoe.Pairing.Manager.{l2cap_input, l2cap_output}
use bluetoe.SignalingChannel.{SignalingChannel, signaling_input, signaling_output}
use bluetoe.L2cap.{Channel, LinkBuffer, handle_l2cap_input}
use bluetoe.L2cap.Dispatch.{
  find_channel, sdu_bytes, sent_for, with_sent, IsDistinct, handle_l2cap_input-channel,
}

-- `l2cap_channel_ids`
abbrev pub att : ℕ
att = 4

abbrev pub signaling : ℕ
signaling = 5

abbrev pub sm : ℕ
sm = 6

-- What the channels keep for a connection.
pub record Connection {ℓ} (Server : Type ℓ) : Type ℓ where
  pub server : Server
  pub signaling_state : SignalingChannel
  pub pairing : PairingData
  pub is_encrypted : Bool

module _ {ℓ} {Server : Type ℓ} where
  abbrev pub gatt_server :
      (List ℕ → Server → Server × List ℕ) → (Server → Server × List ℕ) → Channel (Connection Server)
  gatt_server server_input server_output = record {
    channel_id = att;
    channel_input = λ input c.
        let (s, answer) = server_input input c.server in (record c { server = s }, answer);
    channel_output =
        λ c. let (s, answer) = server_output c.server in (record c { server = s }, answer);
  }

  abbrev pub signaling_channel : Channel (Connection Server)
  signaling_channel = record {
    channel_id = signaling;
    channel_input = λ input c.
        let (s, answer) = signaling_input input c.signaling_state in
        (record c { signaling_state = s }, answer);
    channel_output = λ c.
        let (s, answer) = signaling_output c.signaling_state in
        (record c { signaling_state = s }, answer);
  }

  abbrev pub security_manager : SecurityFunctions → Device → Channel (Connection Server)
  security_manager f v = record {
    channel_id = sm;
    channel_input = λ input c.
        let (p, answer) = l2cap_input f v input c.pairing in (record c { pairing = p }, answer);
    channel_output = λ c.
        let (p, answer) = l2cap_output f v c.is_encrypted c.pairing in
        (record c { pairing = p }, answer);
  }

  -- `l2cap_layer`
  abbrev pub l2cap_layer :
      Channel (Connection Server) → SecurityFunctions → Device → List (Channel (Connection Server))
  l2cap_layer server f v = server ∷ signaling_channel ∷ security_manager f v ∷ []

  l2cap_layer-IsDistinct :
      (server : Channel (Connection Server)) (f : SecurityFunctions) (v : Device)
      → server.channel_id ≡ att
      → IsDistinct (l2cap_layer server f v)
  l2cap_layer-IsDistinct server f v h =
      (((λ e. omega arith), ((λ e. omega arith), tt)), (((λ e. omega arith), tt), (tt, tt)))

  -- With room in the link layer, whatever the GATT server is, an SDU for the security manager is a
  -- step of pairing alone, one for the signalling channel is a step of that channel alone, each
  -- with its answer, if it is not empty, sent back behind its length and the identifier of the
  -- same channel, and one for the unknown channel 7 changes nothing.
  pub l2cap_layer_input :
      (server : Channel (Connection Server)) (f : SecurityFunctions) (v : Device) (payload : List ℕ)
      (c : Connection Server) (b : LinkBuffer)
      → server.channel_id ≡ att
      → length payload < 2 ^ 16
      → 0 < b.room
      → let paired : PairingData × List ℕ = l2cap_input f v payload c.pairing in
        let signaled : SignalingChannel × List ℕ = signaling_input payload c.signaling_state in
        (handle_l2cap_input (l2cap_layer server f v) (sdu_bytes sm payload) c b
          ≡ (true, record c { pairing = paired.0 }, with_sent (sent_for sm (some paired.1)) b))
        × (handle_l2cap_input (l2cap_layer server f v) (sdu_bytes signaling payload) c b ≡ (
          true,
          record c { signaling_state = signaled.0 },
          with_sent (sent_for signaling (some signaled.1)) b,
        ))
        × (handle_l2cap_input (l2cap_layer server f v) (sdu_bytes 7 payload) c b ≡ (true, c, b))
  unfolding find_channel
  l2cap_layer_input server f v payload c b h g room =
      let apart = l2cap_layer-IsDistinct server f v h in
      let to = handle_l2cap_input-channel (l2cap_layer server f v) in
      let free : ltb 0 b.room ≡ true = ground arith in
      (
        rw (to sm payload c b apart (omega arith) g, free, h) refl,
        rw (to signaling payload c b apart (omega arith) g, free, h) refl,
        rw (to 7 payload c b apart (omega arith) g, free, h) refl,
      )
