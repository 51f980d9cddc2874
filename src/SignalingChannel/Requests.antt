-- ===== src/SignalingChannel/Requests.antt =====
-- bluetoe/link_layer/include/bluetoe/l2cap_signaling_channel.hpp: one request at a time.
use bluetoe.Shared.{
  ℕ, ◌+◌, ◌*◌, ◌/◌, ◌%◌, ◌^◌, ◌<◌, ◌≡◌, ◌≢◌, refl, arith, Bool, true, false, List, [], ◌∷◌, length,
  get_or, Every,
}
use bluetoe.SignalingChannel.{
  idle, transmitted, Parameters, SignalingChannel, signaling_input, signaling_output,
  connection_parameter_update_request, next_identifier, connection_parameter_update_response_code,
}

-- What happens on the channel.
pub data ChannelEvent : Type 0 where
  requested : Parameters → ChannelEvent
  received : List ℕ → ChannelEvent
  polled : ChannelEvent

abbrev pub channel_step : SignalingChannel → ChannelEvent → SignalingChannel
channel_step c (requested p) = (connection_parameter_update_request p c).1
channel_step c (received input) = (signaling_input input c).0
channel_step c polled = (signaling_output c).0

unfoldable pub run_channel : SignalingChannel → List ChannelEvent → SignalingChannel
run_channel c [] = c
run_channel c (e ∷ es) = run_channel (channel_step c e) es

-- An identifier is a byte, and not the invalid one.
abbrev pub IsIdentifier : ℕ → Type 0
IsIdentifier i = (0 < i) × (i < 2 ^ 8)

next_identifier-IsIdentifier : (i : ℕ) → IsIdentifier (next_identifier i)
unfolding next_identifier
next_identifier-IsIdentifier i = ground arith

channel_step-IsIdentifier :
    (c : SignalingChannel) (e : ChannelEvent)
    → IsIdentifier c.identifier
    → IsIdentifier (channel_step c e).identifier
unfolding signaling_input signaling_output connection_parameter_update_request
channel_step-IsIdentifier c (requested p) h = ground (arith, h)
channel_step-IsIdentifier c (received input) h =
    grind (arith, h, next_identifier-IsIdentifier c.identifier)
channel_step-IsIdentifier c polled h = ground (arith, h)

-- Through any sequence of requests, inputs and outputs, the identifier of the channel stays a byte
-- other than the invalid identifier.
pub run_channel-IsIdentifier :
    (c : SignalingChannel) (es : List ChannelEvent)
    → IsIdentifier c.identifier
    → IsIdentifier (run_channel c es).identifier
unfolding run_channel
run_channel-IsIdentifier c [] h = h
run_channel-IsIdentifier c (e ∷ es) h =
    run_channel-IsIdentifier (channel_step c e) es (channel_step-IsIdentifier c e h)

-- What a peer reads from a request.
abbrev read_two : List ℕ → ℕ → ℕ
read_two pdu i = get_or pdu i 0 + get_or pdu (i + 1) 0 * 2 ^ 8

abbrev pub read_parameters : List ℕ → Parameters
read_parameters pdu = record {
  interval_min = read_two pdu 4;
  interval_max = read_two pdu 6;
  latency = read_two pdu 8;
  timeout = read_two pdu 10;
}

abbrev pub IsParameters : Parameters → Type 0
IsParameters p =
    (p.interval_min < 2 ^ 16)
    × (p.interval_max < 2 ^ 16)
    × (p.latency < 2 ^ 16)
    × (p.timeout < 2 ^ 16)

read_bytes : (x : ℕ) → x < 2 ^ 16 → x % 2 ^ 8 + x / 2 ^ 8 % 2 ^ 8 * 2 ^ 8 ≡ x
read_bytes x h = omega arith

-- If no request is pending, a request of parameters of 16 bits is taken; the next output has 12
-- bytes, from which the parameters are read back, with the identifier of the channel, and after it
-- another request is refused and nothing is sent again.
pub signaling_output-request :
    (c : SignalingChannel) (p q : Parameters)
    → c.pending_status ≡ idle
    → IsParameters p
    → let asked : Bool × SignalingChannel = connection_parameter_update_request p c in
      let told : SignalingChannel × List ℕ = signaling_output asked.1 in
      (asked.0 ≡ true)
      × (length told.1 ≡ 12)
      × (read_parameters told.1 ≡ p)
      × (get_or told.1 1 0 ≡ c.identifier)
      × (connection_parameter_update_request q told.0 ≡ (false, told.0))
      × (signaling_output told.0 ≡ (told.0, []))
unfolding signaling_output connection_parameter_update_request
signaling_output-request c p q h (a, b, d, e) =
    rw (connection_parameter_update_request, signaling_output, h)
      (
        refl,
        refl,
        rw (read_bytes _ a, read_bytes _ b, read_bytes _ d, read_bytes _ e) refl,
        refl,
        refl,
        refl,
      )

-- Whatever arrives but the code of a response.
abbrev pub IsNoResponse : ChannelEvent → Type 0
IsNoResponse (received input) = get_or input 0 0 ≢ connection_parameter_update_response_code
IsNoResponse (requested p) = 0 < 1
IsNoResponse polled = 0 < 1

channel_step-IsTransmitted :
    (c : SignalingChannel) (e : ChannelEvent)
    → IsNoResponse e
    → c.pending_status ≡ transmitted
    → (channel_step c e).pending_status ≡ transmitted
unfolding signaling_input signaling_output connection_parameter_update_request
channel_step-IsTransmitted c (requested p) n h = ground arith
channel_step-IsTransmitted c (received input) n h = ground arith
channel_step-IsTransmitted c polled n h = ground arith

run_channel-IsTransmitted :
    (c : SignalingChannel) (es : List ChannelEvent)
    → Every IsNoResponse es
    → c.pending_status ≡ transmitted
    → (run_channel c es).pending_status ≡ transmitted
unfolding run_channel
run_channel-IsTransmitted c [] n h = h
run_channel-IsTransmitted c (e ∷ es) n h =
    run_channel-IsTransmitted (channel_step c e) es n.1 (channel_step-IsTransmitted c e n.0 h)

-- If a request was transmitted and no input begins with the code of a response, whatever else
-- arrives, a command reject of that request included, all further requests are refused.
pub unanswered_request :
    (c : SignalingChannel) (es : List ChannelEvent) (p : Parameters)
    → c.pending_status ≡ transmitted
    → Every IsNoResponse es
    → connection_parameter_update_request p (run_channel c es) ≡ (false, run_channel c es)
unfolding connection_parameter_update_request
unanswered_request c es p h n =
    rw (connection_parameter_update_request, run_channel-IsTransmitted c es n h) refl
