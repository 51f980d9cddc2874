-- ===== src/SignalingChannel/Tests.antt =====
-- Witnesses for the signalling channel.
use bluetoe.Shared.{ℕ, ◌≡◌, refl, arith, Bool, true, false, List, [], ◌∷◌, length, get_or}
use bluetoe.SignalingChannel.{
  transmitted, Parameters, SignalingChannel, new_channel, signaling_output,
  connection_parameter_update_request,
}
use bluetoe.SignalingChannel.Requests.{
  ChannelEvent, requested, received, polled, run_channel, read_parameters, signaling_output-request,
  unanswered_request,
}

abbrev wanted : Parameters
wanted = record { interval_min = 24; interval_max = 500; latency = 3; timeout = 600 }

abbrev channel : SignalingChannel
channel = new_channel wanted

abbrev events : List ChannelEvent
events = requested wanted ∷ polled ∷ received (19 ∷ 1 ∷ 2 ∷ 0 ∷ 0 ∷ 0 ∷ []) ∷ []

signaling_output-request_example :
    let asked : Bool × SignalingChannel = connection_parameter_update_request wanted channel in
    let told : SignalingChannel × List ℕ = signaling_output asked.1 in
    (asked.0 ≡ true)
    × (length told.1 ≡ 12)
    × (read_parameters told.1 ≡ wanted)
    × (get_or told.1 1 0 ≡ 1)
    × (connection_parameter_update_request wanted told.0 ≡ (false, told.0))
    × (signaling_output told.0 ≡ (told.0, []))
signaling_output-request_example =
    signaling_output-request channel wanted wanted refl
      (omega arith, omega arith, omega arith, omega arith)

abbrev waiting : SignalingChannel
waiting = record channel { pending_status = transmitted }

-- The peer rejects the request.
abbrev rejected : List ChannelEvent
rejected = received (1 ∷ 1 ∷ 2 ∷ 0 ∷ 0 ∷ 0 ∷ []) ∷ polled ∷ []

unanswered_request_example :
    connection_parameter_update_request wanted (run_channel waiting rejected)
    ≡ (false, run_channel waiting rejected)
unanswered_request_example =
    unanswered_request waiting rejected wanted refl ((λ e. ground (arith, e)), (omega arith, tt))
