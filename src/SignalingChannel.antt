-- ===== src/SignalingChannel.antt =====
-- bluetoe/link_layer/include/bluetoe/l2cap_signaling_channel.hpp: requests to update the parameters of the connection.
pub mod Requests
mod Tests
use bluetoe.Shared.{
  ℕ, ◌+◌, ◌-◌, ◌/◌, ◌%◌, ◌^◌, Bool, true, false, not, ◌&&◌, List, [], ◌∷◌, ◌==◌, if◌then◌else◌, ltb,
  length, get_or,
}

pub data PendingStatus : Type 0 where
  idle : PendingStatus
  queued : PendingStatus
  transmitted : PendingStatus

abbrev pub command_reject_code : ℕ
command_reject_code = 1

abbrev pub connection_parameter_update_request_code : ℕ
connection_parameter_update_request_code = 18

abbrev pub connection_parameter_update_response_code : ℕ
connection_parameter_update_response_code = 19

abbrev pub invalid_identifier : ℕ
invalid_identifier = 0

-- The parameters that are asked for.
pub record Parameters : Type 0 where
  pub interval_min : ℕ
  pub interval_max : ℕ
  pub latency : ℕ
  pub timeout : ℕ

pub record SignalingChannel : Type 0 where
  pub parameters : Parameters
  pub pending_status : PendingStatus
  pub identifier : ℕ

-- The constructor, with whatever the memory of the parameters holds.
abbrev pub new_channel : Parameters → SignalingChannel
new_channel p = record { parameters = p; pending_status = idle; identifier = 1 }

abbrev pub is_idle : PendingStatus → Bool
is_idle idle = true
is_idle queued = false
is_idle transmitted = false

abbrev pub is_queued : PendingStatus → Bool
is_queued idle = false
is_queued queued = true
is_queued transmitted = false

abbrev pub is_transmitted : PendingStatus → Bool
is_transmitted idle = false
is_transmitted queued = false
is_transmitted transmitted = true

-- The bytes that are sent, none for `out_size` 0.
unfoldable pub reject_command : List ℕ → List ℕ
reject_command input =
    if ltb (length input) 2
    then []
    else if get_or input 1 0 == invalid_identifier
    then []
    else command_reject_code ∷ get_or input 1 0 ∷ 2 ∷ 0 ∷ 0 ∷ 0 ∷ []

-- The next identifier is never the invalid one.
unfoldable pub next_identifier : ℕ → ℕ
next_identifier identifier =
    let next : ℕ = (identifier + 1) % 2 ^ 8 in
    if next == invalid_identifier then (next + 1) % 2 ^ 8 else next

unfoldable pub signaling_input : List ℕ → SignalingChannel → SignalingChannel × List ℕ
signaling_input input c =
    let code : ℕ = if ltb 0 (length input) then get_or input 0 0 else 0 in
    if (code == connection_parameter_update_response_code) && is_transmitted c.pending_status
    then (record c { pending_status = idle; identifier = next_identifier c.identifier }, [])
    else (c, reject_command input)

abbrev pub low_byte : ℕ → ℕ
low_byte x = x % 2 ^ 8

abbrev pub high_byte : ℕ → ℕ
high_byte x = x / 2 ^ 8 % 2 ^ 8

unfoldable pub signaling_output : SignalingChannel → SignalingChannel × List ℕ
signaling_output c =
    if is_queued c.pending_status
    then (
      record c { pending_status = transmitted },
      connection_parameter_update_request_code
          ∷ c.identifier
          ∷ 8
          ∷ 0
          ∷ low_byte c.parameters.interval_min
          ∷ high_byte c.parameters.interval_min
          ∷ low_byte c.parameters.interval_max
          ∷ high_byte c.parameters.interval_max
          ∷ low_byte c.parameters.latency
          ∷ high_byte c.parameters.latency
          ∷ low_byte c.parameters.timeout
          ∷ high_byte c.parameters.timeout
          ∷ [],
    )
    else (c, [])

unfoldable pub connection_parameter_update_request :
    Parameters → SignalingChannel → Bool × SignalingChannel
connection_parameter_update_request p c =
    if is_idle c.pending_status
    then (true, record c { parameters = p; pending_status = queued })
    else (false, c)
