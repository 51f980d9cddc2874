-- ===== src/PeripheralLatency.antt =====
-- bluetoe/link_layer/include/bluetoe/peripheral_latency.hpp and connection_events.hpp beside it: which
-- connection event comes next. An operation in which an `assert` fails gives `none`.
pub mod Plan
pub mod Reschedule
mod Tests
use bluetoe.Shared.{
  ℕ, zero, suc, ◌+◌, ◌-◌, ◌*◌, ◌/◌, ◌%◌, ◌^◌, Bool, true, false, not, ◌&&◌, ◌||◌, Option, none,
  some, ltb, leb, ◌==◌, if◌then◌else◌, min, max,
}
use bluetoe.ChannelMap.{max_number_of_data_channels}
use bluetoe.DeltaTime.{DeltaTime, delta_time, add, subtract, multiply, divide, times, is_zero}

abbrev pub maximum_link_layer_peripheral_latency : ℕ
maximum_link_layer_peripheral_latency = 499

pub record ConnectionEventEvents : Type 0 where
  pub unacknowledged_data : Bool
  pub last_received_not_empty : Bool
  pub last_transmitted_not_empty : Bool
  pub last_received_had_more_data : Bool
  pub pending_outgoing_data : Bool
  pub error_occured : Bool

-- The options of the configuration that is in use.
pub record PeripheralLatencyConfiguration : Type 0 where
  pub listen_if_pending_transmit_data : Bool
  pub listen_if_unacknowledged_data : Bool
  pub listen_if_last_received_not_empty : Bool
  pub listen_if_last_transmitted_not_empty : Bool
  pub listen_if_last_received_had_more_data : Bool
  pub listen_always : Bool

pub record ConnectionState : Type 0 where
  pub channel_index : ℕ
  pub event_counter : ℕ
  pub time_since_last_event : DeltaTime
  pub last_latency : ℕ

-- The condition under which the peripheral latency is not used.
unfoldable pub listens : PeripheralLatencyConfiguration → ConnectionEventEvents → Bool
listens o e =
    (o.listen_if_unacknowledged_data && e.unacknowledged_data)
    || (o.listen_if_last_received_not_empty && e.last_received_not_empty)
    || (o.listen_if_last_transmitted_not_empty && e.last_transmitted_not_empty)
    || (o.listen_if_last_received_had_more_data && e.last_received_had_more_data)
    || (o.listen_if_pending_transmit_data && e.pending_outgoing_data)
    || o.listen_always
    || e.error_occured

-- `~event_counter_ + 1` is `- event_counter_`, and all is cut to 16 bits.
unfoldable pub instance_distance : ℕ → ℕ → ℕ
instance_distance event_counter instant =
    if ltb event_counter instant
    then instant - event_counter
    else (instant + (2 ^ 16 - event_counter)) % 2 ^ 16

unfoldable pub limit_to_instance : ConnectionState → ℕ → Option ℕ → ℕ
limit_to_instance s latency none = latency
limit_to_instance s latency (some instant) =
    let distance : ℕ = instance_distance s.event_counter instant in
    if ltb 0 distance then min latency distance else latency

-- How many events ahead the next one is.
unfoldable pub events_ahead :
    PeripheralLatencyConfiguration → ConnectionState → ℕ → ConnectionEventEvents → Option ℕ → ℕ
events_ahead o s latency e pending =
    limit_to_instance s (((if listens o e then 0 else latency) + 1) % 2 ^ 16) pending

unfoldable pub plan_next_connection_event :
    PeripheralLatencyConfiguration
    → ConnectionState
    → ℕ
    → ConnectionEventEvents
    → DeltaTime
    → Option ℕ
    → Option ConnectionState
plan_next_connection_event o s latency e interval pending =
    let ahead : ℕ = events_ahead o s latency e pending in
    elim (times ahead interval) [
      | none ↦ none
      | some time ↦ some (record {
        channel_index = (s.channel_index + ahead) % max_number_of_data_channels;
        event_counter = (s.event_counter + ahead) % 2 ^ 16;
        time_since_last_event = time;
        last_latency = ahead;
      })
    ]

unfoldable pub plan_next_connection_event_after_timeout :
    ConnectionState → DeltaTime → Option ConnectionState
plan_next_connection_event_after_timeout s interval = elim (add s.time_since_last_event interval) [
  | none ↦ none
  | some time ↦ some (record s {
    channel_index = (s.channel_index + 1) % max_number_of_data_channels;
    event_counter = (s.event_counter + 1) % 2 ^ 16;
    time_since_last_event = time;
  })
]

unfoldable pub reset_connection_state : ConnectionState
reset_connection_state = record {
  channel_index = 0;
  event_counter = 0;
  time_since_last_event = delta_time 0;
  last_latency = 1;
}

abbrev pub offset : ℕ
offset =
    (maximum_link_layer_peripheral_latency / max_number_of_data_channels + 1)
    * max_number_of_data_channels

-- `count` is not positive in the source; here, `back` is the number of events to go back.
unfoldable pub peripheral_latency_move_connection_event :
    ConnectionState → ℕ → DeltaTime → Option ConnectionState
peripheral_latency_move_connection_event s back interval =
    if leb back maximum_link_layer_peripheral_latency
    then elim (times back interval) [
      | none ↦ none
      | some moved ↦ elim (subtract s.time_since_last_event moved) [
        | none ↦ none
        | some time ↦ some (record s {
          channel_index = (s.channel_index + offset - back) % max_number_of_data_channels;
          event_counter = (s.event_counter + 2 ^ 16 - back) % 2 ^ 16;
          time_since_last_event = time;
        })
      ]
    ]
    else none

-- `( now + interval - delta_time( 1 ) ) / interval`
unfoldable pub events_elapsed : DeltaTime → DeltaTime → Option ℕ
events_elapsed now interval = elim (add now interval) [
  | none ↦ none
  | some sum ↦ elim (subtract sum (delta_time 1)) [ none ↦ none | some rest ↦ divide rest interval ]
]

-- The radio disarmed the planned event or was too late to do so, and tells the time since the last event.
-- `std::min< int >` takes `times` from 2^31 on for `times - 2^32`, which is below `last_latency_`.
unfoldable pub reschedule_on_pending_data_impl :
    ConnectionState → Bool → DeltaTime → DeltaTime → Option (ConnectionState × Bool)
reschedule_on_pending_data_impl s disarmed now interval =
    if (s.last_latency == 1) || not disarmed
    then some (s, false)
    else if is_zero interval
    then none
    else elim (events_elapsed now interval) [
      | none ↦ none
      | some elapsed ↦
          let times : ℕ = max 1 elapsed in
          let back : ℕ =
            if leb (2 ^ 31) times
            then s.last_latency + (2 ^ 32 - times)
            else s.last_latency - min times s.last_latency in
          elim (peripheral_latency_move_connection_event s back interval) [
            | none ↦ none
            | some s' ↦ some (record s' { last_latency = 1 }, true)
          ]
    ]
