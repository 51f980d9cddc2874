-- ===== src/PeripheralLatency/Tests.antt =====
-- Connection events at concrete states.
use bluetoe.Shared.{◌==◌, ◌&&◌, ◌≡◌, true, false, not, none, some, refl, arith}
use bluetoe.DeltaTime.{DeltaTime, delta_time, add, subtract, multiply, divide, times, is_zero}
use bluetoe.PeripheralLatency.{
  ConnectionState, ConnectionEventEvents, PeripheralLatencyConfiguration, listens, events_ahead,
  limit_to_instance, plan_next_connection_event, reschedule_on_pending_data_impl, events_elapsed,
  peripheral_latency_move_connection_event,
}
use bluetoe.PeripheralLatency.Plan.{Planned, instant_of, plan_next_connection_event-Planned}
use bluetoe.PeripheralLatency.Reschedule.{Rescheduled, reschedule_on_pending_data-Rescheduled}

-- The device listens where it has data to send.
abbrev options : PeripheralLatencyConfiguration
options = record {
  listen_if_pending_transmit_data = true;
  listen_if_unacknowledged_data = true;
  listen_if_last_received_not_empty = false;
  listen_if_last_transmitted_not_empty = false;
  listen_if_last_received_had_more_data = false;
  listen_always = false;
}

abbrev quiet : ConnectionEventEvents
quiet = record {
  unacknowledged_data = false;
  last_received_not_empty = true;
  last_transmitted_not_empty = false;
  last_received_had_more_data = false;
  pending_outgoing_data = false;
  error_occured = false;
}

abbrev interval : DeltaTime
interval = delta_time 30000

-- Shortly before the event counter wraps: event 65534.
abbrev before_wrap : ConnectionState
before_wrap = record {
  channel_index = 7;
  event_counter = 65534;
  time_since_last_event = delta_time 30000;
  last_latency = 1;
}

-- Planned ten events ahead of event 65534.
abbrev ten_ahead : ConnectionState
ten_ahead = record {
  channel_index = 17;
  event_counter = 8;
  time_since_last_event = delta_time 300000;
  last_latency = 10;
}

runs :
    (plan_next_connection_event options before_wrap 9 quiet interval none ≡ some ten_ahead)
    × (reschedule_on_pending_data_impl ten_ahead true (delta_time 70000) interval
        ≡ some (
          record {
            channel_index = 10;
            event_counter = 1;
            time_since_last_event = delta_time 90000;
            last_latency = 1;
          },
          true,
        ))
unfolding plan_next_connection_event listens events_ahead limit_to_instance times multiply
    reschedule_on_pending_data_impl is_zero events_elapsed add subtract divide
    peripheral_latency_move_connection_event
runs = (refl, refl)

-- An instant at event 65540 stops the latency there.
plan_next_connection_event-Planned_example :
    (s' : ConnectionState) × (plan_next_connection_event options before_wrap 9 quiet interval
        (instant_of (some 65540))
      ≡ some s')
    × Planned 9 options quiet interval (some 65540) 65534 s'
plan_next_connection_event-Planned_example =
    plan_next_connection_event-Planned options before_wrap 9 quiet interval (some 65540) 65534
      (omega arith, omega arith) (omega arith, omega arith) (omega arith) (omega arith)

reschedule_on_pending_data-Rescheduled_example :
    (s' : ConnectionState) × (reschedule_on_pending_data_impl ten_ahead true
        (delta_time 70000)
        interval
      ≡ some (s', not (10 == 1) && true))
    × Rescheduled 10 (delta_time 70000) interval 65534 s'
reschedule_on_pending_data-Rescheduled_example =
    reschedule_on_pending_data-Rescheduled ten_ahead true (delta_time 70000) interval 65534
      (omega arith, omega arith) (omega arith) (omega arith) refl (omega arith) (omega arith)
      (omega arith)
