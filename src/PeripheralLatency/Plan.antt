-- ===== src/PeripheralLatency/Plan.antt =====
-- bluetoe/link_layer/include/bluetoe/peripheral_latency.hpp: the planned event keeps pace with the central.
use bluetoe.Shared.{
  ℕ, ◌+◌, ◌-◌, ◌*◌, ◌%◌, ◌^◌, Bool, true, false, Option, none, some, ◌≡◌, ◌≤◌, ◌<◌, arith, inl, inr,
  refl, ◌⊎◌, Bool-cases,
}
use bluetoe.DeltaTime.{DeltaTime, times, add}
use bluetoe.DeltaTime.Arithmetic.{multiply_exact}
use native.Mathlib.Nat.{mul-le-mul_left}
use bluetoe.PeripheralLatency.{
  ConnectionState, ConnectionEventEvents, PeripheralLatencyConfiguration, listens,
  instance_distance, limit_to_instance, events_ahead, plan_next_connection_event,
  plan_next_connection_event_after_timeout,
}

-- The planned event is number `n` since the connection was established, in numbers that do not wrap.
abbrev pub IsEvent : ConnectionState → ℕ → Type 0
IsEvent s n = (s.channel_index ≡ n % 37) × (s.event_counter ≡ n % 2 ^ 16)

-- The event of a pending instant, in the same numbers: it lies ahead, and planning hears of its lowest
-- 16 bits.
abbrev pub IsAhead : ℕ → Option ℕ → Type 0
IsAhead n none = Unit
IsAhead n (some at) = (n < at) × (at < n + 2 ^ 16)

abbrev pub NotAfter : ℕ → Option ℕ → Type 0
NotAfter n none = Unit
NotAfter n (some at) = n ≤ at

abbrev pub instant_of : Option ℕ → Option ℕ
instant_of none = none
instant_of (some at) = some (at % 2 ^ 16)

instance_distance_lem :
    (n at counter : ℕ)
    → counter ≡ n % 2 ^ 16
    → n < at
    → at < n + 2 ^ 16
    → instance_distance counter (at % 2 ^ 16) ≡ at - n
unfolding instance_distance
instance_distance_lem n at counter h lo hi = ground arith

limit_to_instance_lem :
    (s : ConnectionState) (pending : Option ℕ) (l : ℕ)
    → 0 < l
    → (0 < limit_to_instance s l pending) × (limit_to_instance s l pending ≤ l)
unfolding limit_to_instance
limit_to_instance_lem s none l h = ground arith
limit_to_instance_lem s (some instant) l h = ground arith

pub events_ahead_range :
    (o : PeripheralLatencyConfiguration) (s : ConnectionState) (latency : ℕ)
    (e : ConnectionEventEvents) (pending : Option ℕ)
    → latency < 65535
    → (0 < events_ahead o s latency e pending) × (events_ahead o s latency e pending ≤ latency + 1)
unfolding events_ahead
events_ahead_range o s latency e pending h =
    let capped : (l : ℕ)
        → 0 < l
        → (0 < limit_to_instance s l pending) × (limit_to_instance s l pending ≤ l) =
      limit_to_instance_lem s pending in
    elim (Bool-cases (listens o e)) [
      | inl t ↦ rw t (let c = capped 1 (omega arith) in (c.0, omega (arith, c.1)))
      | inr t ↦
          rw t (let c = capped ((latency + 1) % 65536) (omega arith) in (c.0, omega (arith, c.1)))
    ]

events_ahead_at_once :
    (o : PeripheralLatencyConfiguration) (s : ConnectionState) (latency : ℕ)
    (e : ConnectionEventEvents) (pending : Option ℕ)
    → listens o e ≡ true
    → events_ahead o s latency e pending ≡ 1
unfolding events_ahead
events_ahead_at_once o s latency e pending h =
    rw h (let c = limit_to_instance_lem s pending 1 (omega arith) in omega (arith, c.0, c.1))

events_ahead_as_late :
    (o : PeripheralLatencyConfiguration) (s : ConnectionState) (latency : ℕ)
    (e : ConnectionEventEvents) (reached : Option ℕ)
    → latency < 65535
    → reached ≡ none
    → listens o e ≡ false
    → events_ahead o s latency e (instant_of reached) ≡ latency + 1
unfolding events_ahead limit_to_instance
events_ahead_as_late o s latency e none h no_instant t = rw t (omega arith)
events_ahead_as_late o s latency e (some at) h no_instant t = ground arith

events_ahead-NotAfter :
    (o : PeripheralLatencyConfiguration) (s : ConnectionState) (latency : ℕ)
    (e : ConnectionEventEvents) (reached : Option ℕ) (n : ℕ)
    → s.event_counter ≡ n % 2 ^ 16
    → IsAhead n reached
    → NotAfter (n + events_ahead o s latency e (instant_of reached)) reached
unfolding events_ahead limit_to_instance
events_ahead-NotAfter o s latency e none n h a = a
events_ahead-NotAfter o s latency e (some at) n h a =
    let d = instance_distance_lem n at s.event_counter h a.0 a.1 in rw d (ground arith)

-- An option is in use, and the last event gives reason for it.
abbrev pub Applies : Bool → Bool → Type 0
Applies option event = (option ≡ true) × (event ≡ true)

-- Something asks not to use the latency: an error, the option to listen always, or one of the others.
abbrev pub AsksToListen : PeripheralLatencyConfiguration → ConnectionEventEvents → Type 0
AsksToListen o e =
    (e.error_occured ≡ true)
    ⊎ ((o.listen_always ≡ true)
        ⊎ (Applies o.listen_if_pending_transmit_data e.pending_outgoing_data
            ⊎ (Applies o.listen_if_unacknowledged_data e.unacknowledged_data
                ⊎ (Applies o.listen_if_last_received_not_empty e.last_received_not_empty
                    ⊎ (Applies o.listen_if_last_transmitted_not_empty e.last_transmitted_not_empty
                        ⊎ Applies o.listen_if_last_received_had_more_data
                            e.last_received_had_more_data)))))

listens-AsksToListen :
    (o : PeripheralLatencyConfiguration) (e : ConnectionEventEvents)
    → AsksToListen o e
    → listens o e ≡ true
unfolding listens
listens-AsksToListen o e h = ground arith

asks_if_listens :
    (o : PeripheralLatencyConfiguration) (e : ConnectionEventEvents)
    → listens o e ≡ true
    → AsksToListen o e
unfolding listens
asks_if_listens o e h = ground arith

not_asked :
    (o : PeripheralLatencyConfiguration) (e : ConnectionEventEvents)
    → (AsksToListen o e → ⊥)
    → listens o e ≡ false
not_asked o e quiet = elim (Bool-cases (listens o e)) [
  | inl t ↦ absurd (quiet (asks_if_listens o e t))
  | inr f ↦ f
]

-- What planning promises: the next event, some events ahead of the last one.
pub record Planned (latency : ℕ) (o : PeripheralLatencyConfiguration) (e : ConnectionEventEvents)
    (interval : DeltaTime) (reached : Option ℕ) (n : ℕ) (s' : ConnectionState) : Type 0 where
  pub ahead : ℕ
  pub ahead_positive : 0 < ahead
  pub ahead_bound : ahead ≤ latency + 1
  pub at_once : AsksToListen o e → ahead ≡ 1
  pub as_late : reached ≡ none → (AsksToListen o e → ⊥) → ahead ≡ latency + 1
  pub event : IsEvent s' (n + ahead)
  pub in_time : NotAfter (n + ahead) reached
  pub time : s'.time_since_last_event.usec ≡ interval.usec * ahead
  pub latency_kept : s'.last_latency ≡ ahead

pub times_exact :
    (n : ℕ) (t : DeltaTime) → t.usec * n < 2 ^ 32 → times n t ≡ some (record { usec = t.usec * n })
unfolding times
times_exact n t h = multiply_exact t n h

plan_next_connection_event_lem :
    (o : PeripheralLatencyConfiguration) (s : ConnectionState) (latency : ℕ)
    (e : ConnectionEventEvents) (interval : DeltaTime) (pending : Option ℕ)
    → interval.usec * events_ahead o s latency e pending < 2 ^ 32
    → plan_next_connection_event o s latency e interval pending
      ≡ some (record {
        channel_index = (s.channel_index + events_ahead o s latency e pending) % 37;
        event_counter = (s.event_counter + events_ahead o s latency e pending) % 2 ^ 16;
        time_since_last_event = record {
          usec = interval.usec * events_ahead o s latency e pending;
        };
        last_latency = events_ahead o s latency e pending;
      })
unfolding plan_next_connection_event
plan_next_connection_event_lem o s latency e interval pending h =
    rw (plan_next_connection_event, times_exact (events_ahead o s latency e pending) interval h)
      refl

-- If the time of all events that the latency may skip fits 32 bits, the latency is below 65535 and
-- a pending instant lies ahead by less than 2^16 events, plan_next_connection_event gives an event
-- at least one and at most latency + 1 events ahead, just one ahead if an error, the option to
-- listen always or another option with its reason asks to listen, just latency + 1 ahead if
-- nothing asks and there is no instant, never behind the instant, with the channel index, event
-- counter and time that belong to it.
pub plan_next_connection_event-Planned :
    (o : PeripheralLatencyConfiguration) (s : ConnectionState) (latency : ℕ)
    (e : ConnectionEventEvents) (interval : DeltaTime) (reached : Option ℕ) (n : ℕ)
    → IsEvent s n
    → IsAhead n reached
    → latency < 65535
    → interval.usec * (latency + 1) < 2 ^ 32
    → (s' : ConnectionState) × (plan_next_connection_event o s latency e interval
          (instant_of reached)
        ≡ some s')
      × Planned latency o e interval reached n s'
plan_next_connection_event-Planned o s latency e interval reached n ev a h fits =
    let ahead = events_ahead o s latency e (instant_of reached) in
    let range = events_ahead_range o s latency e (instant_of reached) h in
    let less = mul-le-mul_left interval.usec (range.1) in
    (
      record {
        channel_index = (s.channel_index + ahead) % 37;
        event_counter = (s.event_counter + ahead) % 2 ^ 16;
        time_since_last_event = record { usec = interval.usec * ahead };
        last_latency = ahead;
      },
      plan_next_connection_event_lem o s latency e interval (instant_of reached)
          (omega (arith, less, fits)),
      record {
        ahead = ahead;
        ahead_positive = range.0;
        ahead_bound = range.1;
        at_once = λ asks.
            events_ahead_at_once o s latency e (instant_of reached) (listens-AsksToListen o e asks);
        as_late = λ no_instant quiet.
            events_ahead_as_late o s latency e reached h no_instant (not_asked o e quiet);
        event = (omega (arith, ev.0), omega (arith, ev.1));
        in_time = events_ahead-NotAfter o s latency e reached n ev.1 a;
        time = refl;
        latency_kept = refl;
      },
    )

timeout_lem :
    (s : ConnectionState) (interval : DeltaTime)
    → s.time_since_last_event.usec + interval.usec < 2 ^ 32
    → plan_next_connection_event_after_timeout s interval
      ≡ some (record s {
        channel_index = (s.channel_index + 1) % 37;
        event_counter = (s.event_counter + 1) % 2 ^ 16;
        time_since_last_event = record { usec = s.time_since_last_event.usec + interval.usec };
      })
unfolding plan_next_connection_event_after_timeout add
timeout_lem s interval fits = ground arith

-- A timeout: the next event, one interval later.
pub plan_next_connection_event_after_timeout-IsEvent :
    (s : ConnectionState) (interval : DeltaTime) (n : ℕ)
    → IsEvent s n
    → s.time_since_last_event.usec + interval.usec < 2 ^ 32
    → (s' : ConnectionState) × (plan_next_connection_event_after_timeout s interval ≡ some s')
      × IsEvent s' (n + 1)
      × (s'.time_since_last_event.usec ≡ s.time_since_last_event.usec + interval.usec)
plan_next_connection_event_after_timeout-IsEvent s interval n ev fits = (
  record s {
    channel_index = (s.channel_index + 1) % 37;
    event_counter = (s.event_counter + 1) % 2 ^ 16;
    time_since_last_event = record { usec = s.time_since_last_event.usec + interval.usec };
  },
  timeout_lem s interval fits,
  (omega (arith, ev.0), omega (arith, ev.1)),
  refl,
)
