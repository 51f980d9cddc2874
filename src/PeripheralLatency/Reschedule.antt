-- ===== src/PeripheralLatency/Reschedule.antt =====
-- bluetoe/link_layer/include/bluetoe/peripheral_latency.hpp: moving the planned event forward.
use bluetoe.Shared.{
  ℕ, ◌+◌, ◌-◌, ◌*◌, ◌/◌, ◌%◌, ◌^◌, Bool, true, false, not, ◌&&◌, some, leb, ◌==◌, min, max, ◌≡◌,
  ◌≤◌, ◌<◌, arith, inl, inr, refl, Bool-cases, ◌⊎◌, ap,
}
use native.Mathlib.Nat.{mul-le-mul_left, mul-le-mul_right, div-add-mod, mod-lt}
use bluetoe.DeltaTime.{DeltaTime, delta_time, add, subtract, divide, is_zero}
use bluetoe.PeripheralLatency.{
  ConnectionState, events_elapsed, peripheral_latency_move_connection_event,
  reschedule_on_pending_data_impl,
}
use bluetoe.PeripheralLatency.Plan.{IsEvent, times_exact}

abbrev time_of : ℕ → DeltaTime
time_of n = record { usec = n }

add_fits : (a b : DeltaTime) → a.usec + b.usec < 2 ^ 32 → add a b ≡ some (time_of (a.usec + b.usec))
unfolding add
add_fits a b h = ground arith

subtract_fits :
    (a b : DeltaTime)
    → a.usec < 2 ^ 32
    → b.usec ≤ a.usec
    → subtract a b ≡ some (time_of (a.usec - b.usec))
unfolding subtract
subtract_fits a b h l = ground arith

divide_lem : (a b : DeltaTime) → 0 < b.usec → divide a b ≡ some (a.usec / b.usec)
unfolding divide
divide_lem a b h = ground arith

events_elapsed_lem :
    (now interval : DeltaTime)
    → 0 < interval.usec
    → now.usec + interval.usec < 2 ^ 32
    → events_elapsed now interval ≡ some ((now.usec + interval.usec - 1) / interval.usec)
unfolding events_elapsed
events_elapsed_lem now interval h fits =
    rw (events_elapsed, add_fits now interval fits)
      (rw (subtract_fits (time_of (now.usec + interval.usec)) (delta_time 1) fits (omega arith))
        (divide_lem (time_of (now.usec + interval.usec - 1)) interval h))

move_connection_event_lem :
    (s : ConnectionState) (back : ℕ) (interval : DeltaTime)
    → back ≤ 499
    → s.time_since_last_event.usec < 2 ^ 32
    → interval.usec * back ≤ s.time_since_last_event.usec
    → peripheral_latency_move_connection_event s back interval
      ≡ some (record s {
        channel_index = (s.channel_index + 518 - back) % 37;
        event_counter = (s.event_counter + 2 ^ 16 - back) % 2 ^ 16;
        time_since_last_event = time_of (s.time_since_last_event.usec - interval.usec * back);
      })
unfolding peripheral_latency_move_connection_event
move_connection_event_lem s back interval h fits le =
    let below : leb back 499 ≡ true = ground arith in
    rw (peripheral_latency_move_connection_event, below)
      (rw (times_exact back interval (omega (arith, fits, le)))
        (rw (subtract_fits s.time_since_last_event (time_of (interval.usec * back)) fits le) refl))

-- The number of intervals that cover a time.
elapsed_covers :
    (now interval : ℕ) → 0 < interval → now ≤ interval * ((now + interval - 1) / interval)
elapsed_covers now interval h =
    let d = div-add-mod (now + interval - 1) interval in
    let m = mod-lt (now + interval - 1) h in omega (arith, d, m)

elapsed_bound :
    (now interval : ℕ)
    → 1 < interval
    → now + interval < 2 ^ 32
    → (now + interval - 1) / interval < 2 ^ 31
elapsed_bound now interval h fits =
    let d = div-add-mod (now + interval - 1) interval in
    let two = mul-le-mul_right {m = 2} ((now + interval - 1) / interval) h in omega (arith, d, two)

-- What rescheduling promises: an event after the last one and not after the planned one, which is still
-- to come if it is not the planned one.
pub record Rescheduled (last : ℕ) (now interval : DeltaTime) (n : ℕ) (s' : ConnectionState)
    : Type 0 where
  pub ahead : ℕ
  pub ahead_positive : 0 < ahead
  pub ahead_bound : ahead ≤ last
  pub event : IsEvent s' (n + ahead)
  pub time : s'.time_since_last_event.usec ≡ interval.usec * ahead
  pub to_come : (now.usec ≤ interval.usec * ahead) ⊎ (ahead ≡ last)

reschedule_lem :
    (s : ConnectionState) (now interval : DeltaTime)
    → s.last_latency ≤ 500
    → 1 < s.last_latency
    → s.time_since_last_event.usec ≡ interval.usec * s.last_latency
    → s.time_since_last_event.usec < 2 ^ 32
    → 1 < interval.usec
    → now.usec + interval.usec < 2 ^ 32
    → let elapsed : ℕ = (now.usec + interval.usec - 1) / interval.usec in
      let back : ℕ = s.last_latency - min (max 1 elapsed) s.last_latency in
      reschedule_on_pending_data_impl s true now interval
      ≡ some (
        record {
          channel_index = (s.channel_index + 518 - back) % 37;
          event_counter = (s.event_counter + 2 ^ 16 - back) % 2 ^ 16;
          time_since_last_event = time_of (s.time_since_last_event.usec - interval.usec * back);
          last_latency = 1;
        },
        true,
      )
unfolding reschedule_on_pending_data_impl is_zero
reschedule_lem s now interval hl h1 time fits hi near =
    let elapsed : ℕ = (now.usec + interval.usec - 1) / interval.usec in
    let back : ℕ = s.last_latency - min (max 1 elapsed) s.last_latency in
    let first : (s.last_latency == 1) ≡ false = ground arith in
    let second : (interval.usec == 0) ≡ false = ground arith in
    let small = elapsed_bound now.usec interval.usec hi near in
    let third : leb (2 ^ 31) (max 1 elapsed) ≡ false = ground arith in
    let enough = mul-le-mul_left {m = back} {n = s.last_latency} interval.usec (omega arith) in
    rw first (
      rw second (
        rw (events_elapsed_lem now interval (omega arith) near) (
          rw third (
            rw
              (move_connection_event_lem s back interval (omega arith) fits
                (omega (arith, enough, time)))
              refl))))

-- Going back from the planned event.
back_from : (i l a : ℕ) → a ≤ l → i * l - i * (l - a) ≡ i * a
back_from i l a h =
    let whole : l ≡ a + (l - a) = omega arith in
    let product : i * l ≡ i * (a + (l - a)) = ap (λ k. i * k) whole in omega (arith, product)

back_to_event :
    (s : ConnectionState) (n l a : ℕ)
    → IsEvent s (n + l)
    → a ≤ l
    → l ≤ 500
    → 0 < a
    → ((s.channel_index + 518 - (l - a)) % 37 ≡ (n + a) % 37)
      × ((s.event_counter + 2 ^ 16 - (l - a)) % 2 ^ 16 ≡ (n + a) % 2 ^ 16)
back_to_event s n l a ev h hl ha = (omega (arith, ev.0), omega (arith, ev.1))

not_moved :
    (s : ConnectionState) (disarmed : Bool) (now interval : DeltaTime)
    → not (s.last_latency == 1) && disarmed ≡ false
    → reschedule_on_pending_data_impl s disarmed now interval ≡ some (s, false)
unfolding reschedule_on_pending_data_impl
not_moved s disarmed now interval h = ground arith

-- Nothing is moved where the planned event is the very next one, or the radio was too late.
kept :
    (s : ConnectionState) (disarmed : Bool) (now interval : DeltaTime) (n : ℕ)
    → IsEvent s (n + s.last_latency)
    → 0 < s.last_latency
    → s.time_since_last_event.usec ≡ interval.usec * s.last_latency
    → Rescheduled s.last_latency now interval n s
kept s disarmed now interval n ev h0 time = record {
  ahead = s.last_latency;
  ahead_positive = h0;
  ahead_bound = omega arith;
  event = ev;
  time = time;
  to_come = inr refl;
}

moved_to_come :
    (now interval last : ℕ)
    → 0 < interval
    → (now ≤ interval * min (max 1 ((now + interval - 1) / interval)) last)
      ⊎ (min (max 1 ((now + interval - 1) / interval)) last ≡ last)
moved_to_come now interval last h =
    let elapsed : ℕ = (now + interval - 1) / interval in
    let covers = elapsed_covers now interval h in
    elim (Bool-cases (leb last (max 1 elapsed))) [
      | inl e ↦ inr (ground arith)
      | inr e ↦
          let same_number : min (max 1 elapsed) last ≡ max 1 elapsed = ground arith in
          let more = mul-le-mul_left {m = elapsed} {n = max 1 elapsed} interval (omega arith) in
          inl (rw same_number (omega (arith, covers, more)))
    ]

-- If the planned event is at most 500 events and its exact time ahead of the last one, the
-- interval is longer than a microsecond and the sums fit 32 bits, rescheduling trips no assert and
-- gives an event after the last and not after the planned one, with its channel index, event
-- counter and time, which is either the planned one or does not lie before the current time.
pub reschedule_on_pending_data-Rescheduled :
    (s : ConnectionState) (disarmed : Bool) (now interval : DeltaTime) (n : ℕ)
    → IsEvent s (n + s.last_latency)
    → 0 < s.last_latency
    → s.last_latency ≤ 500
    → s.time_since_last_event.usec ≡ interval.usec * s.last_latency
    → s.time_since_last_event.usec < 2 ^ 32
    → 1 < interval.usec
    → now.usec + interval.usec < 2 ^ 32
    → (s' : ConnectionState) × (reschedule_on_pending_data_impl s disarmed now interval
        ≡ some (s', not (s.last_latency == 1) && disarmed))
      × Rescheduled s.last_latency now interval n s'
reschedule_on_pending_data-Rescheduled s disarmed now interval n ev h0 hl time fits hi near =
    elim (Bool-cases (s.last_latency == 1)) [
      | inl e ↦ (
        s,
        rw e (not_moved s disarmed now interval (rw e refl)),
        kept s disarmed now interval n ev h0 time,
      )
      | inr e ↦ elim (Bool-cases disarmed) [
        | inr d ↦ (
          s,
          rw e (rw d (not_moved s false now interval (rw e refl))),
          kept s disarmed now interval n ev h0 time,
        )
        | inl d ↦
            let ahead : ℕ =
              min (max 1 ((now.usec + interval.usec - 1) / interval.usec)) s.last_latency in
            let bound : ahead ≤ s.last_latency = omega arith in
            let event = back_to_event s n s.last_latency ahead ev bound hl (omega (arith, h0)) in
            (
              record {
                channel_index = (s.channel_index + 518 - (s.last_latency - ahead)) % 37;
                event_counter = (s.event_counter + 2 ^ 16 - (s.last_latency - ahead)) % 2 ^ 16;
                time_since_last_event =
                    time_of
                      (s.time_since_last_event.usec - interval.usec * (s.last_latency - ahead));
                last_latency = 1;
              },
              rw e (rw d (reschedule_lem s now interval hl (ground arith) time fits hi near)),
              record {
                ahead = ahead;
                ahead_positive = omega (arith, h0);
                ahead_bound = bound;
                event = event;
                time = rw time (back_from interval.usec s.last_latency ahead bound);
                to_come = moved_to_come now.usec interval.usec s.last_latency (omega arith);
              },
            )
      ]
    ]
