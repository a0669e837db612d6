-- ===== src/Bbr2/Examples.antt =====
-- Concrete inputs of the congestion controller and its sampler.
use mp_video_simulation.Prelude.{ℕ, ◌≡◌, true, refl, List, [], ◌∷◌, Returns, arith, inl, inr}
use mp_video_simulation.Prelude.Calls.{Ensures}
use mp_video_simulation.Prelude.Runs.{run, AreAllowed}
use mp_video_simulation.Prelude.OrderedMap
use mp_video_simulation.Sampler.{PacketState, MySampler, on_packet_acknowledged}
use mp_video_simulation.Sampler.Totals.{IsSampler, exact_sample, on_packet_acknowledged-IsSampler}
use mp_video_simulation.Bbr2.Exact.{exact_bandwidths, exact}
use mp_video_simulation.Bbr2.Flight.{PerPacket, Flight}
use mp_video_simulation.Bbr2.Flight.Accounts.{IsFlight}
use mp_video_simulation.Bbr2.State.{st_start, Bbr2, init}
use mp_video_simulation.Bbr2.Acks.{on_ack}
use mp_video_simulation.Bbr2.Settled.{IsSettled}
use mp_video_simulation.Bbr2.Running.{IsRunning, on_ack-IsRunning}
use mp_video_simulation.Bbr2.Reach.{Reaches}
use mp_video_simulation.Bbr2.Events.{Event, sent_event, ack_event}
use mp_video_simulation.Bbr2.Runs.{handle, IsTimely, init-IsRunning, handle_all-Arrives}
use mp_video_simulation.Bbr2.Startup.{end_rounds, end_rounds_lem}
use mp_video_simulation.Bbr2.Reports.{Tracks, handle_all-Tracks}

-- Two packets of 1000 bytes in flight, after one that was acknowledged.
abbrev state_of : (sent_time total : ℕ) → PacketState
state_of sent_time total = record {
  sent_time = sent_time;
  size = 1000;
  total_bytes_sent = total;
  total_bytes_sent_at_last_acked_packet = 1000;
  last_acked_packet_sent_time = 20000;
  last_acked_packet_ack_time = 60000;
  total_bytes_acked_at_the_last_acked_packet = 1000;
}

abbrev followed : MySampler
followed = record {
  total_bytes_sent = 3000;
  total_bytes_acked = 1000;
  total_bytes_sent_at_last_acked_packet = 1000;
  last_acked_packet_sent_time = 20000;
  last_acked_packet_ack_time = 60000;
  packet_infos = (2, state_of 70000 2000) ∷ (3, state_of 80000 3000) ∷ [];
}

followed-IsSampler : IsSampler followed
followed-IsSampler = record {
  word = omega arith;
  within = omega arith;
  last = omega arith;
  snapshots =
      ((omega arith, omega arith, omega arith), ((omega arith, omega arith, omega arith), tt));
}

on_packet_acknowledged-IsSampler_example :
    let (s', bw) = on_packet_acknowledged exact_bandwidths 110000 2 true followed in
    IsSampler s'
    × (s'.total_bytes_acked ≡ 2000)
    × (bw ≡ exact_sample exact_bandwidths 110000 s'.total_bytes_acked (state_of 70000 2000))
on_packet_acknowledged-IsSampler_example =
    on_packet_acknowledged-IsSampler exact_bandwidths 110000 2 followed (state_of 70000 2000)
      followed-IsSampler refl

abbrev last_packet : PerPacket
last_packet = record { sent_ts = 80000; bytes = 1000 }

abbrev flying : Flight
flying = record {
  last_sent_packet = 3;
  last_ack_seq = 1;
  current_round_trip_end = 1;
  round_trip_count = 1;
  sent_packets_map = (2, record { sent_ts = 70000; bytes = 1000 }) ∷ (3, last_packet) ∷ [];
  bytes_in_flight = 2000;
  sampler = followed;
}

flying-IsFlight : IsFlight flying
flying-IsFlight = record {
  sampled = followed-IsSampler;
  same = refl;
  above = (omega arith, (omega arith, tt));
  below = (omega arith, (omega arith, tt));
  known = omega arith;
  counted = refl;
}

abbrev starting : Bbr2 ℕ ℕ
starting = record (init exact 500000 true 0) { flight = flying; min_rtt = 40000 }

on_ack-IsRunning_example :
    Returns
      (λ (t, out). IsRunning exact t × IsSettled exact st_start t)
      (on_ack exact 120000 3 starting)
on_ack-IsRunning_example =
    on_ack-IsRunning exact 120000 3 starting
      (record {
        paced = record { high = λ e. refl; low = λ e. cc; even = λ e. cc };
        flown = flying-IsFlight;
        measured = record { least = inr (omega arith); record_long = inl refl; fallen_long = tt };
      })
      (omega arith) (omega arith) (omega arith)
      (λ p e. let same : last_packet ≡ p = cc e in rw (← same) (omega arith))

end_rounds_lem_example :
    (end_rounds exact
      ((1000, 1) ∷ (1100, 2) ∷ (900, 3) ∷ [])
      (record starting { bandwidth_at_last_round = 1000 })).is_at_full_bandwidth
    ≡ true
end_rounds_lem_example =
    end_rounds_lem exact ((1000, 1) ∷ (1100, 2) ∷ (900, 3) ∷ [])
      (record starting { bandwidth_at_last_round = 1000 }) (omega arith) (omega arith)
      (omega arith, (omega arith, (omega arith, tt)))

-- Two packets, the acknowledgement of the first, a third packet and the acknowledgement of the second.
abbrev exchange : List Event
exchange =
    sent_event 10000 1 1000
    ∷ sent_event 12000 2 1000
    ∷ ack_event 0 60000 1
    ∷ sent_event 62000 3 1000
    ∷ ack_event 0 72000 2
    ∷ []

abbrev sent_at : ℕ → PerPacket
sent_at now = record { sent_ts = now; bytes = 1000 }

-- A new controller with an observer and a trace.
abbrev fresh : Bbr2 ℕ ℕ
fresh = record (init exact 500000 true 0) { trace_state = true }

fresh-IsRunning : IsRunning exact fresh
fresh-IsRunning =
    let v = init-IsRunning exact 500000 true 0 in
    record {
      paced = record { high = v.paced.high; low = v.paced.low; even = v.paced.even };
      flown = v.flown;
      measured = v.measured;
    }

exchange-AreAllowed : AreAllowed (handle exact) (IsTimely exact) exchange fresh
unfolding handle OrderedMap.insert
exchange-AreAllowed = (
  (omega arith, tt),
  (
    (omega arith, tt),
    (
      (omega arith, λ p e. let same : sent_at 10000 ≡ p = cc e in rw (← same) (omega arith)),
      (
        (omega arith, tt),
        (
          (omega arith, λ p e. let same : sent_at 12000 ≡ p = cc e in rw (← same) (omega arith)),
          tt,
        ),
      ),
    ),
  ),
)

handle_all-Arrives_example :
    Ensures
      (λ t out. IsRunning exact t × Reaches st_start t.mode)
      (run (handle exact) exchange fresh)
handle_all-Arrives_example =
    handle_all-Arrives exact exchange fresh fresh-IsRunning exchange-AreAllowed

handle_all-Tracks_example :
    Ensures (Tracks exact exchange fresh) (run (handle exact) exchange fresh)
handle_all-Tracks_example =
    handle_all-Tracks exact exchange fresh fresh-IsRunning exchange-AreAllowed refl refl
