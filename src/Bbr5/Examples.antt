-- ===== src/Bbr5/Examples.antt =====
-- Concrete inputs of the delay-based congestion controller.
use mp_video_simulation.Prelude.{ℕ, ◌≡◌, refl, true, some, List, [], ◌∷◌, arith}
use mp_video_simulation.Bbr2.Exact.{exact}
use mp_video_simulation.Prelude.OrderedMap
use mp_video_simulation.Bbr2.Flight.{Flight, ack_flight}
use mp_video_simulation.Bbr2.State.{st_start, st_decrease, st_increase}
use mp_video_simulation.Bbr2.Reach.{Reaches}
use mp_video_simulation.Bbr2.Events.{Event, sent_event, ack_event}
use mp_video_simulation.Bbr5.State.{Bbr5, init}
use mp_video_simulation.Bbr5.Modes.{pacing_gain_at}
use mp_video_simulation.Bbr5.Acks.{on_ack}
use mp_video_simulation.Bbr5.Running.{IsAcked, on_ack-IsSettled}
use mp_video_simulation.Bbr5.Runs.{
  handle, handle_all, IsControlled, init-IsControlled, handle_all-IsControlled,
}

-- Three packets of 2000 bytes in flight.
abbrev flying : Flight
flying = record {
  last_sent_packet = 4;
  last_ack_seq = 1;
  current_round_trip_end = 1;
  round_trip_count = 1;
  sent_packets_map =
      (2, record { sent_ts = 60000; bytes = 2000 })
      ∷ (3, record { sent_ts = 65000; bytes = 2000 })
      ∷ (4, record { sent_ts = 70000; bytes = 2000 })
      ∷ [];
  bytes_in_flight = 6000;
  sampler = record {
    total_bytes_sent = 8000;
    total_bytes_acked = 2000;
    total_bytes_sent_at_last_acked_packet = 2000;
    last_acked_packet_sent_time = 20000;
    last_acked_packet_ack_time = 60000;
    packet_infos = [];
  };
}

-- In INCREASE, with a bandwidth that four packets fill.
abbrev cycling : Bbr5 ℕ ℕ
cycling = record (init exact 500000 true 1000000) {
  mode = st_increase;
  pacing_gain = 1110;
  flight = flying;
  min_rtt = 10000;
  min_rtt_timestamp = 60000;
  s_rtt = 20000;
  base_line_rtt = some 10000;
  is_at_full_bandwidth = true;
}

-- The delay has grown, which starts DECREASE.
backs_off : (on_ack exact 3 100000 2 cycling).0.mode ≡ st_decrease
unfolding on_ack
backs_off = refl

on_ack-IsSettled_example :
    IsAcked exact st_increase
      (ack_flight exact.bandwidths 100000 2 flying).0
      100000
      (on_ack exact 3 100000 2 cycling).0
unfolding pacing_gain_at
on_ack-IsSettled_example =
    on_ack-IsSettled exact 3 100000 2 cycling
      (record {
        high = λ e. absurd (cc e);
        low = λ e. absurd (cc e);
        cycling = λ e. (omega arith, refl);
        fallen = λ e. absurd (cc e);
      })
      (omega arith) (omega arith)

-- Two packets, the acknowledgement of the first, a third packet and the acknowledgement of the second.
abbrev exchange : List Event
exchange =
    sent_event 10000 1 1000
    ∷ sent_event 12000 2 1000
    ∷ ack_event 0 60000 1
    ∷ sent_event 62000 3 1000
    ∷ ack_event 5 72000 2
    ∷ []

abbrev fresh : Bbr5 ℕ ℕ
fresh = init exact 500000 true 0

handle_all-IsControlled_example :
    IsControlled exact (handle_all exact exchange fresh)
    × Reaches st_start (handle_all exact exchange fresh).mode
unfolding handle OrderedMap.insert
handle_all-IsControlled_example =
    handle_all-IsControlled exact exchange fresh (init-IsControlled exact 500000 true 0)
      (omega arith, (omega arith, (omega arith, (omega arith, (omega arith, tt)))))
