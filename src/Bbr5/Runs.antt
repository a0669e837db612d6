-- ===== src/Bbr5/Runs.antt =====
-- A sender of ns3/mp-video/model/congestion/bbr_sender_v5.cc over a run of events.
use mp_video_simulation.Prelude.{
  ℕ, ◌<◌, ◌≤◌, ◌≡◌, refl, true, false, List, [], ◌∷◌, leb, ◌==◌, arith, Bool-cases, inl, inr,
}
use mp_video_simulation.Prelude.OrderedMap.{find}
use mp_video_simulation.Bbr2.Flight
use mp_video_simulation.Bbr2.Flight.{Flight, ack_flight}
use mp_video_simulation.Bbr2.Flight.Accounts.{
  IsFlight, init-IsFlight, on_packet_sent-IsFlight, ack_flight-IsFlight,
}
use mp_video_simulation.Bbr2.State.{Parts}
use mp_video_simulation.Bbr2.Reach.{Reaches, Reaches-same, Reaches-trans}
use mp_video_simulation.Bbr2.Events.{Event, sent_event, ack_event, IsAllowed}
use mp_video_simulation.Bbr5.State.{Bbr5, init}
use mp_video_simulation.Bbr5.Rtt.{update_rtt}
use mp_video_simulation.Bbr5.Acks.{on_packet_sent, calculate_pacing_rate, on_ack}
use mp_video_simulation.Bbr5.Backoff.{IsPaced}
use mp_video_simulation.Bbr5.Running.{learn_rtt-Keeps, on_ack-IsSettled}

module _ {Fl F : Type 0} (parts : Parts Fl F) where
  unfoldable pub handle : Event → Bbr5 Fl F → Bbr5 Fl F
  unfolding on_packet_sent on_ack
  handle (sent_event now packet_number bytes) s = on_packet_sent now packet_number bytes s
  handle (ack_event draw now packet_number) s = (on_ack parts draw now packet_number s).0

  unfoldable pub handle_all : List Event → Bbr5 Fl F → Bbr5 Fl F
  unfolding handle
  handle_all [] s = s
  handle_all (e ∷ es) s = handle_all es (handle e s)

  abbrev pub AreAllowed : List Event → Bbr5 Fl F → Type 0
  AreAllowed [] s = Unit
  AreAllowed (e ∷ es) s = IsAllowed e s.flight × AreAllowed es (handle e s)

  -- The gain is that of the mode, and the bytes in flight are those of the packets.
  abbrev pub IsControlled : Bbr5 Fl F → Type 0
  IsControlled s = IsPaced parts s × IsFlight s.flight

  pub init-IsControlled :
      (min_bps : ℕ) (observer : _) (filter : F) → IsControlled (init parts min_bps observer filter)
  init-IsControlled min_bps observer filter = (
    record {
      high = λ e. refl;
      low = λ e. absurd (cc e);
      cycling = λ e. absurd (cc e);
      fallen = λ e. absurd (cc e);
    },
    init-IsFlight,
  )

  sent-IsControlled :
      (now packet_number bytes : ℕ) (s : Bbr5 Fl F)
      → IsControlled s
      → IsAllowed (sent_event now packet_number bytes) s.flight
      → IsControlled (on_packet_sent now packet_number bytes s)
  unfolding on_packet_sent Flight.on_packet_sent
  sent-IsControlled now packet_number bytes s (p, v) room =
      elim (Bool-cases (leb packet_number s.flight.last_sent_packet)) [
        | inl old ↦ (p, rw old v)
        | inr new ↦ (
          p,
          on_packet_sent-IsFlight now packet_number bytes s.flight v (ground (arith, new)) room,
        )
      ]

  -- A new acknowledgement before the end of the first round only learns.
  first_round-IsControlled :
      (draw now packet_number : ℕ) (s : Bbr5 Fl F)
      → IsControlled s
      → (s.flight.round_trip_count == 0) ≡ true
      → leb packet_number s.flight.last_ack_seq ≡ false
      → packet_number ≤ s.flight.last_sent_packet
      → IsControlled (on_ack parts draw now packet_number s).0
        × Reaches s.mode (on_ack parts draw now packet_number s).0.mode
  unfolding on_ack update_rtt calculate_pacing_rate
  first_round-IsControlled draw now packet_number s (p, v) first new sent =
      let keeps =
        learn_rtt-Keeps parts now packet_number (find packet_number s.flight.sent_packets_map) s in
      let flown =
        ack_flight-IsFlight parts.bandwidths now packet_number s.flight v (ground (arith, new))
          sent in
      rw (new, first) ((keeps.1 p, flown), rw keeps.0 (Reaches-same s.mode))

  later-IsControlled :
      (draw now packet_number : ℕ) (s : Bbr5 Fl F)
      → IsControlled s
      → s.flight.last_ack_seq < packet_number
      → 0 < s.flight.round_trip_count
      → packet_number ≤ s.flight.last_sent_packet
      → IsControlled (on_ack parts draw now packet_number s).0
        × Reaches s.mode (on_ack parts draw now packet_number s).0.mode
  later-IsControlled draw now packet_number s (p, v) new past sent =
      let settled = (on_ack-IsSettled parts draw now packet_number s p new past).0 in
      (
        (
          settled.paced,
          rw settled.flown
              (ack_flight-IsFlight parts.bandwidths now packet_number s.flight v new sent),
        ),
        settled.reached,
      )

  ack-IsControlled :
      (draw now packet_number : ℕ) (s : Bbr5 Fl F)
      → IsControlled s
      → packet_number ≤ s.flight.last_sent_packet
      → IsControlled (on_ack parts draw now packet_number s).0
        × Reaches s.mode (on_ack parts draw now packet_number s).0.mode
  unfolding on_ack
  ack-IsControlled draw now packet_number s v sent =
      elim (Bool-cases (leb packet_number s.flight.last_ack_seq)) [
        | inl old ↦ rw old (v, Reaches-same s.mode)
        | inr new ↦ elim (Bool-cases (s.flight.round_trip_count == 0)) [
          | inl first ↦ first_round-IsControlled draw now packet_number s v first new sent
          | inr later ↦
              later-IsControlled draw now packet_number s v (ground (arith, new))
                (ground (arith, later)) sent
        ]
      ]

  -- A controller whose gain is that of its mode, in INCREASE the one at an offset inside the
  -- array of gains, and whose bytes in flight are those of the packets that it and its sampler
  -- follow, is so again after any sequence of packets that are sent and acknowledgements, as
  -- long as the bytes sent do not wrap and only what was sent is acknowledged; and it does not
  -- come back to START, nor to DRAIN but from START.
  pub handle_all-IsControlled :
      (es : List Event) (s : Bbr5 Fl F)
      → IsControlled s
      → AreAllowed es s
      → IsControlled (handle_all es s) × Reaches s.mode (handle_all es s).mode
  unfolding handle_all handle
  handle_all-IsControlled [] s v a = (v, Reaches-same s.mode)
  handle_all-IsControlled (sent_event now packet_number bytes ∷ es) s v a =
      handle_all-IsControlled es (on_packet_sent now packet_number bytes s)
        (sent-IsControlled now packet_number bytes s v a.0) a.1
  handle_all-IsControlled (ack_event draw now packet_number ∷ es) s v a =
      let after = (on_ack parts draw now packet_number s).0 in
      let step = ack-IsControlled draw now packet_number s v a.0 in
      let (rest, reached) = handle_all-IsControlled es after step.0 a.1 in
      (rest, Reaches-trans s.mode after.mode (handle_all es after).mode step.1 reached)
