-- ===== src/Bbr5/Rtt.antt =====
-- ns3/mp-video/model/congestion/bbr_sender_v5.cc: what a round trip is recorded for.
use mp_video_simulation.Prelude.{
  ℕ, ◌+◌, ◌-◌, ◌*◌, ◌/◌, Bool, true, Option, none, some, leb, ltb, ◌==◌, ◌||◌, ◌&&◌, if◌then◌else◌,
}
use mp_video_simulation.Prelude.OrderedMap.{find}
use mp_video_simulation.Bbr2.Flight.{PerPacket}
use mp_video_simulation.Bbr2.State.{Parts, similar_min_rtt_threshold}
use mp_video_simulation.Bbr2.Modes.{is_increase, is_decrease}
use mp_video_simulation.Bbr5.State.{Bbr5}

-- A time below one that may be infinite.
abbrev pub below : ℕ → Option ℕ → Bool
below rtt none = true
below rtt (some least) = ltb rtt least

abbrev pub at_most : ℕ → Option ℕ → Bool
at_most rtt none = true
at_most rtt (some least) = leb rtt least

-- kSmoothRttNum of kSmoothRttDen, in whole milliseconds.
unfoldable pub smooth_rtt : (s_rtt rtt : ℕ) → ℕ
smooth_rtt s_rtt rtt =
    if s_rtt == 0 then rtt else ((100 - 95) * (s_rtt / 1000) + 95 * (rtt / 1000)) / 100 * 1000

module _ {Fl F : Type 0} where
  -- `GetMinRtt`.
  abbrev pub get_min_rtt : Bbr5 Fl F → ℕ
  get_min_rtt s = if s.min_rtt == 0 then 200000 else s.min_rtt

  -- The base line and the smoothed round trip, of INCREASE and of packets after the back-off.
  unfoldable pub track_rtt : (now packet_number rtt : ℕ) → Bbr5 Fl F → Bbr5 Fl F
  unfolding smooth_rtt
  track_rtt now packet_number rtt s =
      let least = below rtt s.base_line_rtt in
      if is_increase s.mode && ltb s.seq_at_backoff packet_number
      then record s {
        base_line_rtt = if least then some rtt else s.base_line_rtt;
        base_line_rtt_timestamp = if least then now else s.base_line_rtt_timestamp;
        s_rtt = smooth_rtt (if least then rtt else s.s_rtt) rtt;
      }
      else s

module _ {Fl F : Type 0} (parts : Parts Fl F) where
  -- The least round trips of `UpdateRttAndInflight`. The clock does not run backwards, so that a
  -- round trip is a ℕ.
  unfoldable pub take_rtt : (now rtt : ℕ) → Bbr5 Fl F → Bbr5 Fl F
  take_rtt now rtt s =
      let lower = (s.min_rtt == 0) || ltb rtt s.min_rtt in
      let similar = leb rtt (parts.times_delta (similar_min_rtt_threshold parts) s.min_rtt) in
      let renews = lower || (ltb s.min_rtt rtt && similar) in
      let falls = is_decrease s.mode && at_most rtt s.min_rtt_in_decrease in
      record s {
        min_rtt = if lower then rtt else s.min_rtt;
        min_rtt_timestamp = if renews then now else s.min_rtt_timestamp;
        min_rtt_in_decrease = if falls then some rtt else s.min_rtt_in_decrease;
        min_rtt_timestamp_in_decrease = if falls then now else s.min_rtt_timestamp_in_decrease;
      }

  -- The first half of `UpdateRttAndInflight`, with the packet, if it is in flight.
  unfoldable pub learn_rtt : (now packet_number : ℕ) → Option PerPacket → Bbr5 Fl F → Bbr5 Fl F
  unfolding take_rtt track_rtt
  learn_rtt now packet_number none s = s
  learn_rtt now packet_number (some packet) s =
      let rtt = now - packet.sent_ts in track_rtt now packet_number rtt (take_rtt now rtt s)

  unfoldable pub update_rtt : (now packet_number : ℕ) → Bbr5 Fl F → Bbr5 Fl F
  unfolding learn_rtt
  update_rtt now packet_number s =
      learn_rtt now packet_number (find packet_number s.flight.sent_packets_map) s
