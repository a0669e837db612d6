-- ===== src/Bbr2/Flight.antt =====
-- ns3/mp-video/model/congestion/bbr_sender_v2.cc: the packets in flight and the rounds.
pub mod Accounts
use mp_video_simulation.Prelude.{
  ℕ, zero, suc, ◌+◌, ◌-◌, Bool, true, false, Option, none, some, List, [], ◌∷◌, leb, ltb,
  if◌then◌else◌, add64, sub64,
}
use mp_video_simulation.Prelude.OrderedMap
use mp_video_simulation.Prelude.OrderedMap.{find}
use mp_video_simulation.Sampler
use mp_video_simulation.Sampler.{Bandwidths, MySampler, on_packet_lost, on_packet_acknowledged}

pub record PerPacket : Type 0 where
  pub sent_ts : ℕ
  pub bytes : ℕ

-- The fields of MyBbrSenderV2 that follow the packets.
pub record Flight : Type 0 where
  pub last_sent_packet : ℕ
  pub last_ack_seq : ℕ
  pub current_round_trip_end : ℕ
  pub round_trip_count : ℕ
  pub sent_packets_map : List (ℕ × PerPacket)
  pub bytes_in_flight : ℕ
  pub sampler : MySampler

abbrev pub init : Flight
init = record {
  last_sent_packet = 0;
  last_ack_seq = 0;
  current_round_trip_end = 0;
  round_trip_count = 0;
  sent_packets_map = [];
  bytes_in_flight = 0;
  sampler = Sampler.init;
}

-- `OnPacketSent`, with `AddPacketInfo`.
unfoldable pub on_packet_sent : (now packet_number bytes : ℕ) → Flight → Flight
unfolding Sampler.on_packet_sent
on_packet_sent now packet_number bytes f =
    if leb packet_number f.last_sent_packet then f else record f {
      last_sent_packet = packet_number;
      sampler = Sampler.on_packet_sent now packet_number bytes f.bytes_in_flight f.sampler;
      bytes_in_flight = add64 f.bytes_in_flight bytes;
      sent_packets_map =
          OrderedMap.insert packet_number (record { sent_ts = now; bytes = bytes })
            f.sent_packets_map;
    }

-- The loop of `OnAck` over the packets that were passed over, `n` of them from `k` on.
unfoldable pub lose_run : (n k : ℕ) → MySampler → MySampler
unfolding on_packet_lost
lose_run zero k s = s
lose_run (suc n) k s = lose_run n (k + 1) (on_packet_lost k s)

unfoldable pub lose_until : (packet_number : ℕ) → Flight → Flight
unfolding lose_run
lose_until packet_number f = record f {
  sampler = lose_run (packet_number - (f.last_ack_seq + 1)) (f.last_ack_seq + 1) f.sampler;
  last_ack_seq = packet_number;
}

-- The loop at the end of `UpdateRttAndInflight`: the bytes in flight, and the packets that are left.
unfoldable pub settle :
    (packet_number in_flight : ℕ) → List (ℕ × PerPacket) → ℕ × List (ℕ × PerPacket)
settle packet_number in_flight [] = (in_flight, [])
settle packet_number in_flight ((k, p) ∷ m) =
    if leb k packet_number
    then settle packet_number (sub64 in_flight p.bytes) m
    else (in_flight, (k, p) ∷ m)

unfoldable pub update_inflight : (packet_number : ℕ) → Flight → Flight
unfolding settle
update_inflight packet_number f =
    let (in_flight, m) = settle packet_number f.bytes_in_flight f.sent_packets_map in
    record f { bytes_in_flight = in_flight; sent_packets_map = m }

-- `UpdateRoundTripCounter`.
unfoldable pub update_round_trip_counter : (last_acked_packet : ℕ) → Flight → Flight × Bool
update_round_trip_counter last_acked_packet f =
    if ltb f.current_round_trip_end last_acked_packet
    then (
      record f {
        round_trip_count = add64 f.round_trip_count 1;
        current_round_trip_end = f.last_sent_packet;
      },
      true,
    )
    else (f, false)

-- The call of the sampler in `OnAck`, with its sample.
unfoldable pub take_sample :
    Bandwidths → (now packet_number : ℕ) → (round_update : Bool) → Flight → Flight × ℕ
unfolding on_packet_acknowledged
take_sample b now packet_number round_update f =
    let (sampler, bw) = on_packet_acknowledged b now packet_number round_update f.sampler in
    (record f { sampler = sampler }, bw)

-- What `OnAck` does to these fields, whether a round ended, and the sample.
unfoldable pub ack_flight : Bandwidths → (now packet_number : ℕ) → Flight → Flight × Bool × ℕ
unfolding lose_until update_inflight update_round_trip_counter take_sample
ack_flight b now packet_number f =
    let (counted, is_round_update) =
      update_round_trip_counter packet_number
        (update_inflight packet_number (lose_until packet_number f)) in
    let (sampled, bw) = take_sample b now packet_number is_round_update counted in
    (sampled, is_round_update, bw)
