-- ===== src/Sampler.antt =====
-- ns3/mp-video/model/congestion/sampler.cc: bandwidth samples from the packets of a connection.
pub mod Totals
use mp_video_simulation.Prelude.{
  ℕ, ◌-◌, Bool, Option, none, some, List, [], leb, ltb, ◌==◌, not, min, if◌then◌else◌, add64, sub64,
}
use mp_video_simulation.Prelude.OrderedMap
use mp_video_simulation.Prelude.OrderedMap.{find, erase}

-- What the sampler uses of QuicBandwidth.
pub record Bandwidths : Type 0 where
  -- Infinite().
  pub infinite : ℕ
  -- FromBytesAndTimeDelta.
  pub from_bytes_and_time : (bytes delta : ℕ) → ℕ

pub record PacketState : Type 0 where
  pub sent_time : ℕ
  pub size : ℕ
  pub total_bytes_sent : ℕ
  pub total_bytes_sent_at_last_acked_packet : ℕ
  pub last_acked_packet_sent_time : ℕ
  pub last_acked_packet_ack_time : ℕ
  pub total_bytes_acked_at_the_last_acked_packet : ℕ

-- MySampler; the number of the last packet sent, which no call reads, is left out.
pub record MySampler : Type 0 where
  pub total_bytes_sent : ℕ
  pub total_bytes_acked : ℕ
  pub total_bytes_sent_at_last_acked_packet : ℕ
  pub last_acked_packet_sent_time : ℕ
  pub last_acked_packet_ack_time : ℕ
  pub packet_infos : List (ℕ × PacketState)

abbrev pub init : MySampler
init = record {
  total_bytes_sent = 0;
  total_bytes_acked = 0;
  total_bytes_sent_at_last_acked_packet = 0;
  last_acked_packet_sent_time = 0;
  last_acked_packet_ack_time = 0;
  packet_infos = [];
}

-- The constructor of PacketState.
abbrev pub snapshot : (sent_time size : ℕ) → MySampler → PacketState
snapshot sent_time size s = record {
  sent_time = sent_time;
  size = size;
  total_bytes_sent = s.total_bytes_sent;
  total_bytes_sent_at_last_acked_packet = s.total_bytes_sent_at_last_acked_packet;
  last_acked_packet_sent_time = s.last_acked_packet_sent_time;
  last_acked_packet_ack_time = s.last_acked_packet_ack_time;
  total_bytes_acked_at_the_last_acked_packet = s.total_bytes_acked;
}

-- The totals of `OnPacketSent`.
abbrev pub count_sent : (sent_time bytes bytes_in_flight : ℕ) → MySampler → MySampler
count_sent sent_time bytes bytes_in_flight s =
    let total = add64 s.total_bytes_sent bytes in
    let quiet = bytes_in_flight == 0 in
    record s {
      total_bytes_sent = total;
      last_acked_packet_ack_time = if quiet then sent_time else s.last_acked_packet_ack_time;
      total_bytes_sent_at_last_acked_packet =
          if quiet then total else s.total_bytes_sent_at_last_acked_packet;
      last_acked_packet_sent_time = if quiet then sent_time else s.last_acked_packet_sent_time;
    }

-- `OnPacketSent`.
unfoldable pub on_packet_sent :
    (sent_time packet_number bytes bytes_in_flight : ℕ) → MySampler → MySampler
on_packet_sent sent_time packet_number bytes bytes_in_flight s =
    let counted = count_sent sent_time bytes bytes_in_flight s in
    record counted {
      packet_infos =
          OrderedMap.insert packet_number (snapshot sent_time bytes counted) counted.packet_infos;
    }

-- `OnPacketLost` and `PacketInfoRemove`.
unfoldable pub on_packet_lost : (packet_number : ℕ) → MySampler → MySampler
on_packet_lost packet_number s = record s { packet_infos = erase packet_number s.packet_infos }

module _ (b : Bandwidths) where
  -- The rate at which the packets up to an acknowledged one were sent.
  unfoldable pub send_rate : PacketState → ℕ
  send_rate p =
      if ltb p.last_acked_packet_sent_time p.sent_time
      then b.from_bytes_and_time (sub64 p.total_bytes_sent p.total_bytes_sent_at_last_acked_packet)
          (p.sent_time - p.last_acked_packet_sent_time)
      else b.infinite

  -- The sample of `OnPacketAcknowledgedInner`, with the total that is acknowledged by then.
  unfoldable pub sample : (ack_time total_acked : ℕ) → (round_update : Bool) → PacketState → ℕ
  unfolding send_rate
  sample ack_time total_acked round_update p =
      if not round_update
      then 0
      else if p.last_acked_packet_sent_time == 0
      then 0
      else if leb ack_time p.last_acked_packet_ack_time
      then 0
      else min (send_rate p) (
          b.from_bytes_and_time (sub64 total_acked p.total_bytes_acked_at_the_last_acked_packet)
            (ack_time - p.last_acked_packet_ack_time))

  -- `OnPacketAcknowledgedInner`.
  unfoldable pub on_packet_acknowledged_inner :
      (ack_time : ℕ) → (round_update : Bool) → PacketState → MySampler → MySampler × ℕ
  unfolding sample
  on_packet_acknowledged_inner ack_time round_update p s =
      let total = add64 s.total_bytes_acked p.size in
      (
        record s {
          total_bytes_acked = total;
          total_bytes_sent_at_last_acked_packet = p.total_bytes_sent;
          last_acked_packet_sent_time = p.sent_time;
          last_acked_packet_ack_time = ack_time;
        },
        sample ack_time total round_update p,
      )

  -- `OnPacketAcknowledged`, with the entry of the packet, if there is one.
  unfoldable pub acknowledge :
      (ack_time packet_number : ℕ)
      → (round_update : Bool) → Option PacketState
      → MySampler
      → MySampler × ℕ
  unfolding on_packet_acknowledged_inner on_packet_lost
  acknowledge ack_time packet_number round_update none s = (s, 0)
  acknowledge ack_time packet_number round_update (some p) s =
      let (s', bw) = on_packet_acknowledged_inner ack_time round_update p s in
      (on_packet_lost packet_number s', bw)

  unfoldable pub on_packet_acknowledged :
      (ack_time packet_number : ℕ) → (round_update : Bool) → MySampler → MySampler × ℕ
  unfolding acknowledge
  on_packet_acknowledged ack_time packet_number round_update s =
      acknowledge ack_time packet_number round_update (find packet_number s.packet_infos) s
