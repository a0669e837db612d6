-- ===== src/Protocol.antt =====
-- The messages that the two ends of a path exchange (ns3/mp-video/model/sim_proto.h). A message is
-- a value here: the byte codec of sim_proto.inl belongs to the vendored transport library.
use mp_video_simulation.Prelude.{ℕ, ◌+◌, ◌%◌, List, u8_mod}

-- SIM_SEGMENT_HEADER_SIZE.
abbrev pub sim_segment_header_size : ℕ
sim_segment_header_size = 30

-- NACK_NUM.
abbrev pub nack_num : ℕ
nack_num = 80

-- sim_segment_t.
pub record Segment : Type 0 where
  pub packet_id : ℕ
  pub fid : ℕ
  pub timestamp : ℕ
  pub index : ℕ
  pub total : ℕ
  pub ftype : ℕ
  pub payload_type : ℕ
  pub remb : ℕ
  pub send_ts : ℕ
  pub transport_seq : ℕ
  pub data_size : ℕ
  pub bytes : List ℕ

-- sim_segment_ack_t; `nack` holds the `nack_num` entries in use.
pub record SegmentAck : Type 0 where
  pub base_packet_id : ℕ
  pub acked_packet_id : ℕ
  pub nack : List ℕ

-- The bodies, with the fields that the ends read.
pub data Body : Type 0 where
  connect : (cid : ℕ) → Body
  connect_ack : (cid result : ℕ) → Body
  disconnect : (cid : ℕ) → Body
  ping : (ts : ℕ) → Body
  pong : (ts : ℕ) → Body
  seg : Segment → Body
  seg_ack : SegmentAck → Body
  feedback : (base_packet_id : ℕ) → List ℕ → Body
  pad : (send_ts transport_seq data_size : ℕ) → Body
  other : Body

-- sim_header_t with its body; `ver` carries the path id.
pub record Message : Type 0 where
  pub ver : ℕ
  pub uid : ℕ
  pub body : Body

-- Bytes that a segment takes in the buffers' accounts.
abbrev pub wire_size : Segment → ℕ
wire_size s = s.data_size + sim_segment_header_size

-- sizeof(sim_header_t) + sizeof(sim_pad_t) is 8 + 508, and it is kept in a uint8_t.
abbrev pub pad_header_len : ℕ
pad_header_len = (8 + 508) % u8_mod
