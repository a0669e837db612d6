-- ===== src/V1/Wire.antt =====
-- ns3/mp-video/model/video_proto.cc: the packets of the second line, and their bytes.
pub mod RoundTrip
use mp_video_simulation.Prelude.{
  ℕ, ◌+◌, ◌-◌, ◌%◌, ◌≤◌, ◌<◌, ◌≡◌, ◌^◌, Bool, true, false, Option, none, some, List, [], ◌∷◌, ◌++◌,
  ltb, if◌then◌else◌, length, take, drop, replicate, add32, sub32, u16_mod,
}

-- The integers that the packets hold.
pub data Width : Type 0 where
  one two four : Width

abbrev pub bytes_of : Width → ℕ
bytes_of one = 1
bytes_of two = 2
bytes_of four = 4

abbrev pub range_of : Width → ℕ
range_of one = 2 ^ 8
range_of two = 2 ^ 16
range_of four = 2 ^ 32

-- QuicDataWriter and QuicDataReader of the quic library, in network byte order: a number takes its
-- width, reading gives back what was written and goes on behind it, and a read past the end fails.
pub record QuicData : Type 0 where
  pub write : Width → ℕ → List ℕ
  pub read : Width → List ℕ → Option (ℕ × List ℕ)
  pub length-write : (w : Width) (v : ℕ) → length (write w v) ≡ bytes_of w
  pub read-write :
      (w : Width) (v : ℕ) (rest : List ℕ)
      → v < range_of w
      → read w (write w v ++ rest) ≡ some (v, rest)
  pub read_short : (w : Width) (bytes : List ℕ) → length bytes < bytes_of w → read w bytes ≡ none

-- VIDEO_PACKET_SIZE and VIDEO_SEGMENT_HEADER_SIZE.
abbrev pub video_packet_size : ℕ
video_packet_size = 1000

abbrev pub video_segment_header_size : ℕ
video_segment_header_size = 15

-- video_segment_t; `payload` is the array `data`.
pub record VideoSegment : Type 0 where
  pub fid : ℕ
  pub timestamp : ℕ
  pub index : ℕ
  pub total : ℕ
  pub ftype : ℕ
  pub send_ts : ℕ
  pub data_size : ℕ
  pub payload : List ℕ

-- VideoPacketWrapper; `none` stands for the -1 of `send_ts_` and `ftype_`, and for no segment.
pub record VideoPacketWrapper : Type 0 where
  pub packet_id : ℕ
  pub timestamp : ℕ
  pub generate_ts : ℕ
  pub ref_time : ℕ
  pub send_ts : Option ℕ
  pub ftype : Option ℕ
  pub segment : Option VideoSegment
  pub payload_size : ℕ
  pub enqueue_ts : ℕ
  pub path_id : ℕ

-- The constructor.
abbrev pub new_packet : (packet_id ref_time : ℕ) → VideoPacketWrapper
new_packet packet_id ref_time = record {
  packet_id = packet_id;
  timestamp = 0;
  generate_ts = 0;
  ref_time = ref_time;
  send_ts = none;
  ftype = none;
  segment = none;
  payload_size = 0;
  enqueue_ts = 0;
  path_id = 0;
}

-- `OnNewSegment`: the first segment stays.
unfoldable pub on_new_segment : VideoSegment → ℕ → VideoPacketWrapper → VideoPacketWrapper
on_new_segment seg now p = elim p.segment [
  | some old ↦ p
  | none ↦ record p {
    segment = some seg;
    timestamp = seg.timestamp;
    generate_ts = now;
    ftype = some seg.ftype;
    payload_size = video_segment_header_size + seg.data_size;
  }
]

-- `IsStale`.
unfoldable pub is_stale : (now threshold : ℕ) → VideoPacketWrapper → Bool
is_stale now threshold p = ltb threshold (sub32 now p.generate_ts)

-- The value of `send_ts_`.
abbrev pub time_offset : ℕ → VideoPacketWrapper → ℕ
time_offset now p = sub32 (sub32 now p.ref_time) p.timestamp

module _ (q : QuicData) where
  -- What the writer is given, in order.
  unfoldable pub write_segment : VideoSegment → List ℕ
  write_segment s =
      q.write four s.fid
      ++ (q.write four s.timestamp
          ++ (q.write one s.index
              ++ (q.write one s.total
                  ++ (q.write one s.ftype
                      ++ (q.write two s.send_ts
                          ++ (q.write two s.data_size ++ take s.data_size s.payload))))))

  -- `Serialize`, with the bytes that it leaves in the buffer; `none` is the result -1.
  unfoldable pub serialize :
      (len now : ℕ) → VideoPacketWrapper → VideoPacketWrapper × Option (List ℕ)
  unfolding write_segment
  serialize len now p =
      let offset = time_offset now p in
      elim p.segment [
        | none ↦ (record p { send_ts = some offset }, none)
        | some seg ↦
            let stamped = record seg { send_ts = offset % u16_mod } in
            (
              record p { send_ts = some offset; segment = some stamped },
              (if ltb len p.payload_size then none else some (write_segment stamped)),
            )
      ]

  -- A read that fails leaves the field as it was and the reader at its end.
  unfoldable pub read_field : Width → ℕ → List ℕ → ℕ × List ℕ
  read_field w old bytes = elim (q.read w bytes) [ none ↦ (old, []) | some (v, rest) ↦ (v, rest) ]

  -- `ReadBytes` into the array; `none` is a write past its end.
  unfoldable pub read_payload : ℕ → List ℕ → List ℕ → Option (List ℕ)
  read_payload size array bytes =
      if ltb (length bytes) size
      then some array
      else if ltb (length array) size
      then none
      else some (take size bytes ++ drop size array)

  -- The seven numbers in front of the data, and the bytes behind them.
  unfoldable pub read_header : VideoSegment → List ℕ → VideoSegment × List ℕ
  unfolding read_field
  read_header s bytes =
      let (fid, b1) = read_field four s.fid bytes in
      let (timestamp, b2) = read_field four s.timestamp b1 in
      let (index, b3) = read_field one s.index b2 in
      let (total, b4) = read_field one s.total b3 in
      let (ftype, b5) = read_field one s.ftype b4 in
      let (send_ts, b6) = read_field two s.send_ts b5 in
      let (data_size, b7) = read_field two s.data_size b6 in
      (
        record s {
          fid = fid;
          timestamp = timestamp;
          index = index;
          total = total;
          ftype = ftype;
          send_ts = send_ts;
          data_size = data_size;
        },
        b7,
      )

  unfoldable pub read_rest : List ℕ → VideoSegment × List ℕ → Option VideoSegment
  unfolding read_payload
  read_rest array (header, rest) = elim (read_payload header.data_size array rest) [
    | none ↦ none
    | some payload ↦ some (record header { payload = payload })
  ]

  -- `Deserialize`, into a segment that is there or a new one of zeros.
  unfoldable pub read_segment : VideoSegment → List ℕ → Option VideoSegment
  unfolding read_header read_rest
  read_segment s bytes = read_rest s.payload (read_header s bytes)

abbrev pub zero_segment : VideoSegment
zero_segment = record {
  fid = 0;
  timestamp = 0;
  index = 0;
  total = 0;
  ftype = 0;
  send_ts = 0;
  data_size = 0;
  payload = replicate video_packet_size 0;
}

-- VideoPacketReceiveWrapper.
pub record VideoPacketReceiveWrapper : Type 0 where
  pub received_ts : ℕ
  pub sent_ts : ℕ
  pub first_ts : ℕ
  pub segment : Option VideoSegment

abbrev pub new_received : ℕ → VideoPacketReceiveWrapper
new_received ts = record { received_ts = ts; sent_ts = 0; first_ts = 0; segment = none }

unfoldable pub deserialize :
    QuicData → List ℕ → VideoPacketReceiveWrapper → Option VideoPacketReceiveWrapper
unfolding read_segment
deserialize q bytes p =
    let old : VideoSegment = elim p.segment [ none ↦ zero_segment | some seg ↦ seg ] in
    elim (read_segment q old bytes) [
      | none ↦ none
      | some seg ↦ some (record p { segment = some seg })
    ]

-- `get_index`, where `none` is -1.
abbrev pub get_index : VideoPacketReceiveWrapper → Option ℕ
get_index p = elim p.segment [ none ↦ none | some seg ↦ some seg.index ]

-- `get_owd`, which also notes the time of sending; `none` is a packet without a segment.
unfoldable pub get_owd : VideoPacketReceiveWrapper → Option (VideoPacketReceiveWrapper × ℕ)
get_owd p = elim p.segment [
  | none ↦ none
  | some seg ↦
      let sent_ts = add32 (add32 seg.timestamp seg.send_ts) p.first_ts in
      some (record p { sent_ts = sent_ts }, sub32 p.received_ts sent_ts)
]

-- `get_frame_timestamp`.
unfoldable pub get_frame_timestamp : VideoPacketReceiveWrapper → Option ℕ
get_frame_timestamp p = elim p.segment [
  | none ↦ none
  | some seg ↦ some (add32 seg.timestamp p.first_ts)
]
