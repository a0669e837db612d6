-- ===== src/V1/Wire/RoundTrip.antt =====
-- A packet of ns3/mp-video/model/video_proto.cc over the wire.
use mp_video_simulation.Prelude.{
  ℕ, zero, suc, ◌+◌, ◌%◌, ◌≤◌, ◌<◌, ◌≡◌, ◌^◌, ◌∙◌, refl, ap, sym, some, List, [], ◌∷◌, ◌++◌, length,
  take, drop, replicate, u16_mod, arith, length-append,
}
use mp_video_simulation.V1.Wire.{
  Width, one, two, four, bytes_of, range_of, QuicData, VideoSegment, VideoPacketWrapper,
  write_segment, serialize, read_field, read_payload, read_header, read_rest, read_segment,
  zero_segment, time_offset, deserialize, new_received, video_packet_size,
  video_segment_header_size,
}

-- A segment as the sender fills it: words in their ranges, and the data inside the array.
pub record IsSegment (s : VideoSegment) : Type 0 where
  pub fid_word : s.fid < 2 ^ 32
  pub timestamp_word : s.timestamp < 2 ^ 32
  pub index_byte : s.index < 2 ^ 8
  pub total_byte : s.total < 2 ^ 8
  pub ftype_byte : s.ftype < 2 ^ 8
  pub send_ts_half : s.send_ts < 2 ^ 16
  pub fits : s.data_size ≤ video_packet_size
  pub array : length s.payload ≡ video_packet_size

-- What arrives: the data, and zeros behind it in the array.
abbrev pub on_the_wire : VideoSegment → VideoSegment
on_the_wire s = record s {
  payload = take s.data_size s.payload ++ drop s.data_size (replicate video_packet_size 0);
}

pub length-take : (n : ℕ) (xs : List ℕ) → n ≤ length xs → length (take n xs) ≡ n
length-take zero xs h = refl
length-take (suc n) [] h = absurd (omega arith)
length-take (suc n) (x ∷ xs) h = omega (arith, length-take n xs (omega arith))

pub take_all : (xs : List ℕ) (n : ℕ) → length xs ≡ n → take n xs ≡ xs
take_all [] zero h = refl
take_all [] (suc n) h = refl
take_all (x ∷ xs) zero h = absurd (omega (arith, h))
take_all (x ∷ xs) (suc n) h = ap (◌∷◌ x) (take_all xs n (omega (arith, h)))

module _ (q : QuicData) where
  read_field-write :
      (w : Width) (old v : ℕ) (rest : List ℕ)
      → v < range_of w
      → read_field q w old (q.write w v ++ rest) ≡ (v, rest)
  unfolding read_field
  read_field-write w old v rest h = rw (q.read-write w v rest h, read_field)

  length-field :
      (w : Width) (v : ℕ) (rest : List ℕ) → length (q.write w v ++ rest) ≡ bytes_of w + length rest
  length-field w v rest = rw (length-append, q.length-write w v) refl

  length-write_segment :
      (s : VideoSegment)
      → IsSegment s
      → length (write_segment q s) ≡ video_segment_header_size + s.data_size
  unfolding write_segment
  length-write_segment s v =
      let payload : length (take s.data_size s.payload) ≡ s.data_size =
        length-take s.data_size s.payload (omega (arith, v.fits, v.array)) in
      rw
        (
          write_segment,
          length-field four s.fid _,
          length-field four s.timestamp _,
          length-field one s.index _,
          length-field one s.total _,
          length-field one s.ftype _,
          length-field two s.send_ts _,
          length-field two s.data_size _,
          payload,
        )
        (omega arith)

  read_header-write_segment :
      (s : VideoSegment)
      → IsSegment s
      → read_header q zero_segment (write_segment q s)
        ≡ (record s { payload = zero_segment.payload }, take s.data_size s.payload)
  unfolding read_header write_segment
  read_header-write_segment s v =
      rw
        (
          read_header,
          write_segment,
          read_field-write four 0 s.fid _ v.fid_word,
          read_field-write four 0 s.timestamp _ v.timestamp_word,
          read_field-write one 0 s.index _ v.index_byte,
          read_field-write one 0 s.total _ v.total_byte,
          read_field-write one 0 s.ftype _ v.ftype_byte,
          read_field-write two 0 s.send_ts _ v.send_ts_half,
          read_field-write two 0 s.data_size _ (omega (arith, v.fits)),
        )
        refl

  read_payload-take :
      (size : ℕ) (array bytes : List ℕ)
      → length bytes ≡ size
      → size ≤ length array
      → read_payload q size array bytes ≡ some (bytes ++ drop size array)
  unfolding read_payload
  read_payload-take size array bytes h le = ground (arith, take_all bytes size h)

  read_rest-take :
      (array bytes : List ℕ) (header : VideoSegment)
      → length bytes ≡ header.data_size
      → header.data_size ≤ length array
      → read_rest q array (header, bytes)
        ≡ some (record header { payload = bytes ++ drop header.data_size array })
  unfolding read_rest
  read_rest-take array bytes header h le =
      rw (read_rest, read_payload-take header.data_size array bytes h le) refl

  read_segment-write_segment :
      (s : VideoSegment)
      → IsSegment s
      → read_segment q zero_segment (write_segment q s) ≡ some (on_the_wire s)
  unfolding read_segment
  read_segment-write_segment s v =
      ap (read_rest q zero_segment.payload) (read_header-write_segment s v)
      ∙ read_rest-take zero_segment.payload (take s.data_size s.payload)
          (record s { payload = zero_segment.payload })
          (length-take s.data_size s.payload (omega (arith, v.fits, v.array)))
          (omega (arith, v.fits))

  -- A segment whose numbers fit their words, whose data fit the array, and whose packet fits
  -- the buffer of `len` bytes is sent as the header's 15 bytes and its data; and what arrives,
  -- read into a fresh packet, is that segment with the time of sending that the writer stamped
  -- on it.
  pub deserialize-serialize :
      (len now ts : ℕ) (p : VideoPacketWrapper) (s : VideoSegment)
      → p.segment ≡ some s
      → IsSegment s
      → p.payload_size ≡ video_segment_header_size + s.data_size
      → p.payload_size ≤ len
      → (bytes : List ℕ) × ((serialize q len now p).1 ≡ some bytes)
        × (length bytes ≡ p.payload_size)
        × (deserialize q bytes (new_received ts)
            ≡ some (record (new_received ts) {
              segment = some (on_the_wire (record s { send_ts = time_offset now p % u16_mod }));
            }))
  unfolding serialize deserialize
  deserialize-serialize len now ts p s seg v size le =
      let stamp = time_offset now p % u16_mod in
      let stamped : VideoSegment = record s { send_ts = stamp } in
      let holds : IsSegment stamped = record {
        fid_word = v.fid_word;
        timestamp_word = v.timestamp_word;
        index_byte = v.index_byte;
        total_byte = v.total_byte;
        ftype_byte = v.ftype_byte;
        send_ts_half = omega arith;
        fits = v.fits;
        array = v.array;
      } in
      (
        write_segment q stamped,
        ground arith,
        length-write_segment stamped holds ∙ sym size,
        rw (deserialize, read_segment-write_segment stamped holds) refl,
      )
