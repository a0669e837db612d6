-- ===== src/PathSender/Buffer.antt =====
-- ns3/mp-video/model/pathsender.cc: the buffer of segments that wait, and the list of those sent.
use mp_video_simulation.Prelude.{
  ℕ, ◌%◌, Bool, Option, none, some, List, [], ◌∷◌, leb, ltb, ◌==◌, if◌then◌else◌, add32, sub32,
  add16, u32_mod,
}
use mp_video_simulation.Prelude.OrderedMap
use mp_video_simulation.Prelude.OrderedMap.{find}
use mp_video_simulation.Protocol.{Segment, wire_size}
use mp_video_simulation.PathSender.State.{PathSender, SendBuf, Session}

-- The segment with the ids that `put` gives it.
abbrev pub number_segment : Segment → PathSender → Segment
number_segment seg s = record seg { packet_id = s.packet_seed; transport_seq = s.trans_seq }

-- `put`, up to the insertion.
unfoldable pub enqueue : Segment → PathSender → PathSender
enqueue seg s = record s {
  packet_seed = add32 s.packet_seed 1;
  trans_seq = add16 s.trans_seq 1;
  len = add32 s.len (wire_size seg);
  pending_len = add32 s.pending_len (wire_size seg);
  buf = OrderedMap.insert s.trans_seq (number_segment seg s) s.buf;
}

abbrev pub leave_buf : Segment → List (ℕ × Segment) → PathSender → PathSender
leave_buf seg buf s = record s {
  buf = buf;
  len = sub32 s.len (wire_size seg % u32_mod);
  pending_len = sub32 s.pending_len (wire_size seg % u32_mod);
}

-- `get_segment()`: the segment with the least key.
unfoldable pub get_first : PathSender → PathSender × Option Segment
get_first s = elim s.buf [ [] ↦ (s, none) | (id, seg) ∷ buf ↦ (leave_buf seg buf s, some seg) ]

-- `get_segment(seq, retrans, ts)`.
unfoldable pub get_segment : ℕ → Bool → PathSender → PathSender × Option Segment
get_segment seq retrans s =
    if s.stop then (s, none) else if retrans then (s, none) else elim (find seq s.buf) [
      | none ↦ (s, none)
      | some seg ↦ (leave_buf seg (OrderedMap.erase seq s.buf) s, some seg)
    ]

unfoldable pub free_len : List (ℕ × Segment) → ℕ → ℕ
free_len [] len = len
free_len ((id, seg) ∷ buf) len = free_len buf (sub32 len (wire_size seg % u32_mod))

-- `FreePendingBuf`; `pending_len_` stays.
unfoldable pub free_pending_buf : PathSender → PathSender
unfolding free_len
free_pending_buf s = record s { len = free_len s.buf s.len; buf = [] }

-- `GetSentPacketInfo`.
unfoldable pub get_sent_packet_info : ℕ → List SendBuf → Option SendBuf
get_sent_packet_info seq [] = none
get_sent_packet_info seq (b ∷ bs) =
    if ltb seq b.seg.packet_id
    then none
    else if b.seg.packet_id == seq
    then some b
    else get_sent_packet_info seq bs

-- `RemoveAckedPacket`.
unfoldable pub remove_acked_packet : ℕ → List SendBuf → List SendBuf
remove_acked_packet seq [] = []
remove_acked_packet seq (b ∷ bs) =
    if ltb seq b.seg.packet_id
    then b ∷ bs
    else if b.seg.packet_id == seq
    then bs
    else b ∷ remove_acked_packet seq bs

pub drop_until : ℕ → List SendBuf → List SendBuf
drop_until seq [] = []
drop_until seq (b ∷ bs) = if leb b.seg.packet_id seq then drop_until seq bs else b ∷ bs

-- `RemoveSentBufUntil`.
unfoldable pub remove_sent_buf_until : ℕ → PathSender → PathSender
unfolding drop_until
remove_sent_buf_until seq s = record s {
  base_seq = if leb s.base_seq seq then seq else s.base_seq;
  sent_buf = drop_until seq s.sent_buf;
}

-- max_tolerate_sent_offset and buf_collect_time, in milliseconds.
abbrev pub max_tolerate_sent_offset : ℕ
max_tolerate_sent_offset = 500

abbrev pub buf_collect_time : ℕ
buf_collect_time = 500

pub collect_old : ℕ → Option Session → List SendBuf → Option (List SendBuf)
collect_old now mpsender [] = some []
collect_old now none (b ∷ bs) = none
collect_old now (some m) (b ∷ bs) =
    if leb (sub32 (sub32 now m.first_ts) b.seg.timestamp) max_tolerate_sent_offset
    then some (b ∷ bs)
    else collect_old now (some m) bs

-- `SentBufCollection`.
unfoldable pub sent_buf_collection : ℕ → PathSender → Option PathSender
unfolding collect_old
sent_buf_collection now s =
    if s.last_sentbuf_collect_ts == 0
    then some (record s { last_sentbuf_collect_ts = now })
    else if ltb buf_collect_time (sub32 now s.last_sentbuf_collect_ts)
    then elim (collect_old now s.mpsender s.sent_buf) [
      | none ↦ none
      | some sent_buf ↦ some (record s { last_sentbuf_collect_ts = now; sent_buf = sent_buf })
    ]
    else some s
