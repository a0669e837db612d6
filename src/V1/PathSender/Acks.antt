-- ===== src/V1/PathSender/Acks.antt =====
-- ns3/mp-video/model/path_sender_v1.cc: what an acknowledgement does.
pub mod Losses
use mp_video_simulation.Prelude.{
  u64_mod, ℕ, zero, suc, ◌+◌, ◌-◌, ◌*◌, ◌/◌, ◌%◌, Bool, true, false, Option, none, some, List, [],
  ◌∷◌, ◌++◌, leb, ltb, ◌==◌, if◌then◌else◌, add32, sub32, mul32, u32_mod,
}
use mp_video_simulation.Prelude.OrderedMap.{find}
use mp_video_simulation.V1.PathSender.State.{
  PathSender, Output, on_congestion_event, packet_lost, loss,
}

-- The loop of the three functions that forget keys up to a bound.
unfoldable pub remove_le : ℕ → List (ℕ × ℕ) → List (ℕ × ℕ)
remove_le k [] = []
remove_le k ((j, v) ∷ m) = if leb j k then remove_le k m else (j, v) ∷ m

-- `RemoveSeqIdMapLe`.
unfoldable pub remove_seq_id_map_le : ℕ → PathSender → PathSender
unfolding remove_le
remove_seq_id_map_le seq s = record s { seq_id_map = remove_le seq s.seq_id_map }

-- `RemoveSeqDelayMapLe`.
unfoldable pub remove_seq_delay_map_le : ℕ → PathSender → PathSender
unfolding remove_le
remove_seq_delay_map_le seq s = record s { seq_delay_map = remove_le seq s.seq_delay_map }

-- `RemoveIdDelayMapLe`.
unfoldable pub remove_id_delay_map_le : ℕ → PathSender → PathSender
unfolding remove_le
remove_id_delay_map_le packet_id s = record s { id_delay_map = remove_le packet_id s.id_delay_map }

-- `UpdateAggregeteDelay`, smooth_delay_num of smooth_delay_den, in uint32_t.
unfoldable pub update_aggregete_delay : (delay : ℕ) → PathSender → PathSender
update_aggregete_delay delay s = record s {
  aggregate_delay =
      if s.aggregate_delay == 0
      then delay
      else add32 (mul32 (100 - 85) s.aggregate_delay) (mul32 85 delay) / 100;
}

-- The time since the packet of the sequence number came from the upper layer counts, if known.
unfoldable pub learn_delay : (now seq : ℕ) → PathSender → PathSender
unfolding update_aggregete_delay remove_id_delay_map_le
learn_delay now seq s = elim (find seq s.seq_id_map) [
  | none ↦ s
  | some packet_id ↦ elim (find packet_id s.id_delay_map) [
    | none ↦ s
    | some since ↦ remove_id_delay_map_le packet_id (update_aggregete_delay (sub32 now since) s)
  ]
]

unfoldable pub learn_rtt : (now seq : ℕ) → PathSender → PathSender
learn_rtt now seq s = elim (find seq s.seq_delay_map) [
  | none ↦ s
  | some sent ↦ record s { cur_rtt = sub32 now sent }
]

-- `UpdateRtt`.
unfoldable pub update_rtt : (now seq : ℕ) → PathSender → PathSender
unfolding learn_delay learn_rtt remove_seq_delay_map_le
update_rtt now seq s = remove_seq_delay_map_le seq (learn_delay now seq (learn_rtt now seq s))

-- What the loop of `DetectLoss` does for one number that was passed over.
unfoldable pub report_lost : (seq : ℕ) → PathSender → List Output
report_lost seq s =
    (if s.trace_loss then loss (seq % u32_mod) s.cur_rtt ∷ [] else [])
    ++ elim (find seq s.seq_id_map) [
      | none ↦ []
      | some packet_id ↦
          if packet_id == 0 then [] else if s.mpsender then packet_lost s.pid packet_id ∷ [] else []
    ]

-- The loop, for `n` numbers from `seq` on.
unfoldable pub report_all : (n seq : ℕ) → PathSender → List Output
unfolding report_lost
report_all zero seq s = []
report_all (suc n) seq s = report_lost seq s ++ report_all n (seq + 1) s

-- `DetectLoss`. The upper layer may send a lost packet again on this very path, which adds to the
-- queues and to `id_delay_map`, but to nothing that the loop reads.
unfoldable pub detect_loss : (seq : ℕ) → PathSender → PathSender × List Output
unfolding report_all remove_seq_id_map_le
detect_loss seq s =
    let first = (s.recv_seq + 1) % u64_mod in
    if leb first seq
    then (remove_seq_id_map_le seq (record s { recv_seq = seq }), report_all (seq - first) first s)
    else (remove_seq_id_map_le seq s, [])

-- `OnAck`.
unfoldable pub on_ack : (now seq : ℕ) → PathSender → PathSender × List Output
unfolding update_rtt detect_loss
on_ack now seq s =
    let (s', out) = detect_loss seq (update_rtt now seq s) in (s', on_congestion_event seq ∷ out)
