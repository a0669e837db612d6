-- ===== src/V1/PathSender/Queue/Accounts.antt =====
-- The accounts of ns3/mp-video/model/path_sender_v1.cc: bytes that wait, and numbers in flight.
use mp_video_simulation.Prelude.{
  u64_mod, ℕ, ◌+◌, ◌%◌, ◌≤◌, ◌<◌, ◌≡◌, Bool, true, false, none, some, List, [], ◌∷◌, ◌++◌, All,
  All-append, arith, u32_mod,
}
use mp_video_simulation.Prelude.OrderedMap.{Above, Every, insert-Above}
use mp_video_simulation.Prelude.OrderedMap.Bounds.{insert-Below}
use mp_video_simulation.V1.Wire.{QuicData, VideoPacketWrapper}
use mp_video_simulation.V1.PathSender.State.{PathSender, max_buf_size}
use mp_video_simulation.V1.PathSender.Queue.{on_video_packet, send_padding_packet}

-- A packet has its segment, and its bytes fit the buffer.
abbrev pub IsSendable : VideoPacketWrapper → Type 0
IsSendable p = elim p.segment [ none ↦ ⊥ | some seg ↦ p.payload_size ≤ max_buf_size ]

abbrev pub bytes_of_all : List VideoPacketWrapper → ℕ
bytes_of_all [] = 0
bytes_of_all (p ∷ ps) = p.payload_size + bytes_of_all ps

bytes_of_all-append :
    (ps qs : List VideoPacketWrapper) → bytes_of_all (ps ++ qs) ≡ bytes_of_all ps + bytes_of_all qs
bytes_of_all-append [] qs = omega arith
bytes_of_all-append (p ∷ ps) qs = omega (arith, bytes_of_all-append ps qs)

-- The packets that wait can be sent, their bytes are counted, and the numbers in flight lie between
-- the last one acknowledged and the next one.
pub record IsSender (s : PathSender) : Type 0 where
  pub registered : s.mpsender ≡ true
  pub resent : All IsSendable s.resending_queue
  pub queued : All IsSendable s.sending_queue
  pub counted :
      s.pending_bytes ≡ (bytes_of_all s.resending_queue + bytes_of_all s.sending_queue) % u32_mod
  pub above : Above s.recv_seq s.seq_id_map
  pub below : Every (λ k id. k < s.seq) s.seq_id_map
  pub received : s.recv_seq < s.seq

pub on_video_packet-IsSender :
    (now packet_id : ℕ) (p : VideoPacketWrapper) (is_retrans : Bool) (s : PathSender)
    → IsSendable p
    → IsSender s
    → IsSender (on_video_packet now packet_id p is_retrans s)
unfolding on_video_packet
on_video_packet-IsSender now packet_id p true s h v = record {
  registered = v.registered;
  resent = All-append IsSendable s.resending_queue _ v.resent (h, tt);
  queued = v.queued;
  counted = omega (
    arith,
    v.counted,
    bytes_of_all-append s.resending_queue (record p { enqueue_ts = now } ∷ []),
  );
  above = v.above;
  below = v.below;
  received = v.received;
}
on_video_packet-IsSender now packet_id p false s h v = record {
  registered = v.registered;
  resent = v.resent;
  queued = All-append IsSendable s.sending_queue _ v.queued (h, tt);
  counted =
      omega (
        arith,
        v.counted,
        bytes_of_all-append s.sending_queue (record p { enqueue_ts = now } ∷ []),
      );
  above = v.above;
  below = v.below;
  received = v.received;
}

module _ (q : QuicData) (min_seq_length : ℕ → ℕ) where
  pub send_padding_packet-IsSender :
      (now : ℕ) (s : PathSender)
      → s.seq + 1 < u64_mod
      → IsSender s
      → IsSender (send_padding_packet q min_seq_length now s).0
  unfolding send_padding_packet
  send_padding_packet-IsSender now s l v =
      let next : (s.seq + 1) % u64_mod ≡ s.seq + 1 = omega arith in
      record {
        registered = v.registered;
        resent = v.resent;
        queued = v.queued;
        counted = v.counted;
        above = insert-Above s.recv_seq s.seq 0 s.seq_id_map v.received v.above;
        below = rw next (insert-Below s.seq 0 s.seq_id_map v.below);
        received = omega (arith, next, v.received);
      }
