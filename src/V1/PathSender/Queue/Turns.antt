-- ===== src/V1/PathSender/Queue/Turns.antt =====
-- One turn of the queues of ns3/mp-video/model/path_sender_v1.cc.
use mp_video_simulation.Prelude.{
  u64_mod, ℕ, ◌+◌, ◌%◌, ◌≤◌, ◌<◌, ◌≡◌, ◌∙◌, ◌⊎◌, refl, inl, inr, Bool, true, false, some, List, [],
  ◌∷◌, ◌++◌, if◌then◌else◌, All, arith, Option-cases, sub32, ltb,
}
use mp_video_simulation.Prelude.Calls.{Ensures, Ensures-map, Ensures-if}
use mp_video_simulation.Prelude.OrderedMap
use mp_video_simulation.Prelude.OrderedMap.{Above, Every, insert-Above}
use mp_video_simulation.Prelude.OrderedMap.Bounds.{insert-Below, insert_at_end}
use mp_video_simulation.V1.Wire.{QuicData, VideoPacketWrapper, serialize}
use mp_video_simulation.V1.Doubles.{Doubles}
use mp_video_simulation.V1.PathSender.State.{PathSender, Output, max_buf_size}
use mp_video_simulation.V1.PathSender.Queue.{
  write_packet, send_taken, send_padding_packet, send_stream_packet, process_video_packet,
}
use mp_video_simulation.V1.PathSender.Queue.Traffic.{
  traffic, traffic-offset_trace, video_bytes, video_size, letter,
}
use mp_video_simulation.V1.PathSender.Queue.Accounts.{
  IsSendable, bytes_of_all, IsSender, send_padding_packet-IsSender,
}

-- What sending a packet that was taken off its queue does to the sender.
record Leaves (q : QuicData) (min_seq_length : ℕ → ℕ) (now : ℕ) (p : VideoPacketWrapper)
    (s s' : PathSender) (out : List Output) : Type 0 where
  same_mpsender : s'.mpsender ≡ s.mpsender
  same_resending : s'.resending_queue ≡ s.resending_queue
  same_sending : s'.sending_queue ≡ s.sending_queue
  same_received : s'.recv_seq ≡ s.recv_seq
  paid : s'.pending_bytes ≡ sub32 s.pending_bytes p.payload_size
  numbered : s'.seq_id_map ≡ OrderedMap.insert s.seq p.packet_id s.seq_id_map
  next : s'.seq ≡ (s.seq + 1) % u64_mod
  sent : traffic out ≡ letter q min_seq_length now s.seq p

module _ (q : QuicData) (min_seq_length : ℕ → ℕ) where
  -- A packet that can be sent gives its bytes and their size.
  write_packet-sends :
      (now seq : ℕ) (p : VideoPacketWrapper)
      → IsSendable p
      → write_packet q min_seq_length now seq p
        ≡ some (video_bytes q min_seq_length now seq p, video_size p)
  unfolding write_packet serialize
  write_packet-sends now seq p h = elim (Option-cases p.segment) [
    | inl empty ↦ absurd (rw empty at h)
    | inr (seg, there) ↦
        let fits : p.payload_size ≤ max_buf_size = rw there at h in
        let room : ltb max_buf_size p.payload_size ≡ false = ground (arith, fits) in
        simp (write_packet, serialize, video_bytes, video_size, there, room)
  ]

  module _ (fl : Doubles) where
    send_taken-Leaves :
        (now : ℕ) (p : VideoPacketWrapper) (s : PathSender)
        → IsSendable p
        → Ensures (Leaves q min_seq_length now p s) (send_taken q min_seq_length fl now p s)
    unfolding send_taken
    send_taken-Leaves now p s h =
        rw (send_taken, write_packet-sends now s.seq p h)
          (record {
            same_mpsender = refl;
            same_resending = refl;
            same_sending = refl;
            same_received = refl;
            paid = refl;
            numbered = refl;
            next = refl;
            sent =
                traffic-offset_trace q min_seq_length now p s (letter q min_seq_length now s.seq p);
          })

-- The packets that wait, in the order in which they are sent.
abbrev pub queue : PathSender → List VideoPacketWrapper
queue s = s.resending_queue ++ s.sending_queue

-- One turn: the first packet leaves under the next number.
abbrev pub Moves : List VideoPacketWrapper → PathSender → PathSender → Type 0
Moves [] s s' = queue s' ≡ []
Moves (p ∷ rest) s s' =
    (queue s' ≡ rest)
    × (s'.seq ≡ s.seq + 1)
    × (s'.seq_id_map ≡ s.seq_id_map ++ (s.seq, p.packet_id) ∷ [])

-- What the turn puts on the network: nothing but the packet's message.
abbrev pub first_letter :
    QuicData → (min_seq_length : ℕ → ℕ) → (now seq : ℕ) → List VideoPacketWrapper → List Output
first_letter q min_seq_length now seq [] = []
first_letter q min_seq_length now seq (p ∷ ps) = letter q min_seq_length now seq p

pub record Advances (q : QuicData) (min_seq_length : ℕ → ℕ) (now : ℕ) (probe : Bool)
    (s s' : PathSender) (out : List Output) : Type 0 where
  pub holds : IsSender s'
  pub sent : probe ≡ false → traffic out ≡ first_letter q min_seq_length now s.seq (queue s)
  pub moves : Moves (queue s) s s'

-- A packet in front of the two queues of a well-formed sender, taken off its queue, leaves.
module _ (q : QuicData) (min_seq_length : ℕ → ℕ) (now : ℕ) (probe : Bool) (p : VideoPacketWrapper)
    (s t s' : PathSender) (out : List Output) (v : IsSender s) (l : s.seq + 1 < u64_mod) where
  -- `t` is the sender without the packet.
  record IsFront : Type 0 where
    same_mpsender : t.mpsender ≡ s.mpsender
    same_received : t.recv_seq ≡ s.recv_seq
    same_seq : t.seq ≡ s.seq
    same_map : t.seq_id_map ≡ s.seq_id_map
    same_bytes : t.pending_bytes ≡ s.pending_bytes
    resent : All IsSendable t.resending_queue
    queued : All IsSendable t.sending_queue
    small : p.payload_size ≤ max_buf_size
    paid_for :
        bytes_of_all s.resending_queue + bytes_of_all s.sending_queue
        ≡ p.payload_size + (bytes_of_all t.resending_queue + bytes_of_all t.sending_queue)
    front : queue s ≡ p ∷ queue t

  Leaves-Advances :
      IsFront
      → Leaves q min_seq_length now p t s' out
      → Advances q min_seq_length now probe s s' out
  Leaves-Advances f h =
      let next : s'.seq ≡ s.seq + 1 = omega (arith, h.next, f.same_seq, l) in
      let numbers : s'.seq_id_map ≡ OrderedMap.insert s.seq p.packet_id s.seq_id_map =
        h.numbered ∙ rw (f.same_seq, f.same_map) refl in
      record {
        holds = record {
          registered = h.same_mpsender ∙ f.same_mpsender ∙ v.registered;
          resent = rw h.same_resending f.resent;
          queued = rw h.same_sending f.queued;
          counted =
              h.paid
              ∙ rw (h.same_resending, h.same_sending)
                  (omega (arith, v.counted, f.paid_for, f.same_bytes, f.small));
          above =
              rw (h.same_received, f.same_received, numbers)
                (insert-Above s.recv_seq s.seq p.packet_id s.seq_id_map v.received v.above);
          below = rw (numbers, next) (insert-Below s.seq p.packet_id s.seq_id_map v.below);
          received = omega (arith, next, h.same_received, f.same_received, v.received);
        };
        sent = λ off. rw f.front (h.sent ∙ rw f.same_seq refl);
        moves = rw f.front (
          rw (h.same_resending, h.same_sending) refl,
          next,
          numbers ∙ insert_at_end s.seq p.packet_id s.seq_id_map v.below,
        );
      }

List-cases :
    (xs : List VideoPacketWrapper)
    → (xs ≡ []) ⊎ ((p : VideoPacketWrapper) × (ps : List VideoPacketWrapper) × (xs ≡ p ∷ ps))
List-cases [] = inl refl
List-cases (p ∷ ps) = inr (p, ps, refl)

IsSendable-small : (p : VideoPacketWrapper) → IsSendable p → p.payload_size ≤ max_buf_size
IsSendable-small p h = elim (Option-cases p.segment) [
  | inl empty ↦ absurd (rw empty at h)
  | inr (seg, there) ↦ rw there at h
]

module _ (q : QuicData) (min_seq_length : ℕ → ℕ) (fl : Doubles) (probe : Bool) (now : ℕ)
    (s : PathSender) (l : s.seq + 1 < u64_mod) (v : IsSender s) where
  process_resending :
      (p : VideoPacketWrapper) (rs : List VideoPacketWrapper)
      → s.resending_queue ≡ p ∷ rs
      → Ensures
          (Advances q min_seq_length now probe s)
          (process_video_packet q min_seq_length fl true probe now s)
  unfolding process_video_packet send_stream_packet
  process_resending p rs er =
      let t : PathSender = record s { resending_queue = rs } in
      let (h, rest) : IsSendable p × All IsSendable rs = rw er at v.resent in
      let step : process_video_packet q min_seq_length fl true probe now s
          ≡ send_taken q min_seq_length fl now p t =
        simp (process_video_packet, send_stream_packet, er) in
      rw step (
        Ensures-map (Leaves q min_seq_length now p t) (Advances q min_seq_length now probe s)
          (send_taken q min_seq_length fl now p t) (send_taken-Leaves q min_seq_length fl now p t h)
          (λ s' out leaves.
            Leaves-Advances q min_seq_length now probe p s t s' out v l
              (record {
                same_mpsender = refl;
                same_received = refl;
                same_seq = refl;
                same_map = refl;
                same_bytes = refl;
                resent = rest;
                queued = v.queued;
                small = IsSendable-small p h;
                paid_for = rw er (omega arith);
                front = rw er refl;
              })
              leaves))

  process_sending :
      (qs : List VideoPacketWrapper)
      → s.resending_queue ≡ []
      → s.sending_queue ≡ qs
      → Ensures
          (Advances q min_seq_length now probe s)
          (process_video_packet q min_seq_length fl true probe now s)
  unfolding process_video_packet send_stream_packet send_padding_packet
  process_sending [] er eq =
      let step : process_video_packet q min_seq_length fl true probe now s
          ≡ (if probe then some (send_padding_packet q min_seq_length now s) else some (s, [])) =
        simp (process_video_packet, er, eq) in
      let none_waits : queue s ≡ [] = rw (er, eq) refl in
      let none_after : queue (send_padding_packet q min_seq_length now s).0 ≡ [] = none_waits in
      rw step (
        Ensures-if (Advances q min_seq_length now probe s) probe _ _
          (λ on. record {
            holds = send_padding_packet-IsSender q min_seq_length now s l v;
            sent = λ off. cc (on, off);
            moves = rw none_waits none_after;
          })
          (λ off. record {
            holds = v;
            sent = λ off'. rw none_waits refl;
            moves = rw none_waits none_waits;
          }))
  process_sending (p ∷ qs) er eq =
      let t : PathSender = record s { sending_queue = qs } in
      let (h, rest) : IsSendable p × All IsSendable qs = rw eq at v.queued in
      let step : process_video_packet q min_seq_length fl true probe now s
          ≡ send_taken q min_seq_length fl now p t =
        simp (process_video_packet, send_stream_packet, er, eq) in
      rw step (
        Ensures-map (Leaves q min_seq_length now p t) (Advances q min_seq_length now probe s)
          (send_taken q min_seq_length fl now p t) (send_taken-Leaves q min_seq_length fl now p t h)
          (λ s' out leaves.
            Leaves-Advances q min_seq_length now probe p s t s' out v l
              (record {
                same_mpsender = refl;
                same_received = refl;
                same_seq = refl;
                same_map = refl;
                same_bytes = refl;
                resent = v.resent;
                queued = rest;
                small = IsSendable-small p h;
                paid_for = rw eq (omega arith);
                front = rw (er, eq) refl;
              })
              leaves))

  -- When the pacer lets it, the first packet that waits leaves under the next number; and the
  -- sender stays well formed.
  pub process_video_packet-Advances :
      Ensures
        (Advances q min_seq_length now probe s)
        (process_video_packet q min_seq_length fl true probe now s)
  process_video_packet-Advances = elim (List-cases s.resending_queue) [
    | inl er ↦ process_sending s.sending_queue er refl
    | inr (p, rs, er) ↦ process_resending p rs er
  ]
