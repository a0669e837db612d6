-- ===== src/V1/PathSender/Invariant.antt =====
-- The sending end of ns3/mp-video/model/path_sender_v1.cc stays well formed, whatever comes.
use mp_video_simulation.Prelude.{
  u64_mod, ℕ, ◌+◌, ◌<◌, ◌≡◌, ◌∙◌, refl, Bool, true, false, Option, some, List, [], ◌∷◌,
  if◌then◌else◌, arith,
}
use mp_video_simulation.Prelude.Calls.{Ensures, Ensures-map, Ensures-if, Ensures-then}
use mp_video_simulation.Prelude.OrderedMap.{Every}
use mp_video_simulation.V1.Wire.{QuicData, VideoPacketWrapper}
use mp_video_simulation.V1.Doubles.{Doubles}
use mp_video_simulation.V1.PathSender.State.{PathSender, Output}
use mp_video_simulation.V1.PathSender.Queue.{
  on_video_packet, process_video_packet, update_queue_offset,
}
use mp_video_simulation.V1.PathSender.Queue.Accounts.{
  IsSendable, IsSender, on_video_packet-IsSender,
}
use mp_video_simulation.V1.PathSender.Queue.Turns.{Advances, process_video_packet-Advances}
use mp_video_simulation.V1.PathSender.Acks.{
  remove_le, on_ack, update_rtt, detect_loss, learn_rtt, learn_delay, remove_seq_delay_map_le,
  remove_seq_id_map_le, remove_id_delay_map_le, update_aggregete_delay,
}
use mp_video_simulation.V1.PathSender.Acks.Losses.{on_ack-Settles}
use mp_video_simulation.V1.PathSender.Handlers.{
  on_bandwidth_update, record_rate, start_application, stop_application, Message, pong, ack, other,
  on_incoming_message, heart_beat,
}

-- What comes to a sending end: packets from above, beats of the timer, messages, rates of the
-- controller, the start and the stop.
pub data Event : Type 0 where
  video_event : (now packet_id : ℕ) → VideoPacketWrapper → (is_retrans : Bool) → Event
  timer_event : (may_send probe : Bool) → (kbps now : ℕ) → Event
  message_event : (now : ℕ) → Message → Event
  bandwidth_event : (kbps : ℕ) → Event
  start_event stop_event : Event

-- Packets can be sent, and only numbers that were sent are acknowledged.
abbrev pub Sensible : Event → PathSender → Type 0
Sensible (video_event now packet_id p is_retrans) s = IsSendable p
Sensible (timer_event may_send probe kbps now) s = Unit
Sensible (message_event now (pong sent_time)) s = Unit
Sensible (message_event now (ack seq)) s = seq < s.seq
Sensible (message_event now other) s = Unit
Sensible (bandwidth_event kbps) s = Unit
Sensible start_event s = Unit
Sensible stop_event s = Unit

remove_le-Every :
    (b k : ℕ) (m : List (ℕ × ℕ)) → Every (λ j id. j < b) m → Every (λ j id. j < b) (remove_le k m)
unfolding remove_le
remove_le-Every b k [] e = tt
remove_le-Every b k ((j, id) ∷ m) e = ground (arith, remove_le-Every b k m e.1)

-- A call that leaves the queues, the accounts and the numbers as they are.
record IsQuiet (s s' : PathSender) (out : List Output) : Type 0 where
  same_mpsender : s'.mpsender ≡ s.mpsender
  same_resending : s'.resending_queue ≡ s.resending_queue
  same_sending : s'.sending_queue ≡ s.sending_queue
  same_bytes : s'.pending_bytes ≡ s.pending_bytes
  same_map : s'.seq_id_map ≡ s.seq_id_map
  same_received : s'.recv_seq ≡ s.recv_seq
  same_seq : s'.seq ≡ s.seq

IsQuiet-IsSender :
    (s s' : PathSender) (out : List Output) → IsQuiet s s' out → IsSender s → IsSender s'
IsQuiet-IsSender s s' out k v = record {
  registered = k.same_mpsender ∙ v.registered;
  resent = rw k.same_resending v.resent;
  queued = rw k.same_sending v.queued;
  counted = k.same_bytes ∙ v.counted ∙ rw (k.same_resending, k.same_sending) refl;
  above = rw (k.same_received, k.same_map) v.above;
  below = rw (k.same_seq, k.same_map) v.below;
  received = omega (arith, k.same_received, k.same_seq, v.received);
}

record_rate-IsQuiet :
    (kbps now : ℕ) (s : PathSender) → let (s', out) = record_rate kbps now s in IsQuiet s s' out
unfolding record_rate
record_rate-IsQuiet kbps now s = ground arith

update_queue_offset-IsQuiet : (s : PathSender) → IsQuiet s (update_queue_offset s) []
unfolding update_queue_offset
update_queue_offset-IsQuiet s = ground arith

-- What an acknowledgement leaves as it is.
record KeepsQueues (s s' : PathSender) : Type 0 where
  same_mpsender : s'.mpsender ≡ s.mpsender
  same_resending : s'.resending_queue ≡ s.resending_queue
  same_sending : s'.sending_queue ≡ s.sending_queue
  same_bytes : s'.pending_bytes ≡ s.pending_bytes

on_ack-KeepsQueues : (now seq : ℕ) (s : PathSender) → KeepsQueues s (on_ack now seq s).0
unfolding on_ack update_rtt detect_loss learn_rtt learn_delay remove_seq_delay_map_le
    remove_seq_id_map_le remove_id_delay_map_le update_aggregete_delay
on_ack-KeepsQueues now seq s = ground arith

on_ack-IsSender :
    (now seq : ℕ) (s : PathSender)
    → s.seq + 1 < u64_mod
    → seq < s.seq
    → IsSender s
    → IsSender (on_ack now seq s).0
on_ack-IsSender now seq s l h v =
    let k = on_ack-KeepsQueues now seq s in
    let d = on_ack-Settles now seq s v.registered v.above (omega (arith, v.received, l)) in
    record {
      registered = k.same_mpsender ∙ v.registered;
      resent = rw k.same_resending v.resent;
      queued = rw k.same_sending v.queued;
      counted = k.same_bytes ∙ v.counted ∙ rw (k.same_resending, k.same_sending) refl;
      above = d.above;
      below = rw (d.kept, d.same_seq) (remove_le-Every s.seq seq s.seq_id_map v.below);
      received = omega (arith, d.received, d.same_seq, h, v.received);
    }

module _ (q : QuicData) (min_seq_length : ℕ → ℕ) (fl : Doubles) where
  -- The simulator runs an event that is pending, and no other.
  unfoldable pub on_timer :
      (may_send probe : Bool) → (kbps now : ℕ) → PathSender → Option (PathSender × List Output)
  unfolding heart_beat
  on_timer may_send probe kbps now s =
      if s.heart_timer
      then heart_beat q min_seq_length fl may_send probe kbps now (record s { heart_timer = false })
      else some (s, [])

  unfoldable pub handle : Event → PathSender → Option (PathSender × List Output)
  unfolding on_timer on_incoming_message on_bandwidth_update start_application stop_application
      on_video_packet
  handle (video_event now packet_id p is_retrans) s =
      some (on_video_packet now packet_id p is_retrans s, [])
  handle (timer_event may_send probe kbps now) s = on_timer may_send probe kbps now s
  handle (message_event now m) s = some (on_incoming_message now m s)
  handle (bandwidth_event kbps) s = some (on_bandwidth_update fl kbps s)
  handle start_event s = some (start_application s)
  handle stop_event s = some (stop_application s)

  process_video_packet-IsSender :
      (may_send probe : Bool) (now : ℕ) (s : PathSender)
      → s.seq + 1 < u64_mod
      → IsSender s
      → Ensures
          (λ s' out. IsSender s')
          (process_video_packet q min_seq_length fl may_send probe now s)
  unfolding process_video_packet
  process_video_packet-IsSender false probe now s l v = v
  process_video_packet-IsSender true probe now s l v =
      Ensures-map (Advances q min_seq_length now probe s) _
        (process_video_packet q min_seq_length fl true probe now s)
        (process_video_packet-Advances q min_seq_length fl probe now s l v) (λ s' out a. a.holds)

  heart_beat-IsSender :
      (may_send probe : Bool) (kbps now : ℕ) (s : PathSender)
      → s.seq + 1 < u64_mod
      → IsSender s
      → Ensures (λ s' out. IsSender s') (heart_beat q min_seq_length fl may_send probe kbps now s)
  unfolding heart_beat
  heart_beat-IsSender may_send probe kbps now s l v =
      let t = update_queue_offset s in
      let quiet = update_queue_offset-IsQuiet s in
      let w = IsQuiet-IsSender s t [] quiet v in
      Ensures-if (λ s' out. IsSender s') s.heart_timer _ _ (λ pending. v)
        (λ free.
          Ensures-then (λ s' out. IsSender s') (λ s' out. IsSender s')
            (process_video_packet q min_seq_length fl may_send probe now t) _
            (process_video_packet-IsSender may_send probe now t (rw quiet.same_seq l) w)
            (λ s' out v'.
              let k = record_rate-IsQuiet kbps now s' in
              let (s'', out') = record_rate kbps now s' in
              IsQuiet-IsSender s' (record s'' { heart_timer = true }) out'
                (record {
                  same_mpsender = k.same_mpsender;
                  same_resending = k.same_resending;
                  same_sending = k.same_sending;
                  same_bytes = k.same_bytes;
                  same_map = k.same_map;
                  same_received = k.same_received;
                  same_seq = k.same_seq;
                })
                v'))

  -- A record of the same queues, accounts and numbers is as well formed.
  on_timer-IsSender :
      (may_send probe : Bool) (kbps now : ℕ) (s : PathSender)
      → s.seq + 1 < u64_mod
      → IsSender s
      → Ensures (λ s' out. IsSender s') (on_timer may_send probe kbps now s)
  unfolding on_timer
  on_timer-IsSender may_send probe kbps now s l v =
      Ensures-if (λ s' out. IsSender s') s.heart_timer _ _
        (λ pending.
          heart_beat-IsSender may_send probe kbps now (record s { heart_timer = false }) l
            (IsQuiet-IsSender s (record s { heart_timer = false }) [] (ground arith) v))
        (λ free. v)

  -- A sender with its upper layer set, whose packets in the queues can be sent and are counted
  -- in the pending bytes, and whose numbers in flight lie between the last one acknowledged and
  -- the next one, below 2 ^ 64 - 1, is such a sender after any event: a packet that can be
  -- sent, a beat whatever the pacer says, an acknowledgement of a number that was sent or
  -- another message, a new rate, the start or the stop; and the call returns.
  pub handle-IsSender :
      (e : Event) (s : PathSender)
      → s.seq + 1 < u64_mod
      → Sensible e s
      → IsSender s
      → Ensures (λ s' out. IsSender s') (handle e s)
  unfolding handle on_incoming_message on_bandwidth_update start_application stop_application
  handle-IsSender (video_event now packet_id p is_retrans) s l h v =
      on_video_packet-IsSender now packet_id p is_retrans s h v
  handle-IsSender (timer_event may_send probe kbps now) s l h v =
      on_timer-IsSender may_send probe kbps now s l v
  handle-IsSender (message_event now (pong sent_time)) s l h v = v
  handle-IsSender (message_event now (ack seq)) s l h v = on_ack-IsSender now seq s l h v
  handle-IsSender (message_event now other) s l h v = v
  handle-IsSender (bandwidth_event kbps) s l h v =
      IsQuiet-IsSender s (on_bandwidth_update fl kbps s).0 [] (ground arith) v
  handle-IsSender start_event s l h v =
      IsQuiet-IsSender s (start_application s).0 [] (ground arith) v
  handle-IsSender stop_event s l h v = IsQuiet-IsSender s (stop_application s).0 [] (ground arith) v
