-- ===== src/PathReceiver/Handlers/Runs.antt =====
-- The receiving end of ns3/mp-video/model/pathreceiver.cc over a run of events.
use mp_video_simulation.Prelude.{ℕ, ◌≤◌, true, false, Option, some, List, [], if◌then◌else◌, arith}
use mp_video_simulation.Prelude.Runs.{run, AreAllowed, run-Keeps}
use mp_video_simulation.Common.{path_conned}
use mp_video_simulation.PathReceiver.Tables.Partition.{consume-IsPartitioned}
use mp_video_simulation.PathReceiver.State.{PathReceiver, Output}
use mp_video_simulation.PathReceiver.Handlers.{
  Arrival, Decoded, undecoded, cut_connect, whole, processing_msg, consume_packet, send_body,
  stamp_ping, send_ping_msg, set_ping_timer, check_ping, stop_path,
}
use mp_video_simulation.PathReceiver.Handlers.Ensures.{Ensures, Ensures-if, Ensures-map}
use mp_video_simulation.PathReceiver.Handlers.Quiet.{IsReady}
use mp_video_simulation.PathReceiver.Handlers.Messages.{
  IsFit, IsSame, IsSame-IsReady, processing_msg-IsReady,
}

-- What comes to a receiving end: messages, whole or not, packets that
-- the assembly of frames gives up, beats of the ping timer, and the stop.
pub data Event : Type 0 where
  message_event : Decoded → Arrival → Event
  consume_event : (packet_id : ℕ) → Event
  timer_event : (now : ℕ) → Event
  stop_event : Event

-- The simulator runs an event that is pending, and no other.
unfoldable pub on_timer : (now : ℕ) → PathReceiver → Option (PathReceiver × List Output)
unfolding check_ping
on_timer now s =
    if s.ping_timer then check_ping now (record s { ping_timer = false }) else some (s, [])

unfoldable pub handle : Event → PathReceiver → Option (PathReceiver × List Output)
unfolding processing_msg consume_packet on_timer stop_path
handle (message_event m a) s = processing_msg m a s
handle (consume_event packet_id) s = consume_packet packet_id s
handle (timer_event now) s = on_timer now s
handle stop_event s = stop_path s

-- The ids are words that `+ 1` does not wrap, padding finds a controller, and only a packet up to
-- the newest is given up.
abbrev pub IsSensible : Event → PathReceiver → Type 0
IsSensible (message_event undecoded a) s = Unit
IsSensible (message_event cut_connect a) s = Unit
IsSensible (message_event (whole m) a) s = IsFit s m.body
IsSensible (consume_event packet_id) s = packet_id ≤ s.tables.max_seq
IsSensible (timer_event now) s = Unit
IsSensible stop_event s = Unit

check_ping-IsSame : (now : ℕ) (s : PathReceiver) → IsReady s → Ensures (IsSame s) (check_ping now s)
unfolding check_ping send_ping_msg send_body stamp_ping set_ping_timer
check_ping-IsSame now s v = ground (arith, v.registered)

on_timer-IsReady :
    (now : ℕ) (s : PathReceiver) → IsReady s → Ensures (λ s' out. IsReady s') (on_timer now s)
unfolding on_timer
on_timer-IsReady now s v =
    let fired = record s { ping_timer = false } in
    let w : IsReady fired = IsSame-IsReady s fired [] v (ground arith) in
    Ensures-if (λ s' out. IsReady s') s.ping_timer _ _
      (λ pending.
        Ensures-map (IsSame fired) _ (check_ping now fired) (check_ping-IsSame now fired w)
          (λ s' out e. IsSame-IsReady fired s' out w e))
      (λ free. v)

handle-IsReady :
    (e : Event) (s : PathReceiver)
    → IsReady s
    → IsSensible e s
    → Ensures (λ s' out. IsReady s') (handle e s)
unfolding handle processing_msg consume_packet stop_path
handle-IsReady (message_event undecoded a) s v h = v
handle-IsReady (message_event cut_connect a) s v h =
    Ensures-if (λ s' out. IsReady s') s.stop _ _ (λ _. v)
      (λ _. IsSame-IsReady s (record s { state = path_conned; peer = a.addr }) [] v (ground arith))
handle-IsReady (message_event (whole m) a) s v h = processing_msg-IsReady m a s v h
handle-IsReady (consume_event packet_id) s v h = record {
  partitioned = consume-IsPartitioned packet_id s.tables h v.partitioned;
  uid = v.uid;
  registered = v.registered;
  started = v.started;
}
handle-IsReady (timer_event now) s v h = on_timer-IsReady now s v
handle-IsReady stop_event s v h = IsSame-IsReady s (record s { stop = true }) [] v (ground arith)

-- A path that is set up is so after any sequence of messages, packets that are given up, beats
-- of its timer and stops, and every call returns: the loss table holds exactly the packets up
-- to the newest that have not come in. The ids of segments do not wrap by + 1, padding finds a
-- controller, and only packets up to the newest are given up.
pub handle_all-IsReady :
    (es : List Event) (s : PathReceiver)
    → IsReady s
    → AreAllowed handle IsSensible es s
    → Ensures (λ s' out. IsReady s') (run handle es s)
handle_all-IsReady = run-Keeps handle IsSensible IsReady handle-IsReady
