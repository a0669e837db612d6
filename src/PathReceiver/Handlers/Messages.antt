-- ===== src/PathReceiver/Handlers/Messages.antt =====
-- What `ProcessingMsg` of ns3/mp-video/model/pathreceiver.cc does with each kind of message.
use mp_video_simulation.Prelude.{
  ℕ, ◌≡◌, ◌∙◌, ◌≢◌, false, Option, none, List, arith, ◌==◌, ltb, sub32, ◌%◌, ◌+◌, u32_mod,
}
use mp_video_simulation.Protocol.{Message, Body}
use mp_video_simulation.PathReceiver.Tables.Prefix.{IsId}
use mp_video_simulation.PathReceiver.State.{PathReceiver, Controller, Output}
use mp_video_simulation.PathReceiver.Handlers.{
  Arrival, whole, on_message, processing_msg, on_connect, on_pong, send_body, report_pad, on_rtt,
  pad_header_len, on_receive_segment,
}
use mp_video_simulation.PathReceiver.Handlers.Ensures.{Ensures, Ensures-if, Ensures-map}
use mp_video_simulation.PathReceiver.Handlers.Quiet.{IsReady}
use mp_video_simulation.PathReceiver.Handlers.Reception.{Handled, on_receive_segment-IsReady}

-- What a body has to meet: an id that `+ 1` does not wrap, and no padding before a controller.
abbrev pub IsFit : PathReceiver → Body → Type 0
IsFit s (Body.seg seg) = IsId seg.packet_id
IsFit s (Body.pad send_ts transport_seq data_size) = s.controller ≢ Controller.absent
IsFit s _ = Unit

abbrev Ready : PathReceiver → List Output → Type 0
Ready s out = IsReady s

-- A call that leaves what `IsReady` speaks of.
pub record IsSame (s s' : PathReceiver) (out : List Output) : Type 0 where
  pub same_tables : s'.tables ≡ s.tables
  pub same_uid : s'.receiver_uid ≡ s.receiver_uid
  pub same_first : s'.first_packet ≡ s.first_packet
  pub same_controller : s'.controller ≡ s.controller

pub IsSame-IsReady :
    (s s' : PathReceiver) (out : List Output) → IsReady s → IsSame s s' out → IsReady s'
IsSame-IsReady s s' out v e = record {
  partitioned = rw e.same_tables v.partitioned;
  uid = v.uid;
  registered = e.same_uid ∙ v.registered;
  started = rw (e.same_first, e.same_controller) v.started;
}

module _ (s : PathReceiver) (v : IsReady s) where
  IsSame-Ready : (r : Option (PathReceiver × List Output)) → Ensures (IsSame s) r → Ensures Ready r
  IsSame-Ready r h = Ensures-map (IsSame s) Ready r h λ s' out e. IsSame-IsReady s s' out v e

  on_connect-IsSame : (addr ver cid : ℕ) → Ensures (IsSame s) (on_connect addr ver cid s)
  unfolding on_connect
  on_connect-IsSame addr ver cid = ground (arith, v.registered)

  send_body-IsSame : (b : Body) → Ensures (IsSame s) (send_body b s)
  unfolding send_body
  send_body-IsSame b = ground (arith, v.registered)

  on_pong-IsSame : (now ts : ℕ) → Ensures (IsSame s) (on_pong now ts s)
  unfolding on_rtt on_pong
  on_pong-IsSame now ts =
      Ensures-if (IsSame s) (ltb 0 (sub32 now (ts % u32_mod))) _ _ (λ _. ground arith)
        (λ _. ground arith)

  report_pad-IsSame :
      (now overhead uid seq : ℕ)
      → s.controller ≢ Controller.absent
      → Ensures (IsSame s) (report_pad now overhead uid seq s)
  unfolding report_pad
  report_pad-IsSame now overhead uid seq c = ground arith

  on_message-IsReady :
      (a : Arrival) (ver uid : ℕ) (b : Body) → IsFit s b → Ensures Ready (on_message a ver uid b s)
  unfolding on_message
  on_message-IsReady a ver uid (Body.connect cid) f =
      IsSame-Ready _ (on_connect-IsSame a.addr ver cid)
  on_message-IsReady a ver uid (Body.seg seg) f =
      Ensures-if Ready (s.pid == ver) _ _
        (λ _.
          Ensures-map (Handled seg s) Ready (on_receive_segment uid seg a.now a.lost s)
            (on_receive_segment-IsReady uid seg a.now a.lost s v f) λ s' out h. h.0)
        (λ _. v)
  on_message-IsReady a ver uid (Body.pad send_ts transport_seq data_size) f =
      Ensures-if Ready (s.pid == ver) _ _
        (λ _.
          IsSame-Ready _
            (report_pad-IsSame a.rtc_now (data_size + pad_header_len) uid transport_seq f))
        (λ _. v)
  on_message-IsReady a ver uid (Body.ping ts) f = IsSame-Ready _ (send_body-IsSame (Body.pong ts))
  on_message-IsReady a ver uid (Body.pong ts) f = IsSame-Ready _ (on_pong-IsSame a.now ts)
  on_message-IsReady a ver uid _ f = v

-- Any message leaves a path that is set up ready: the call returns and the loss table stays
-- exact, as long as a segment has an id that + 1 does not wrap and padding finds a controller.
pub processing_msg-IsReady :
    (m : Message) (a : Arrival) (s : PathReceiver)
    → IsReady s
    → IsFit s m.body
    → Ensures (λ s' out. IsReady s') (processing_msg (whole m) a s)
unfolding processing_msg
processing_msg-IsReady m a s v f =
    Ensures-if Ready s.stop _ _ (λ _. v) (λ _. on_message-IsReady s v a m.ver m.uid m.body f)

-- Padding for a running path whose controller is not set up yet dereferences the null
-- controller.
pub pad_before_controller :
    (a : Arrival) (uid send_ts transport_seq data_size : ℕ) (s : PathReceiver)
    → s.stop ≡ false
    → s.controller ≡ Controller.absent
    → processing_msg
        (whole (record { ver = s.pid; uid = uid; body = Body.pad send_ts transport_seq data_size }))
        a
        s
      ≡ none
unfolding processing_msg on_message report_pad
pad_before_controller a uid send_ts transport_seq data_size s run c = ground arith
