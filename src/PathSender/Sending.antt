-- ===== src/PathSender/Sending.antt =====
-- What `put`, `Stop` and the padding of ns3/mp-video/model/pathsender.cc promise.
use mp_video_simulation.Prelude.{
  ℕ, zero, suc, ◌+◌, ◌-◌, ◌*◌, ◌%◌, ◌≡◌, ◌≢◌, ◌≤◌, ◌<◌, true, false, some, [], ◌∷◌, ◌++◌, u32_mod,
  u16_mod, arith, All, sum, length,
}
use mp_video_simulation.Prelude.Calls.{Ensures, Ensures-map}
use mp_video_simulation.Prelude.OrderedMap.{sum_values}
use mp_video_simulation.Common.{Controller, no_webrtc}
use mp_video_simulation.Protocol.{Segment, wire_size, pad_header_len}
use mp_video_simulation.PathSender.State.{PathSender, Session}
use mp_video_simulation.PathSender.Buffer.{enqueue, number_segment, free_pending_buf}
use mp_video_simulation.PathSender.Pacing.{put, pad_sizes}
use mp_video_simulation.PathSender.Handlers.{stop_path}
use mp_video_simulation.PathSender.Queue.{
  segments, IsAccounted, IsQueue, enqueue-last, enqueue-IsQueue, free_len_lem,
}

-- A path that its session may use: the controller is set up, and the pacer where the mode asks
-- for one.
pub record IsUsable (s : PathSender) : Type 0 where
  pub session : Session
  pub registered : s.mpsender ≡ some session
  pub equipped : s.controller ≢ Controller.absent
  pub paced : s.pace_mode ≢ no_webrtc → s.send_bucket ≡ true

-- The buffer and its accounts are those of another state.
record IsBuffered (t s : PathSender) : Type 0 where
  same_buf : s.buf ≡ t.buf
  same_len : s.len ≡ t.len
  same_pending : s.pending_len ≡ t.pending_len
  same_seq : s.trans_seq ≡ t.trans_seq

put_lem :
    (seg : Segment) (now rtc_now : ℕ) (s : PathSender)
    → IsUsable s
    → s.stop ≡ false
    → Ensures (λ s' out. IsBuffered (enqueue seg s) s') (put seg now rtc_now s)
unfolding put enqueue
put_lem seg now rtc_now s v run = ground (arith, v.registered, v.equipped, v.paced, run)

-- A segment that is put at a running path with its session, controller and pacer set joins the
-- end of the queue with the next numbers: the call returns, nothing else of the queue changes,
-- and the byte counts stay exact, until the 16-bit transport number wraps.
pub put-IsQueue :
    (seg : Segment) (now rtc_now : ℕ) (s : PathSender)
    → IsUsable s
    → s.stop ≡ false
    → IsQueue s
    → s.trans_seq + 1 < u16_mod
    → Ensures
        (λ s' out. IsQueue s' × (segments s'.buf ≡ segments s.buf ++ number_segment seg s ∷ []))
        (put seg now rtc_now s)
put-IsQueue seg now rtc_now s v run q h =
    let (w, next) = enqueue-IsQueue seg s q h in
    let (last, below) = enqueue-last seg s q.below h in
    Ensures-map (λ s' out. IsBuffered (enqueue seg s) s') _ (put seg now rtc_now s)
      (put_lem seg now rtc_now s v run)
      λ s' out b. (
        record {
          accounted = record {
            len_eq = rw (b.same_len, b.same_buf) w.accounted.len_eq;
            pending_eq = rw (b.same_pending, b.same_buf) w.accounted.pending_eq;
          };
          below = rw (b.same_seq, b.same_buf) w.below;
        },
        rw b.same_buf last,
      )

-- The padding of a burst: each payload has 100 to 500 bytes, they are at most the burst, and
-- with the headers that they count for they leave less than 100 bytes of it, whatever the fuel
-- above it.
pub pad_sizes_lem :
    (fuel remain : ℕ)
    → remain ≤ fuel
    → let sizes = pad_sizes fuel remain in
      All (λ n. (100 ≤ n) × (n ≤ 500)) sizes
      × (sum sizes ≤ remain)
      × (remain < sum sizes + pad_header_len * length sizes + 100)
unfolding pad_sizes
pad_sizes_lem zero remain h = ground arith
pad_sizes_lem (suc fuel) remain h =
    let rest = pad_sizes_lem fuel (remain - (pad_header_len + 500)) (omega arith) in
    ground (arith, rest)

-- After a stop nothing waits and the length is 0, but the pending length, by which the
-- schedulers judge the path, still counts the bytes of the segments that were freed.
pub stop_path-pending_len :
    (s : PathSender)
    → IsAccounted s
    → s.stop ≡ false
    → s.controller ≢ Controller.absent
    → Ensures
        (λ s' out.
          (s'.buf ≡ []) × (s'.len ≡ 0) × (s'.pending_len ≡ sum_values wire_size s.buf % u32_mod))
        (stop_path s)
unfolding stop_path free_pending_buf
stop_path-pending_len s v run c =
    ground (arith, free_len_lem s.buf s.len v.len_eq, v.pending_eq, run, c)
