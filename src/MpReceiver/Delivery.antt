-- ===== src/MpReceiver/Delivery.antt =====
-- ns3/mp-video/model/mpreceiver.cc: `DeliverFrame`, `PacketConsumed`, `BuffCollection` and the loop
-- of `CheckDeliverFrame`.
use mp_video_simulation.Prelude.{
  ℕ, suc, ◌+◌, ◌%◌, Bool, false, ◌&&◌, ◌||◌, Option, none, some, List, [], ◌∷◌, ◌++◌, ltb, ◌==◌,
  if◌then◌else◌, add32, sub32, u32_mod,
}
use mp_video_simulation.Protocol.{wire_size}
use mp_video_simulation.MpReceiver.State.{
  VideoPacket, VideoFrame, Env, MultipathReceiver, Output, gap, frame_info, forward_up, consume,
  recv_len, get_path_info,
}

-- The bytes of the packets that are there, in the order of their slots, and their sizes.
unfoldable pub assemble : List (Option VideoPacket) → List ℕ
assemble [] = []
assemble (none ∷ slots) = assemble slots
assemble (some p ∷ slots) = p.seg.bytes ++ assemble slots

unfoldable pub data_len : List (Option VideoPacket) → ℕ
data_len [] = 0
data_len (none ∷ slots) = data_len slots
data_len (some p ∷ slots) = p.seg.data_size + data_len slots

-- `recv_buf_len_ -= len + SIM_SEGMENT_HEADER_SIZE` for each of them.
unfoldable pub release_buf : List (Option VideoPacket) → ℕ → ℕ
release_buf [] len = len
release_buf (none ∷ slots) len = release_buf slots len
release_buf (some p ∷ slots) len = release_buf slots (sub32 len (wire_size p.seg % u32_mod))

-- The packets that `BuffCollection` gives back to the pool.
unfoldable pub count_packets : List (Option VideoPacket) → ℕ
count_packets [] = 0
count_packets (none ∷ slots) = count_packets slots
count_packets (some p ∷ slots) = suc (count_packets slots)

unfoldable pub trace_frame : Env → VideoFrame → MultipathReceiver → List Output
unfolding data_len
trace_frame env f s =
    if s.frame_info_cb
    then (frame_info (record {
      fid = f.fid;
      len = data_len f.packets % u32_mod;
      recv = f.recv;
      total = f.total;
      delay = sub32 env.sim_now (add32 f.frame_first_ts f.frame_timestamp);
    })
        ∷ [])
    else []

unfoldable pub deliver_frame :
    Env → VideoFrame → MultipathReceiver → MultipathReceiver × List Output
unfolding trace_frame assemble data_len release_buf
deliver_frame env f s =
    let gaps = if s.gap_cb then gap f.fid (sub32 f.ts f.first_ts) ∷ [] else [] in
    if s.deliver
    then (
      record s {
        recv_buf_len = release_buf f.packets s.recv_buf_len;
        min_fid = if ltb s.min_fid f.fid then f.fid else s.min_fid;
      },
      gaps
          ++ (trace_frame env f s
              ++ (forward_up f.fid (assemble f.packets) (data_len f.packets % u32_mod) f.recv
                    f.total
                  ∷ [])),
    )
    else (s, gaps)

-- `PacketConsumed`: each packet is given up on the path that brought it.
unfoldable pub packet_consumed : Env → List ℕ → List (Option VideoPacket) → List Output
unfolding get_path_info
packet_consumed env paths [] = []
packet_consumed env paths (none ∷ slots) = packet_consumed env paths slots
packet_consumed env paths (some p ∷ slots) =
    elim (get_path_info env p.pid paths) [
      | none ↦ []
      | some path ↦ consume path p.seg.packet_id ∷ []
    ]
    ++ packet_consumed env paths slots

-- max_frame_waitting, in milliseconds.
abbrev pub max_frame_waitting : ℕ
max_frame_waitting = 1000

-- The tests of the loop: the frame is whole, or it is not a key frame and has waited too long.
unfoldable pub is_due : Env → VideoFrame → Bool
is_due env f =
    (f.recv == f.total)
    || (ltb f.recv f.total && elim f.waitting_ts [
      | none ↦ false
      | some _ ↦ ltb max_frame_waitting (sub32 env.now (add32 f.frame_first_ts f.frame_timestamp))
    ])

-- One round of the loop for a frame that is due.
unfoldable pub take_frame : Env → VideoFrame → MultipathReceiver → MultipathReceiver × List Output
unfolding deliver_frame packet_consumed count_packets
take_frame env f s =
    let (s', out) = deliver_frame env f s in
    (
      record s' { last_deliver_ts = env.now; free_segs = s'.free_segs + count_packets f.packets },
      out ++ packet_consumed env s.paths f.packets,
    )

unfoldable pub drain :
    Env → List (ℕ × VideoFrame) → MultipathReceiver → MultipathReceiver × List Output
unfolding take_frame is_due
drain env [] s = (record s { frame_cache = [] }, [])
drain env ((fid, f) ∷ cache) s =
    if is_due env f
    then (let (s', out) = take_frame env f s in
        let (s'', out') = drain env cache s' in (s'', out ++ out'))
    else (record s { frame_cache = (fid, f) ∷ cache }, [])

abbrev pub some_due : Env → List (ℕ × VideoFrame) → Bool
some_due env [] = false
some_due env ((fid, f) ∷ cache) = is_due env f

unfoldable pub check_deliver_frame : Env → MultipathReceiver → MultipathReceiver × List Output
unfolding drain
check_deliver_frame env s =
    let (s', out) = drain env s.frame_cache s in
    (
      s',
      out
          ++ (if some_due env s.frame_cache && s'.recv_len_cb
              then recv_len s'.recv_buf_len ∷ []
              else []),
    )
