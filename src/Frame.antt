-- ===== src/Frame.antt =====
-- ns3/mp-video/model/mpcommon.cc: `FrameSplit`, which cuts a frame into the sizes of its segments.
pub mod Laws
mod Examples
use mp_video_simulation.Prelude.{
  ℕ, suc, ◌+◌, ◌/◌, ◌%◌, List, [], ◌∷◌, ◌++◌, replicate, leb, ltb, if◌then◌else◌, u16_mod,
}

abbrev pub sim_video_size : ℕ
sim_video_size = 1000

abbrev pub max_split_number : ℕ
max_split_number = 1024

-- The entries that the call writes into `splits`; its result is their number. `ret`, `remain_size`
-- and the entries are uint16_t.
unfoldable pub frame_split : ℕ → List ℕ
frame_split size =
    if leb size sim_video_size
    then size % u16_mod ∷ []
    else (let whole = replicate (size / sim_video_size % u16_mod) sim_video_size in
        let remain_size = size % sim_video_size % u16_mod in
        if ltb 0 remain_size then whole ++ remain_size ∷ [] else whole)
