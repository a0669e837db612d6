-- ===== src/V1/FrameBuffer/Completion.antt =====
-- When a frame of ns3/mp-video/model/video_proto.cc is complete.
use mp_video_simulation.Prelude.{
  ℕ, suc, ◌+◌, ◌-◌, ◌%◌, ◌≤◌, ◌<◌, ◌≡◌, ◌↔◌, ◌∙◌, refl, inl, inr, Bool, true, false, ◌||◌, none,
  some, List, [], ◌∷◌, ◌==◌, length, All, u8_mod, arith, Option-cases,
}
use mp_video_simulation.Prelude.OrderedMap
use mp_video_simulation.Prelude.OrderedMap.{
  find, Above, Every, find-insert, insert-Above, Every-insert, Above-find,
}
use mp_video_simulation.V1.Wire.{VideoPacketReceiveWrapper}
use mp_video_simulation.V1.FrameBuffer.{VideoFrameBuffer, new_frame, add_packet, on_new_packet}
use mp_video_simulation.V1.FrameBuffer.Indices.{
  From-insert, present, present-insert, length-insert, length-bound, full-find, find-full, From,
}

-- What the arrivals make of a frame: the count is of the packets that it keeps, their indices are
-- below the total, and it is complete when they are as many.
pub record IsFrame (f : VideoFrameBuffer) : Type 0 where
  pub ordered : From 0 f.packets
  pub indices : Every (λ i p. i < f.total) f.packets
  pub counted : f.received ≡ length f.packets
  pub small : f.total < u8_mod
  pub some_total : 0 < f.total
  pub completed : f.is_completed ≡ (f.received == f.total)

-- The index of a packet that belongs to a frame of `total`.
abbrev pub Fits : ℕ → VideoPacketReceiveWrapper → Type 0
Fits total p = elim p.segment [ none ↦ ⊥ | some seg ↦ seg.index < total ]

new_frame-IsFrame :
    (ftype fid total : ℕ) → 0 < total → total < u8_mod → IsFrame (new_frame ftype fid total)
new_frame-IsFrame ftype fid total h l = record {
  ordered = tt;
  indices = tt;
  counted = refl;
  small = l;
  some_total = h;
  completed = ground arith;
}

add_packet-IsFrame :
    (i : ℕ) (p : VideoPacketReceiveWrapper) (ts : ℕ) (f : VideoFrameBuffer)
    → i < f.total
    → IsFrame f
    → IsFrame (add_packet i p ts f) × ((add_packet i p ts f).total ≡ f.total)
unfolding add_packet
add_packet-IsFrame i p ts f h v = elim (Option-cases (find i f.packets)) [
  | inl new ↦
      let ordered : From 0 (OrderedMap.insert i p f.packets) =
        From-insert i p f.packets v.ordered in
      let indices : Every (λ k q. k < f.total) (OrderedMap.insert i p f.packets) =
        Every-insert (λ k q. k < f.total) i p f.packets h v.indices in
      let longer : length (OrderedMap.insert i p f.packets) ≡ suc (length f.packets) =
        length-insert i p f.packets new in
      let bound : length (OrderedMap.insert i p f.packets) ≤ f.total - 0 =
        length-bound 0 f.total _ ordered indices in
      let count : (f.received + 1) % u8_mod ≡ suc f.received =
        omega (arith, longer, bound, v.counted, v.small) in
      rw (add_packet, new)
        (
          record {
            ordered = ordered;
            indices = indices;
            counted = omega (arith, longer, count, v.counted);
            small = v.small;
            some_total = v.some_total;
            completed = ground (arith, v.completed, longer, bound, v.counted, v.small);
          },
          refl,
        )
  | inr (old, present) ↦ rw (add_packet, present) (v, refl)
]

present-add_packet :
    (k i : ℕ) (p : VideoPacketReceiveWrapper) (ts : ℕ) (f : VideoFrameBuffer)
    → From 0 f.packets
    → present k (add_packet i p ts f).packets ≡ ((i == k) || present k f.packets)
unfolding add_packet
present-add_packet k i p ts f a = elim (Option-cases (find i f.packets)) [
  | inl new ↦ ground (arith, new, present-insert i k p f.packets a new)
  | inr (old, there) ↦ ground (arith, there)
]

-- What the packets that arrive, each with its time, make of a frame.
abbrev pub on_new_packets :
    List (VideoPacketReceiveWrapper × ℕ) → VideoFrameBuffer → VideoFrameBuffer
on_new_packets [] f = f
on_new_packets ((p, ts) ∷ arrivals) f = on_new_packets arrivals (on_new_packet p ts f)

abbrev pub has_index : ℕ → VideoPacketReceiveWrapper → Bool
has_index i p = elim p.segment [ none ↦ false | some seg ↦ seg.index == i ]

-- Whether a packet with the index is among the arrivals.
abbrev pub arrived : ℕ → List (VideoPacketReceiveWrapper × ℕ) → Bool
arrived i [] = false
arrived i ((p, ts) ∷ arrivals) = has_index i p || arrived i arrivals

-- What arrivals do to a frame: it stays well formed, and has the indices that were there or arrived.
record Grows (f f' : VideoFrameBuffer) (news : ℕ → Bool) : Type 0 where
  holds : IsFrame f'
  same_total : f'.total ≡ f.total
  keeps : (k : ℕ) → present k f'.packets ≡ (present k f.packets || news k)

on_new_packet-Grows :
    (p : VideoPacketReceiveWrapper) (ts : ℕ) (f : VideoFrameBuffer)
    → Fits f.total p
    → IsFrame f
    → Grows f (on_new_packet p ts f) (λ k. has_index k p)
unfolding on_new_packet
on_new_packet-Grows p ts f fits v = elim (Option-cases p.segment) [
  | inl empty ↦ absurd (rw empty at fits)
  | inr (seg, there) ↦
      let (w, same) = add_packet-IsFrame seg.index p ts f (rw there at fits) v in
      rw (on_new_packet, there)
        (record {
          holds = w;
          same_total = same;
          keeps = λ k. ground (arith, present-add_packet k seg.index p ts f v.ordered);
        })
]

on_new_packets-Grows :
    (arrivals : List (VideoPacketReceiveWrapper × ℕ)) (f : VideoFrameBuffer)
    → All (λ (p, ts). Fits f.total p) arrivals
    → IsFrame f
    → Grows f (on_new_packets arrivals f) (λ k. arrived k arrivals)
on_new_packets-Grows [] f fits v = record {
  holds = v;
  same_total = refl;
  keeps = λ k. ground arith;
}
on_new_packets-Grows ((p, ts) ∷ arrivals) f fits v =
    let first = on_new_packet-Grows p ts f fits.0 v in
    let rest =
      on_new_packets-Grows arrivals (on_new_packet p ts f) (rw first.same_total fits.1)
        first.holds in
    record {
      holds = rest.holds;
      same_total = rest.same_total ∙ first.same_total;
      keeps = λ k. ground (arith, rest.keeps k, first.keeps k);
    }

-- Packets arrive, in any order and repeated at will, for a frame of `total` packets, of 1 to
-- 255, each with an index below the total. The frame is then complete exactly if every index
-- below the total is among them.
pub on_new_packets_complete_iff :
    (ftype fid total : ℕ) (arrivals : List (VideoPacketReceiveWrapper × ℕ))
    → 0 < total
    → total < u8_mod
    → All (λ (p, ts). Fits total p) arrivals
    → ((on_new_packets arrivals (new_frame ftype fid total)).is_completed ≡ true)
      ↔ ((i : ℕ) → i < total → arrived i arrivals ≡ true)
on_new_packets_complete_iff ftype fid total arrivals h l fits =
    let g =
      on_new_packets-Grows arrivals (new_frame ftype fid total) fits
        (new_frame-IsFrame ftype fid total h l) in
    let f' = on_new_packets arrivals (new_frame ftype fid total) in
    let v = g.holds in
    (
      (λ done i lt. ground (
        arith,
        g.keeps i,
        full-find 0 total f'.packets v.ordered (rw g.same_total at v.indices)
            (ground (arith, v.completed, v.counted, done, g.same_total)) i (omega arith) lt,
      )),
      (λ all.
          let least : total - 0 ≤ length f'.packets =
            find-full 0 total f'.packets v.ordered
              (λ i lo hi. ground (arith, g.keeps i, all i hi)) in
          let most : length f'.packets ≤ f'.total - 0 =
            length-bound 0 f'.total f'.packets v.ordered v.indices in
          ground (arith, v.completed, v.counted, least, most, g.same_total)),
    )
