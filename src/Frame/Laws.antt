-- ===== src/Frame/Laws.antt =====
-- Laws of the split of a frame.
use mp_video_simulation.Prelude.{
  ℕ, zero, suc, ◌+◌, ◌*◌, ◌/◌, ◌%◌, ◌<◌, ◌≤◌, ◌≡◌, true, false, List, [], ◌∷◌, ◌++◌, replicate,
  length, length-append, length-replicate, sum, sum-append, All, All-append, arith, inl, inr,
  Bool-cases, leb, ltb, leb→le, if◌then◌else◌,
}
use mp_video_simulation.Frame.{frame_split, sim_video_size, max_split_number}

sum-replicate : (n a : ℕ) → sum (replicate n a) ≡ n * a
sum-replicate zero a = omega arith
sum-replicate (suc n) a = omega (arith, sum-replicate n a)

abbrev pub Fits : ℕ → Type 0
Fits n = (0 < n) × (n ≤ sim_video_size)

All-replicate : (n : ℕ) → All Fits (replicate n sim_video_size)
All-replicate zero = tt
All-replicate (suc n) = (omega arith, All-replicate n)

-- The split of a frame above one segment, without the wrap.
abbrev pieces : ℕ → ℕ → List ℕ
pieces n r = if ltb 0 r then replicate n sim_video_size ++ r ∷ [] else replicate n sim_video_size

pieces_total :
    (n r : ℕ)
    → r < 1000
    → (sum (pieces n r) ≡ n * 1000 + r)
      × All Fits (pieces n r)
      × (length (pieces n r) ≡ n + (r + 999) / 1000)
pieces_total n r h = elim (Bool-cases (ltb 0 r)) [
  | inl e ↦ rw e (
    omega (arith, sum-append (replicate n 1000) (r ∷ []), sum-replicate n 1000),
    All-append Fits (replicate n 1000) (r ∷ []) (All-replicate n) (ground arith),
    ground (
      arith,
      length-append (replicate n sim_video_size) (r ∷ []),
      length-replicate n sim_video_size,
    ),
  )
  | inr e ↦ rw e (
    ground (arith, sum-replicate n 1000),
    All-replicate n,
    ground (arith, length-replicate n sim_video_size),
  )
]

frame_split-eq-pieces :
    (size : ℕ)
    → sim_video_size < size
    → size / sim_video_size < max_split_number
    → frame_split size ≡ pieces (size / 1000) (size % 1000)
unfolding frame_split
frame_split-eq-pieces size big h =
    let whole : size / 1000 % 65536 ≡ size / 1000 = omega arith in
    let rest : size % 1000 % 65536 ≡ size % 1000 = omega arith in
    let over : leb size sim_video_size ≡ false = ground arith in rw (over, whole, rest)

frame_split_small : (size : ℕ) → leb size sim_video_size ≡ true → frame_split size ≡ size ∷ []
unfolding frame_split
frame_split_small size small =
    let low : size ≤ 1000 = leb→le _ _ small in
    let e : size % 65536 ≡ size = omega arith in rw (small, e)

-- A frame that is not empty and whose size passes the assertion of the callers (size / 1000
-- below 1024) is cut into segments that hold all of it; none is empty or above 1000 bytes,
-- there are ⌈size / 1000⌉ of them, and they fit the array of 1024 entries.
pub frame_split_total :
    (size : ℕ)
    → 0 < size
    → size / sim_video_size < max_split_number
    → (sum (frame_split size) ≡ size)
      × All Fits (frame_split size)
      × (length (frame_split size) ≡ (size + 999) / 1000)
      × (length (frame_split size) ≤ max_split_number)
frame_split_total size pos h = elim (Bool-cases (leb size sim_video_size)) [
  | inl small ↦
      let one : frame_split size ≡ size ∷ [] = frame_split_small size small in
      rw one (omega (arith, leb→le _ _ small))
  | inr big ↦
      let (total, fits, count) = pieces_total (size / 1000) (size % 1000) (omega arith) in
      let several = frame_split-eq-pieces size (ground arith) h in
      rw several (omega arith, fits, omega arith, omega arith)
]
