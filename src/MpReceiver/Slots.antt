-- ===== src/MpReceiver/Slots.antt =====
-- The slots of a frame of ns3/mp-video/model/mpreceiver.cc, and what they hold.
use mp_video_simulation.Prelude.{
  ℕ, zero, suc, ◌+◌, ◌%◌, ◌^◌, ◌≤◌, ◌<◌, ◌≡◌, refl, Option, none, some, List, [], ◌∷◌, replicate,
  set, get_elem?, length, u32_mod, sub32, arith,
}
use mp_video_simulation.Protocol.{wire_size}
use mp_video_simulation.MpReceiver.State.{VideoPacket, VideoFrame}
use mp_video_simulation.MpReceiver.Delivery.{count_packets, release_buf}

-- Bytes that the packets of a frame take in `recv_buf_len_`.
abbrev pub used : List (Option VideoPacket) → ℕ
used [] = 0
used (none ∷ slots) = used slots
used (some p ∷ slots) = wire_size p.seg + used slots

-- A frame under its id, with a slot for each packet and an exact count of those that are there.
pub record IsFrame (key : ℕ) (f : VideoFrame) : Type 0 where
  pub keyed : f.fid ≡ key
  pub slots : length f.packets ≡ f.total
  pub counted : f.recv ≡ count_packets f.packets
  pub small : f.total < 2 ^ 16

pub count_packets-le-length : (xs : List (Option VideoPacket)) → count_packets xs ≤ length xs
unfolding count_packets
count_packets-le-length [] = omega arith
count_packets-le-length (none ∷ xs) = omega (arith, count_packets-le-length xs)
count_packets-le-length (some p ∷ xs) = omega (arith, count_packets-le-length xs)

pub count_packets-set :
    (xs : List (Option VideoPacket)) (i : ℕ) (p : VideoPacket)
    → get_elem? xs i ≡ some none
    → count_packets (set xs i (some p)) ≡ suc (count_packets xs)
unfolding count_packets
count_packets-set [] i p h = cc
count_packets-set (none ∷ xs) zero p h = refl
count_packets-set (some q ∷ xs) zero p h = cc
count_packets-set (none ∷ xs) (suc i) p h = count_packets-set xs i p h
count_packets-set (some q ∷ xs) (suc i) p h = omega (arith, count_packets-set xs i p h)

pub count_packets-lt :
    (xs : List (Option VideoPacket)) (i : ℕ)
    → get_elem? xs i ≡ some none
    → count_packets xs < length xs
unfolding count_packets
count_packets-lt [] i h = cc
count_packets-lt (none ∷ xs) i h = omega (arith, count_packets-le-length xs)
count_packets-lt (some q ∷ xs) zero h = cc
count_packets-lt (some q ∷ xs) (suc i) h = omega (arith, count_packets-lt xs i h)

pub used-set :
    (xs : List (Option VideoPacket)) (i : ℕ) (p : VideoPacket)
    → get_elem? xs i ≡ some none
    → used (set xs i (some p)) ≡ wire_size p.seg + used xs
used-set [] i p h = cc
used-set (none ∷ xs) zero p h = refl
used-set (some q ∷ xs) zero p h = cc
used-set (none ∷ xs) (suc i) p h = used-set xs i p h
used-set (some q ∷ xs) (suc i) p h = omega (arith, used-set xs i p h)

pub empty_slots : (n : ℕ) → (count_packets (replicate n none) ≡ 0) × (used (replicate n none) ≡ 0)
unfolding count_packets
empty_slots zero = (refl, refl)
empty_slots (suc n) = empty_slots n

pub get_elem?_in :
    {A : Type 0} (xs : List A) (i : ℕ) → i < length xs → (a : A) × (get_elem? xs i ≡ some a)
get_elem?_in [] i h = absurd (omega arith)
get_elem?_in (x ∷ xs) zero h = (x, refl)
get_elem?_in (x ∷ xs) (suc i) h = get_elem?_in xs i (omega arith)

-- The account of a frame leaves that of the others.
pub release_buf_lem :
    (xs : List (Option VideoPacket)) (len rest : ℕ)
    → len ≡ (used xs + rest) % u32_mod
    → release_buf xs len ≡ rest % u32_mod
unfolding release_buf
release_buf_lem [] len rest h = omega arith
release_buf_lem (none ∷ xs) len rest h = release_buf_lem xs len rest h
release_buf_lem (some p ∷ xs) len rest h =
    release_buf_lem xs (sub32 len (wire_size p.seg % u32_mod)) rest (omega arith)
