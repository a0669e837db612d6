-- ===== src/V1/Samples.antt =====
-- Concrete bytes, segments and numbers for the examples of the second line.
use mp_video_simulation.Prelude.{
  ℕ, ◌+◌, ◌*◌, ◌/◌, ◌%◌, ◌≡◌, ◌<◌, refl, ap, Option, none, some, List, [], ◌∷◌, ◌++◌, length,
  replicate, arith,
}
use mp_video_simulation.V1.Wire.{
  Width, one, two, four, QuicData, bytes_of, range_of, VideoSegment, VideoPacketWrapper, new_packet,
  on_new_segment, zero_segment,
}
use mp_video_simulation.V1.Wire.RoundTrip.{IsSegment}
use mp_video_simulation.V1.Doubles.{Doubles}

-- Numbers in network byte order.
abbrev pub put_number : Width → ℕ → List ℕ
put_number one v = v ∷ []
put_number two v = v / 256 ∷ v % 256 ∷ []
put_number four v = v / 16777216 ∷ v / 65536 % 256 ∷ v / 256 % 256 ∷ v % 256 ∷ []

abbrev pub get_number : Width → List ℕ → Option (ℕ × List ℕ)
get_number one (a ∷ rest) = some (a, rest)
get_number two (a ∷ b ∷ rest) = some (a * 256 + b, rest)
get_number four (a ∷ b ∷ c ∷ d ∷ rest) = some (((a * 256 + b) * 256 + c) * 256 + d, rest)
get_number w bytes = none

pub length-put_number : (w : Width) (v : ℕ) → length (put_number w v) ≡ bytes_of w
length-put_number one v = refl
length-put_number two v = refl
length-put_number four v = refl

pub get_number-put_number :
    (w : Width) (v : ℕ) (rest : List ℕ)
    → v < range_of w
    → get_number w (put_number w v ++ rest) ≡ some (v, rest)
get_number-put_number one v rest h = refl
get_number-put_number two v rest h = ap (λ n. some (n, rest)) (omega arith)
get_number-put_number four v rest h = ap (λ n. some (n, rest)) (omega arith)

pub get_number_short :
    (w : Width) (bytes : List ℕ) → length bytes < bytes_of w → get_number w bytes ≡ none
get_number_short one [] h = refl
get_number_short two [] h = refl
get_number_short two (a ∷ []) h = refl
get_number_short four [] h = refl
get_number_short four (a ∷ []) h = refl
get_number_short four (a ∷ b ∷ []) h = refl
get_number_short four (a ∷ b ∷ c ∷ []) h = refl
get_number_short one (a ∷ rest) h = absurd (omega arith)
get_number_short two (a ∷ b ∷ rest) h = absurd (omega arith)
get_number_short four (a ∷ b ∷ c ∷ d ∷ rest) h = absurd (omega arith)

abbrev pub quic : QuicData
quic = record {
  write = put_number;
  read = get_number;
  length-write = length-put_number;
  read-write = get_number-put_number;
  read_short = get_number_short;
}

-- The second of two segments of a frame, with three bytes.
abbrev pub segment : VideoSegment
segment = record zero_segment {
  fid = 7;
  timestamp = 40;
  index = 1;
  total = 2;
  ftype = 1;
  data_size = 3;
  payload = 10 ∷ 20 ∷ 30 ∷ replicate 997 0;
}

pub segment-IsSegment : IsSegment segment
segment-IsSegment = record {
  fid_word = omega arith;
  timestamp_word = omega arith;
  index_byte = omega arith;
  total_byte = omega arith;
  ftype_byte = omega arith;
  send_ts_half = omega arith;
  fits = omega arith;
  array = refl;
}

unfoldable pub packet : VideoPacketWrapper
unfolding on_new_segment
packet = on_new_segment segment 50 (new_packet 9 5)

-- Numbers as floats.
abbrev pub whole : Doubles
whole = record {
  Float = ℕ;
  float = λ n. n;
  plus = λ a b. a + b;
  times = λ a b. a * b;
  divide = λ a b. a / b;
  truncate = λ a. a;
  four_fifths = λ n. n * 4 / 5;
}
