-- ===== src/V1/Doubles.antt =====
-- The floating point of ns3/mp-video/model/path_sender_v1.cc: a parameter, with the operations that
-- the code uses. `float` and `double` convert an integer, `truncate` casts back to one.
use mp_video_simulation.Prelude.{ℕ}

pub record Doubles : Type 1 where
  pub Float : Type 0
  pub float : ℕ → Float
  pub plus : Float → Float → Float
  pub times : Float → Float → Float
  pub divide : Float → Float → Float
  pub truncate : Float → ℕ
  -- 0.8 of the integer as a double, cast back.
  pub four_fifths : ℕ → ℕ
