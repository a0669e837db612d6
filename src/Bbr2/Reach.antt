-- ===== src/Bbr2/Reach.antt =====
-- The modes of ns3/mp-video/model/congestion/bbr_sender_v2.cc, and where they lead.
use mp_video_simulation.Prelude.{◌≡◌, ◌⊎◌, refl, inl, inr, subst, true, not}
use mp_video_simulation.Bbr2.State.{Mode, st_start, st_drain, st_increase, st_decrease}
use mp_video_simulation.Bbr2.Modes.{is_start, is_drain, is_increase, is_decrease}

-- Where a controller gets from a mode: never back to START, and to DRAIN only from START.
abbrev pub Reaches : Mode → Mode → Type 0
Reaches m st_start = m ≡ st_start
Reaches m st_drain = (m ≡ st_start) ⊎ (m ≡ st_drain)
Reaches m _ = Unit

pub Reaches-same : (m : Mode) → Reaches m m
Reaches-same st_start = refl
Reaches-same st_drain = inr refl
Reaches-same st_increase = tt
Reaches-same st_decrease = tt

pub is_start_lem : (m : Mode) → is_start m ≡ true → m ≡ st_start
is_start_lem st_start e = refl
is_start_lem st_drain e = absurd (cc e)
is_start_lem st_increase e = absurd (cc e)
is_start_lem st_decrease e = absurd (cc e)

pub is_drain_lem : (m : Mode) → is_drain m ≡ true → m ≡ st_drain
is_drain_lem st_drain e = refl
is_drain_lem st_start e = absurd (cc e)
is_drain_lem st_increase e = absurd (cc e)
is_drain_lem st_decrease e = absurd (cc e)

pub is_increase_lem : (m : Mode) → is_increase m ≡ true → m ≡ st_increase
is_increase_lem st_increase e = refl
is_increase_lem st_start e = absurd (cc e)
is_increase_lem st_drain e = absurd (cc e)
is_increase_lem st_decrease e = absurd (cc e)

pub not_decrease : (m : Mode) → not (is_decrease m) ≡ true → m ≡ st_decrease → ⊥
not_decrease st_decrease e h = cc e
not_decrease st_start e h = cc h
not_decrease st_drain e h = cc h
not_decrease st_increase e h = cc h

pub Reaches-trans : (k m n : Mode) → Reaches k m → Reaches m n → Reaches k n
Reaches-trans k m st_start r q = subst (Reaches k) q r
Reaches-trans k m st_drain r (inl started) = inl (subst (Reaches k) started r)
Reaches-trans k m st_drain r (inr drained) = subst (Reaches k) drained r
Reaches-trans k m st_increase r q = tt
Reaches-trans k m st_decrease r q = tt
