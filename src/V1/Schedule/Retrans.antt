-- ===== src/V1/Schedule/Retrans.antt =====
-- Where ns3/mp-video/model/interface_v1.cc sends a lost packet again.
use mp_video_simulation.Prelude.{
  ℕ, ◌-◌, ◌≤◌, ◌<◌, ◌≡◌, ◌≢◌, ◌⊎◌, refl, subst, inl, inr, true, false, Option, none, some, List, [],
  ◌∷◌, ltb, ◌==◌, length, All, u32_mod, arith, Bool-cases, Returns, ==_iff,
}
use mp_video_simulation.Prelude.OrderedSet.{contains}
use mp_video_simulation.V1.Schedule.{least_rtt, retrans_packets}

Returns-map : (P Q : ℕ → Type 0) (o : Option ℕ) → Returns P o → ((b : ℕ) → P b → Q b) → Returns Q o
Returns-map P Q none h f = absurd h
Returns-map P Q (some b) h f = f b h

All-contains : (P : ℕ → Type 0) (xs : List ℕ) (x : ℕ) → All P xs → contains xs x ≡ true → P x
All-contains P [] x a h = absurd cc
All-contains P (y ∷ xs) x a h = elim (Bool-cases (y == x)) [
  | inl hit ↦ subst P ((==_iff y x).0 hit) a.0
  | inr miss ↦ All-contains P xs x a.1 (ground arith)
]

module _ (get_rtt : ℕ → Option ℕ) (rtt : ℕ → ℕ) (origin : ℕ) where
  -- The paths that the sender has, with their round trips.
  abbrev pub Known : List ℕ → Type 0
  Known pids = All (λ p. get_rtt p ≡ some (rtt p)) pids

  -- The choice `b` of the loop, with its round trip `v`: the one that it started with, or one of the list.
  record Least (pids : List ℕ) (min_rtt min_pid b : ℕ) : Type 0 where
    v : ℕ
    found :
        ((b ≡ min_pid) × (v ≡ min_rtt)) ⊎ ((contains pids b ≡ true) × (b ≢ origin) × (v ≡ rtt b))
    bound : v ≤ min_rtt
    least : All (λ p. p ≢ origin → v ≤ rtt p) pids

  -- A path that does not change the choice.
  Least-skip :
      (p min_rtt min_pid : ℕ) (pids : List ℕ) (b : ℕ)
      → (p ≢ origin → min_rtt ≤ rtt p)
      → Least pids min_rtt min_pid b
      → Least (p ∷ pids) min_rtt min_pid b
  Least-skip p min_rtt min_pid pids b worse h = record {
    v = h.v;
    found = elim h.found [
      | inl start ↦ inl start
      | inr (known, other, same) ↦ inr (ground (arith, known), other, same)
    ];
    bound = h.bound;
    least = (λ ne. omega (arith, h.bound, worse ne), h.least);
  }

  -- A path that is better than those before it.
  Least-take :
      (p min_rtt min_pid : ℕ) (pids : List ℕ) (b : ℕ)
      → p ≢ origin
      → rtt p < min_rtt
      → Least pids (rtt p) p b
      → Least (p ∷ pids) min_rtt min_pid b
  Least-take p min_rtt min_pid pids b ne lt h = record {
    v = h.v;
    found = elim h.found [
      | inl (here, same) ↦ inr (rw here (ground arith), rw here ne, rw here same)
      | inr (known, other, same) ↦ inr (ground (arith, known), other, same)
    ];
    bound = omega (arith, h.bound, lt);
    least = (λ other. h.bound, h.least);
  }

  least_rtt-Least :
      (pids : List ℕ) (min_rtt min_pid : ℕ)
      → Known pids
      → Returns (Least pids min_rtt min_pid) (least_rtt get_rtt origin pids min_rtt min_pid)
  unfolding least_rtt
  least_rtt-Least [] min_rtt min_pid k = record {
    v = min_rtt;
    found = inl (refl, refl);
    bound = omega arith;
    least = tt;
  }
  least_rtt-Least (p ∷ pids) min_rtt min_pid k =
      let passed = least_rtt-Least pids min_rtt min_pid k.1 in
      let skip : (p ≢ origin → min_rtt ≤ rtt p)
          → Returns (Least (p ∷ pids) min_rtt min_pid)
              (least_rtt get_rtt origin pids min_rtt min_pid) =
        λ worse. Returns-map _ _ _ passed (λ b. Least-skip p min_rtt min_pid pids b worse) in
      elim (Bool-cases (p == origin)) [
        | inl at_origin ↦ rw at_origin (skip (λ ne. absurd (ne ((==_iff p origin).0 at_origin))))
        | inr away ↦
            let ne : p ≢ origin = λ e. ground arith in
            elim (Bool-cases (ltb (rtt p) min_rtt)) [
              | inl lt ↦
                  rw (away, k.0, lt)
                    (Returns-map _ _ _ (least_rtt-Least pids (rtt p) p k.1)
                      (λ b. Least-take p min_rtt min_pid pids b ne (ground arith)))
              | inr ge ↦ rw (away, k.0, ge) (skip (λ other. ground arith))
            ]
      ]

  -- There are other numbers of paths than one, the sender has all of them, and one of them is
  -- not the origin and has a round trip below 2 ^ 32 - 1. A lost packet is then sent again on a
  -- path of the list that is not the origin, and no other such path has a shorter round trip.
  pub retrans_packets-Least :
      (pids : List ℕ) (other : ℕ)
      → length pids ≢ 1
      → Known pids
      → contains pids other ≡ true
      → other ≢ origin
      → rtt other < u32_mod - 1
      → Returns
          (λ b.
            (contains pids b ≡ true) × (b ≢ origin) × All (λ p. p ≢ origin → rtt b ≤ rtt p) pids)
          (retrans_packets get_rtt origin pids)
  unfolding retrans_packets
  retrans_packets-Least pids other several k here ne fast =
      let many : (length pids == 1) ≡ false = ground (arith, several) in
      rw many (
        Returns-map (Least pids (u32_mod - 1) 0) _ _ (least_rtt-Least pids (u32_mod - 1) 0 k)
          (λ b h. elim h.found [
            | inl (start, none_found) ↦ absurd (
                omega (
                  arith,
                  none_found,
                  fast,
                  All-contains (λ p. p ≢ origin → h.v ≤ rtt p) pids other h.least here ne,
                ))
            | inr (known, away, same) ↦ (known, away, rw (← same) h.least)
          ]))
