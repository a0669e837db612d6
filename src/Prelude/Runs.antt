-- ===== src/Prelude/Runs.antt =====
-- An object over a run of events, each of which may fail or emit effects.
use mathlib.Core.Option.{Option, some}
use mathlib.Core.List.{List, [], ◌∷◌, ◌++◌}
use mp_video_simulation.Prelude.Calls.{
  then_call, Ensures, Ensures-map, Ensures-then, IfDone, Ensures-IfDone,
}

module _ {E S O : Type 0} (handle : E → S → Option (S × List O)) where
  unfoldable pub run : List E → S → Option (S × List O)
  run [] s = some (s, [])
  run (e ∷ es) s = then_call (handle e s) (run es)

  module _ (IsAllowed : E → S → Type 0) where
    -- Each event is allowed in the state that those before it leave.
    abbrev pub AreAllowed : List E → S → Type 0
    AreAllowed [] s = Unit
    AreAllowed (e ∷ es) s = IsAllowed e s × IfDone (AreAllowed es) (handle e s)

    -- What each call leads to, a run leads to.
    pub run-Ensures :
        (Holds : S → Type 0) (Leads : S → List O → S → Type 0)
        → ((s : S) → Leads s [] s)
        → ((s t u : S) (out out' : List O)
            → Leads s out t
            → Leads t out' u
            → Leads s (out ++ out') u)
        → ((e : E) (s : S)
            → Holds s
            → IsAllowed e s
            → Ensures (λ t out. Holds t × Leads s out t) (handle e s))
        → (es : List E) (s : S) → Holds s
        → AreAllowed es s
        → Ensures (λ t out. Holds t × Leads s out t) (run es s)
    unfolding run
    run-Ensures Holds Leads idle joins step [] s v a = (v, idle s)
    run-Ensures Holds Leads idle joins step (e ∷ es) s v a =
        Ensures-then (λ t out. (Holds t × Leads s out t) × AreAllowed es t) _ (handle e s) (run es)
          (Ensures-IfDone (λ t out. Holds t × Leads s out t) (AreAllowed es) (handle e s)
            (step e s v a.0) a.1)
          (λ t out (first, rest).
            Ensures-map (λ u out'. Holds u × Leads t out' u) _ (run es t)
              (run-Ensures Holds Leads idle joins step es t first.0 rest)
              (λ u out' (w, leads). (w, joins s t u out out' first.1 leads)))

    -- An invariant of each call is one of a run.
    pub run-Keeps :
        (Holds : S → Type 0)
        → ((e : E) (s : S) → Holds s → IsAllowed e s → Ensures (λ t out. Holds t) (handle e s))
        → (es : List E) (s : S) → Holds s
        → AreAllowed es s
        → Ensures (λ t out. Holds t) (run es s)
    run-Keeps Holds step es s v a =
        Ensures-map (λ t out. Holds t × Unit) (λ t out. Holds t) (run es s)
          (run-Ensures Holds (λ s out t. Unit) (λ s. tt) (λ s t u out out' p q. tt)
            (λ e t w h.
              Ensures-map (λ u out. Holds u) _ (handle e t) (step e t w h) (λ u out x. (x, tt)))
            es s v a)
          (λ t out (w, _). w)
