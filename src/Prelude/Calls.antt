-- ===== src/Prelude/Calls.antt =====
-- Calls on an object: they change its state, emit effects in order, or fail on a null pointer.
use mathlib.Core.Path.{◌≡◌, refl}
use mathlib.Core.Bool.{Bool, true, false}
use mathlib.Core.Option.{Option, none, some}
use mathlib.Core.List.{List, ◌++◌}
use mp_video_simulation.Prelude.Lists.{Returns}
use mp_video_simulation.Prelude.Tests.{if◌then◌else◌}

module _ {S O : Type 0} where
  abbrev pub then_call : Option (S × List O) → (S → Option (S × List O)) → Option (S × List O)
  then_call none next = none
  then_call (some (s, out)) next = elim (next s) [
    | none ↦ none
    | some (s', out') ↦ some (s', out ++ out')
  ]

  -- One call after another.
  infixl 5 ◌>>◌
  abbrev pub ◌>>◌ : (S → Option (S × List O)) → (S → Option (S × List O)) → S → Option (S × List O)
  ◌>>◌ first next s = then_call (first s) next

  -- A call returns, and what it returns meets a postcondition.
  abbrev pub Ensures : (S → List O → Type 0) → Option (S × List O) → Type 0
  Ensures P none = ⊥
  Ensures P (some (s, out)) = P s out

  Ensures-join :
      (Q : S → List O → Type 0) (out : List O) (r : Option (S × List O))
      → Ensures (λ s' out'. Q s' (out ++ out')) r
      → Ensures Q (elim r [ none ↦ none | some (s', out') ↦ some (s', out ++ out') ])
  Ensures-join Q out none h = absurd h
  Ensures-join Q out (some (s', out')) h = h

  pub Ensures-then :
      (P Q : S → List O → Type 0) (r : Option (S × List O)) (next : S → Option (S × List O))
      → Ensures P r
      → ((s : S) (out : List O) → P s out → Ensures (λ s' out'. Q s' (out ++ out')) (next s))
      → Ensures Q (then_call r next)
  Ensures-then P Q none next h k = absurd h
  Ensures-then P Q (some (s, out)) next h k = Ensures-join Q out (next s) (k s out h)

  pub Ensures-map :
      (P Q : S → List O → Type 0) (r : Option (S × List O))
      → Ensures P r
      → ((s : S) (out : List O) → P s out → Q s out)
      → Ensures Q r
  Ensures-map P Q none h k = absurd h
  Ensures-map P Q (some (s, out)) h k = k s out h

  -- Of a call that returns, what it returns is known.
  pub Ensures-eq :
      (P : S → List O → Type 0) (r : Option (S × List O))
      → Ensures P r
      → Ensures (λ s out. P s out × (r ≡ some (s, out))) r
  Ensures-eq P none h = absurd h
  Ensures-eq P (some (s, out)) h = (h, refl)

  pub Ensures-if :
      (P : S → List O → Type 0) (b : Bool) (x y : Option (S × List O))
      → (b ≡ true → Ensures P x)
      → (b ≡ false → Ensures P y)
      → Ensures P (if b then x else y)
  Ensures-if P true x y h k = h refl
  Ensures-if P false x y h k = k refl

  -- What holds of the state that a call leaves, if it returns.
  abbrev pub IfDone : (S → Type 0) → Option (S × List O) → Type 0
  IfDone P none = Unit
  IfDone P (some (s, out)) = P s

  pub Ensures-IfDone :
      (P : S → List O → Type 0) (Q : S → Type 0) (r : Option (S × List O))
      → Ensures P r
      → IfDone Q r
      → Ensures (λ s out. P s out × Q s) r
  Ensures-IfDone P Q none h a = absurd h
  Ensures-IfDone P Q (some (s, out)) h a = (h, a)

  pub Returns-Ensures :
      (P : S → List O → Type 0) (r : Option (S × List O))
      → Returns (λ (s, out). P s out) r
      → Ensures P r
  Returns-Ensures P none h = h
  Returns-Ensures P (some (s, out)) h = h
