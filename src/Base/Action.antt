-- ===== src/Base/Action.antt =====
-- Code that changes the world and may fail. What was changed before a failure stays changed, so
-- the world comes back beside every result.
use mathlib.Core.Path.{◌≡◌, refl, ap}
use mathlib.Core.Bool.{Bool, true, false}
use mathlib.Core.Logic.{◌⊎◌, inl, inr}
use native.Mathlib.Omega.{arith}
use ks_upgrade.Base.Tests.{if◌then◌else◌}
use ks_upgrade.Base.Failure.{Error, Result, ok, err, panic}

abbrev pub Action : Type 0 → Type 0 → Type 0
Action W A = W → Result A × W

module _ {W A : Type 0} where
  abbrev pub pure : A → Action W A
  pure a w = (ok a, w)

  abbrev pub raise : Error → Action W A
  raise e w = (err e, w)

  abbrev pub lift : Result A → Action W A
  lift r w = (r, w)

module _ {W A B : Type 0} where
  abbrev pub continue : Result A → (A → Action W B) → Action W B
  continue (ok a) f w = f a w
  continue (err e) f w = (err e, w)
  continue panic f w = (panic, w)

  infixl 10 ◌>>=◌ ◌>>◌
  abbrev pub ◌>>=◌ : Action W A → (A → Action W B) → Action W B
  ◌>>=◌ m f w = let (r, w') = m w in continue r f w'

  abbrev pub ◌>>◌ : Action W A → Action W B → Action W B
  m >> n = m >>= λ _. n

  -- `if r, err := m(); err != nil { handle err }`, with a handler for the error.
  abbrev pub on_result : Result A → (A → Action W B) → (Error → Action W B) → Action W B
  on_result (ok a) f h w = f a w
  on_result (err e) f h w = h e w
  on_result panic f h w = (panic, w)

  abbrev pub attempt : Action W A → (A → Action W B) → (Error → Action W B) → Action W B
  attempt m f h w = let (r, w') = m w in on_result r f h w'

module _ {W A B : Type 0} where
  -- What a bind that succeeded, or failed, went through.
  pub bind-eq-ok :
      (m : Action W A) (f : A → Action W B) {u w : W} {b : B}
      → (m >>= f) u ≡ (ok b, w)
      → (a : A) × (v : W) × (m u ≡ (ok a, v)) × (f a v ≡ (ok b, w))
  bind-eq-ok m f {u} {w} {b} h = let (r, v) = m u in go r v refl h
    where
      go :
          (r : Result A) (v : W)
          → m u ≡ (r, v)
          → continue r f v ≡ (ok b, w)
          → (a : A) × (v : W) × (m u ≡ (ok a, v)) × (f a v ≡ (ok b, w))
      go (ok a) v e k = (a, v, e, k)
      go (err x) v e k = cc
      go panic v e k = cc

  pub bind-eq-err :
      (m : Action W A) (f : A → Action W B) {u w : W} {e : Error}
      → (m >>= f) u ≡ (err e, w)
      → (m u ≡ (err e, w)) ⊎ ((a : A) × (v : W) × (m u ≡ (ok a, v)) × (f a v ≡ (err e, w)))
  bind-eq-err m f {u} {w} {e} h = let (r, v) = m u in go r v refl h
    where
      go :
          (r : Result A) (v : W)
          → m u ≡ (r, v)
          → continue r f v ≡ (err e, w)
          → (m u ≡ (err e, w)) ⊎ ((a : A) × (v : W) × (m u ≡ (ok a, v)) × (f a v ≡ (err e, w)))
      go (ok a) v x k = inr (a, v, x, k)
      go (err y) v x k = inl (ground arith)
      go panic v x k = cc

  pub lift-bind-ok :
      (r : Result A) (f : A → Action W B) {u w : W} {b : B}
      → continue r f u ≡ (ok b, w)
      → (a : A) × (r ≡ ok a) × (f a u ≡ (ok b, w))
  lift-bind-ok (ok a) f h = (a, refl, h)
  lift-bind-ok (err e) f h = cc
  lift-bind-ok panic f h = cc

  -- What a call goes on with, once its first part is known.
  pub bind_of_ok :
      (m : Action W A) (f : A → Action W B) {u v : W} {a : A}
      → m u ≡ (ok a, v)
      → (m >>= f) u ≡ f a v
  bind_of_ok m f h = ap (λ (p : Result A × W). continue p.0 f p.1) h

  pub attempt_of_ok :
      (m : Action W A) (f : A → Action W B) (g : Error → Action W B) {u v : W} {a : A}
      → m u ≡ (ok a, v)
      → attempt m f g u ≡ f a v
  attempt_of_ok m f g h = ap (λ (p : Result A × W). on_result p.0 f g p.1) h

  pub attempt_of_err :
      (m : Action W A) (f : A → Action W B) (g : Error → Action W B) {u v : W} {e : Error}
      → m u ≡ (err e, v)
      → attempt m f g u ≡ g e v
  attempt_of_err m f g h = ap (λ (p : Result A × W). on_result p.0 f g p.1) h

  -- What a call with a handler that succeeded went through.
  pub attempt-eq-ok :
      (m : Action W A) (f : A → Action W B) (g : Error → Action W B) {u w : W} {b : B}
      → attempt m f g u ≡ (ok b, w)
      → ((a : A) × (v : W) × (m u ≡ (ok a, v)) × (f a v ≡ (ok b, w)))
        ⊎ ((e : Error) × (v : W) × (m u ≡ (err e, v)) × (g e v ≡ (ok b, w)))
  attempt-eq-ok m f g {u} {w} {b} h = go (m u) refl h
    where
      go :
          (p : Result A × W)
          → m u ≡ p
          → on_result p.0 f g p.1 ≡ (ok b, w)
          → ((a : A) × (v : W) × (m u ≡ (ok a, v)) × (f a v ≡ (ok b, w)))
            ⊎ ((e : Error) × (v : W) × (m u ≡ (err e, v)) × (g e v ≡ (ok b, w)))
      go (ok a, v) e k = inl (a, v, e, k)
      go (err x, v) e k = inr (x, v, e, k)
      go (panic, v) e k = cc

module _ {W : Type 0} where
  -- A step that only passes a condition.
  pub guard-eq-ok :
      (c : Bool) (e : Error) {v w : W}
      → ◌≡◌ {A = Result (Unit {0}) × W} ((if c then pure tt else raise e) v) (ok tt, w)
      → (c ≡ true) × (v ≡ w)
  guard-eq-ok true e h = (refl, ap (λ (p : Result (Unit {0}) × W). p.1) h)
  guard-eq-ok false e h = cc
