-- ===== src/Base/Loops.antt =====
-- Loops over actions.
use mathlib.Core.Path.{◌≡◌, refl, sym, ap, ap₂, subst, ◌∙◌}
use mathlib.Core.Bool.{Bool, true, false}
use mathlib.Core.List.{List, [], ◌∷◌, ◌++◌}
use ks_upgrade.Base.Lists.{All, select}
use ks_upgrade.Base.Failure.{Error, Result, ok, err, panic, new_aggregate, of_error}
use ks_upgrade.Base.Action.{Action, pure, lift, ◌>>=◌, bind-eq-ok}

-- `errors.NewAggregate` of the errors of a loop.
abbrev pub aggregated : {W : Type 0} → List Error → Action W (Unit {0})
aggregated errors = lift (of_error (new_aggregate errors))

module _ {W : Type 0} where
  -- The rest of a loop that gathers errors, behind a step with this result.
  unfoldable pub gathered :
      (Error → Error) → Result (Unit {0}) → Action W (List Error) → Action W (List Error)
  gathered wrap (ok u) rest w = rest w
  gathered wrap (err e) rest w = (rest >>= λ errors. pure (wrap e ∷ errors)) w
  gathered wrap panic rest w = (panic, w)

module _ {W A : Type 0} where
  -- A loop over some elements that an error ends.
  unfoldable pub each : (A → Action W (Unit {0})) → List A → Action W (Unit {0})
  each step [] = pure tt
  each step (a ∷ xs) = step a >>= λ _. each step xs

  -- A loop that goes on behind an error, and gathers the errors.
  unfoldable pub gather :
      (A → Error → Error) → (A → Action W (Unit {0})) → List A → Action W (List Error)
  unfolding gathered
  gather wrap step [] w = (ok [], w)
  gather wrap step (a ∷ xs) w =
      let (r, w') = step a w in gathered (wrap a) r (gather wrap step xs) w'

  -- A loop whose steps all ended without an error, one behind the other.
  pub data Ran (step : A → Action W (Unit {0})) : List A → W → W → Type 0 where
    done : {w : W} → Ran step [] w w
    ran :
        {a : A} {xs : List A} {u v w : W}
        → step a u ≡ (ok tt, v)
        → Ran step xs v w
        → Ran step (a ∷ xs) u w

  pub each-ok :
      (step : A → Action W (Unit {0})) (xs : List A) (u w : W)
      → each step xs u ≡ (ok tt, w)
      → Ran step xs u w
  unfolding each
  each-ok step [] u w h =
      subst (λ x. Ran step [] u x) (ap (λ (p : Result (Unit {0}) × W). p.1) h) done
  each-ok step (a ∷ xs) u w h =
      let (x, v, first, rest) = bind-eq-ok (step a) (λ _. each step xs) h in
      ran first (each-ok step xs v w rest)

  -- No gathered error: every step ended without one.
  pub gather-ok :
      (wrap : A → Error → Error) (step : A → Action W (Unit {0})) (xs : List A) (u w : W)
      → gather wrap step xs u ≡ (ok [], w)
      → Ran step xs u w
  unfolding gather gathered
  gather-ok wrap step [] u w h =
      subst (λ x. Ran step [] u x) (ap (λ (p : Result (List Error) × W). p.1) h) done
  gather-ok wrap step (a ∷ xs) u w h = go (λ v. gather-ok wrap step xs v w) (step a u) refl h
    where
      go :
          ((v : W) → gather wrap step xs v ≡ (ok [], w) → Ran step xs v w)
          → (p : Result (Unit {0}) × W) → step a u ≡ p
          → gathered (wrap a) p.0 (gather wrap step xs) p.1 ≡ (ok [], w)
          → Ran step (a ∷ xs) u w
      go rest (ok tt, v) e h = ran e (rest v h)
      go rest (err x, v) e h =
          let (errors, v', f, g) =
            bind-eq-ok (gather wrap step xs) (λ errors. pure (wrap a x ∷ errors)) h in
          cc
      go rest (panic, v) e h = cc

  pub Ran-append :
      (step : A → Action W (Unit {0})) {xs ys : List A} {u v w : W}
      → Ran step xs u v
      → Ran step ys v w
      → Ran step (xs ++ ys) u w
  Ran-append step done rest = rest
  Ran-append step (ran first more) rest = ran first (Ran-append step more rest)

  pub Ran-snoc :
      (step : A → Action W (Unit {0})) {xs : List A} {a : A} {u v w : W}
      → Ran step xs u v
      → step a v ≡ (ok tt, w)
      → Ran step (xs ++ a ∷ []) u w
  Ran-snoc step done h = ran h done
  Ran-snoc step (ran first rest) h = ran first (Ran-snoc step rest h)

module _ {W : Type 0} where
  -- Actions that ended without an error, one behind the other.
  abbrev pub InOrder : List (Action W (Unit {0})) → W → W → Type 0
  InOrder = Ran (λ m. m)

  -- A sequence of actions, and one more.
  pub then-InOrder :
      (xs : List (Action W (Unit {0}))) (m n : Action W (Unit {0}))
      → ((u v : W) → m u ≡ (ok tt, v) → InOrder xs u v)
      → (u w : W) → (m >>= λ _. n) u ≡ (ok tt, w)
      → InOrder (xs ++ n ∷ []) u w
  then-InOrder xs m n before u w h =
      let (x, v, first, last) = bind-eq-ok m (λ _. n) h in Ran-snoc (λ m. m) (before u v first) last

module _ {W A : Type 0} (step : A → Action W (Unit {0})) where
  -- What every step that ended without an error keeps.
  pub Ran-keeps :
      (P : W → Type 0)
      → ((a : A) (u v : W) → step a u ≡ (ok tt, v) → P u → P v)
      → {xs : List A} {u w : W} → Ran step xs u w
      → P u
      → P w
  Ran-keeps P keeps done p = p
  Ran-keeps P keeps (ran {a = a} {u = u} {v = v} first rest) p =
      Ran-keeps P keeps rest (keeps a u v first p)

  -- What every step brings about for its element, and no step undoes for another one.
  pub Ran-All :
      (P : A → W → Type 0)
      → ((a : A) (u v : W) → step a u ≡ (ok tt, v) → P a v)
      → ((b a : A) (u v : W) → step a u ≡ (ok tt, v) → P b u → P b v)
      → {xs : List A} {u w : W} → Ran step xs u w
      → All (λ a. P a w) xs
  Ran-All P holds keeps done = tt
  Ran-All P holds keeps (ran {a = a} {u = u} {v = v} first rest) =
      (Ran-keeps (P a) (keeps a) rest (holds a u v first), Ran-All P holds keeps rest)

module _ {W A : Type 0} (keep : A → Bool) (step step' : A → Action W (Unit {0}))
    (skips : (a : A) (u v : W) → keep a ≡ false → step a u ≡ (ok tt, v) → u ≡ v)
    (steps : (a : A) (u v : W)
      → keep a ≡ true
      → step a u ≡ (ok tt, v)
      → step' a u ≡ (ok tt, v)) where
  -- A loop that passes some elements over has gone through the others.
  pub Ran-select : {xs : List A} {u w : W} → Ran step xs u w → Ran step' (select keep xs) u w
  unfolding select
  Ran-select done = done
  Ran-select (ran {a} {xs} {u} {v} {w} first rest) = go (keep a) refl (Ran-select rest)
    where
      go :
          (b : Bool)
          → keep a ≡ b
          → Ran step' (select keep xs) v w
          → Ran step' (select keep (a ∷ xs)) u w
      go false e rest =
          rw (e) (subst (λ x. Ran step' (select keep xs) x w) (sym (skips a u v e first)) rest)
      go true e rest = rw (e) (ran (steps a u v e first) rest)

module _ {W : Type 0} where
  aggregated-ok :
      (errors : List Error) (v w : W) → aggregated errors v ≡ (ok tt, w) → (errors ≡ []) × (v ≡ w)
  aggregated-ok [] v w h = (refl, ap (λ (p : Result (Unit {0}) × W). p.1) h)
  aggregated-ok (e ∷ errors) v w h = cc

module _ {W A : Type 0} where
  -- A loop whose gathered errors are no error.
  pub gather-aggregated-ok :
      (wrap : A → Error → Error) (step : A → Action W (Unit {0})) (xs : List A) (u w : W)
      → (gather wrap step xs >>= λ errors. aggregated errors) u ≡ (ok tt, w)
      → Ran step xs u w
  gather-aggregated-ok wrap step xs u w h =
      let (errors, v, gathered, rest) = bind-eq-ok (gather wrap step xs) aggregated h in
      let (nothing, same) = aggregated-ok errors v w rest in
      gather-ok wrap step xs u w (
        gathered
        ∙ ap (λ (p : List Error × W). (ok p.0, p.1))
            (ap₂ (λ (a : List Error) (b : W). (a, b)) nothing same))

module _ {W A : Type 0} where
  -- A relation for each element, from one world to the next.
  pub data Through (R : A → W → W → Type 0) : List A → W → W → Type 0 where
    stop : {w : W} → Through R [] w w
    pass : {a : A} {xs : List A} {u v w : W} → R a u v → Through R xs v w → Through R (a ∷ xs) u w

  -- A loop that ended without an error, by what each of its steps does.
  pub each-Through :
      (step : A → Action W (Unit {0})) (R : A → W → W → Type 0)
      → ((a : A) (u v : W) → step a u ≡ (ok tt, v) → R a u v)
      → (xs : List A) (u w : W) → each step xs u ≡ (ok tt, w)
      → Through R xs u w
  each-Through step R holds xs u w h = go (each-ok step xs u w h)
    where
      go : {xs : List A} {u w : W} → Ran step xs u w → Through R xs u w
      go done = stop
      go (ran {a = a} {u = u} {v = v} first rest) = pass (holds a u v first) (go rest)
