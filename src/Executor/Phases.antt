-- ===== src/Executor/Phases.antt =====
-- What a phase of the executor does: its loop over the jobs stops at the first failure, and its
-- validators decide whether the loop starts.
use ks_upgrade.Base.{
  Bool, true, false, List, [], ◌∷◌, ◌++◌, ◌≡◌, refl, ◌∙◌, ap, subst, none, some, ◌↔◌, ◌⊎◌, inl, inr,
  arith, Error, Result, ok, err,
}
use ks_upgrade.Base.Action.{Action, bind-eq-ok, bind-eq-err}
use ks_upgrade.Executor.Job.{NamedUpgradeJob}
use ks_upgrade.Executor.Validation.{Phase, run_validators, Verdict}
use ks_upgrade.Executor.{Executor, for_each, gated}

module _ {W : Type 0} (step : NamedUpgradeJob W → Action W Unit) where
  -- Every job of the list ran, one after the other, and none failed.
  pub data Ran : List (NamedUpgradeJob W) → W → W → Type 0 where
    none_left : {w : W} → Ran [] w w
    then_ran :
        {job : NamedUpgradeJob W} {jobs : List (NamedUpgradeJob W)} {u v w : W}
        → step job u ≡ (ok tt, v)
        → Ran jobs v w
        → Ran (job ∷ jobs) u w

  -- The list is split at the first job that failed: those before it ran.
  pub record StoppedAt (jobs : List (NamedUpgradeJob W)) (u : W) (e : Error) (w : W) : Type 0 where
    pub before : List (NamedUpgradeJob W)
    pub failed : NamedUpgradeJob W
    pub after : List (NamedUpgradeJob W)
    pub split : jobs ≡ before ++ failed ∷ after
    pub reached : W
    pub ran : Ran before u reached
    pub fails : step failed reached ≡ (err e, w)

  Ran→for_each :
      {jobs : List (NamedUpgradeJob W)} {u w : W} → Ran jobs u w → for_each step jobs u ≡ (ok tt, w)
  unfolding for_each
  Ran→for_each none_left = refl
  Ran→for_each (then_ran e r) = rw e (Ran→for_each r)

  for_each→Ran :
      (jobs : List (NamedUpgradeJob W)) (u w : W) → for_each step jobs u ≡ (ok tt, w) → Ran jobs u w
  unfolding for_each
  for_each→Ran [] u w h = subst (Ran [] u) (ap (λ (p : Result (Unit {0}) × W). p.1) h) none_left
  for_each→Ran (job ∷ jobs) u w h =
      let (_, v, first, rest) = bind-eq-ok (step job) (λ _. for_each step jobs) h in
      then_ran first (for_each→Ran jobs v w rest)

  for_each→StoppedAt :
      (jobs : List (NamedUpgradeJob W)) (u w : W) (e : Error)
      → for_each step jobs u ≡ (err e, w)
      → StoppedAt jobs u e w
  unfolding for_each
  for_each→StoppedAt [] u w e h = cc
  for_each→StoppedAt (job ∷ jobs) u w e h =
      elim (bind-eq-err (step job) (λ _. for_each step jobs) h) [
        | inl now ↦ record {
          before = [];
          failed = job;
          after = jobs;
          split = refl;
          reached = u;
          ran = none_left;
          fails = now;
        }
        | inr (_, v, first, rest) ↦
            let s = for_each→StoppedAt jobs v w e rest in
            record {
              before = job ∷ s.before;
              failed = s.failed;
              after = s.after;
              split = ap (◌∷◌ job) s.split;
              reached = s.reached;
              ran = then_ran first s.ran;
              fails = s.fails;
            }
      ]

  -- The loop succeeds exactly when every job runs without an error, in the order of the list.
  for_each-iff_Ran :
      (jobs : List (NamedUpgradeJob W)) (u w : W)
      → (for_each step jobs u ≡ (ok tt, w)) ↔ Ran jobs u w
  for_each-iff_Ran jobs u w = (for_each→Ran jobs u w, Ran→for_each)

module _ {W : Type 0} (phase : Phase) (step : NamedUpgradeJob W → Action W Unit)
    (e : Executor W) where
  -- The validators let the phase start, and every job of the executor ran.
  abbrev pub Completed : W → W → Type 0
  Completed u w =
      (v : W) × (run_validators phase e.validators u ≡ ((true, none), v))
      × Ran step e.sorted_jobs v w

  -- A validator answered that the phase has to be left out, and gave no error.
  abbrev pub Skipped : W → W → Type 0
  Skipped u w = run_validators phase e.validators u ≡ ((false, none), w)

  -- A validator gave the error, or a job did.
  abbrev pub Failed : W → Error → W → Type 0
  Failed u x w =
      ((valid : Bool) × (run_validators phase e.validators u ≡ ((valid, some x), w)))
      ⊎ ((v : W) × (run_validators phase e.validators u ≡ ((true, none), v))
          × StoppedAt step e.sorted_jobs v x w)

  abbrev pub guarded : Action W Unit
  guarded u = gated (for_each step e.sorted_jobs) (run_validators phase e.validators u)

  pub guarded-ok : (u w : W) → guarded u ≡ (ok tt, w) → Completed u w ⊎ Skipped u w
  unfolding gated
  guarded-ok u w h = go (run_validators phase e.validators u) refl h
    where
      go :
          (a : Verdict × W)
          → run_validators phase e.validators u ≡ a
          → gated (for_each step e.sorted_jobs) a ≡ (ok tt, w)
          → Completed u w ⊎ Skipped u w
      go ((true, none), v) r k = inl (v, r, for_each→Ran step e.sorted_jobs v w k)
      go ((false, none), v) r k =
          inr (r ∙ ap (λ (p : Result (Unit {0}) × W). ((false, none), p.1)) k)
      go ((valid, some x), v) r k = cc

  pub Completed→guarded : (u w : W) → Completed u w → guarded u ≡ (ok tt, w)
  unfolding gated
  Completed→guarded u w (v, r, ran) =
      ap (gated (for_each step e.sorted_jobs)) r ∙ Ran→for_each step ran

  pub Skipped→guarded : (u w : W) → Skipped u w → guarded u ≡ (ok tt, w)
  unfolding gated
  Skipped→guarded u w r = ap (gated (for_each step e.sorted_jobs)) r

  pub guarded-err : (u w : W) (x : Error) → guarded u ≡ (err x, w) → Failed u x w
  unfolding gated
  guarded-err u w x h = go (run_validators phase e.validators u) refl h
    where
      go :
          (a : Verdict × W)
          → run_validators phase e.validators u ≡ a
          → gated (for_each step e.sorted_jobs) a ≡ (err x, w)
          → Failed u x w
      go ((true, none), v) r k = inr (v, r, for_each→StoppedAt step e.sorted_jobs v w x k)
      go ((false, none), v) r k = cc
      go ((valid, some y), v) r k = inl (valid, r ∙ same (ground arith) (ground arith))
        where
          same : y ≡ x → v ≡ w → ◌≡◌ {A = Verdict × W} ((valid, some y), v) ((valid, some x), w)
          same p q = cc
