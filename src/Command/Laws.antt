-- ===== src/Command/Laws.antt =====
-- What a subcommand that succeeded, or failed, has done.
use ks_upgrade.Base.{
  ◌≡◌, refl, ◌↔◌, ◌⊎◌, inl, inr, ap, arith, Error, Result, ok, err, panic, described, String,
}
use ks_upgrade.Base.Action.{Action, pure, raise, on_result}
use ks_upgrade.Executor.Job.{NamedUpgradeJob}
use ks_upgrade.Executor.{
  Executor, prepare_job, pre_job, post_job, dynamic_job, rollback_job, prepare_upgrade, pre_upgrade,
  post_upgrade, dynamic_upgrade, roll_back,
}
use ks_upgrade.Executor.Phases.{
  Completed, Skipped, Failed, guarded, guarded-ok, guarded-err, Completed→guarded, Skipped→guarded,
}
use ks_upgrade.Executor.Validation.{
  Phase, prepare_phase, pre_phase, post_phase, dynamic_phase, rollback_phase,
}
use ks_upgrade.Command.{failure, wrapped, run}

module _ {W : Type 0} where
  -- What each phase does with one job.
  abbrev pub step_of : Phase → NamedUpgradeJob W → Action W Unit
  step_of prepare_phase = prepare_job
  step_of pre_phase = pre_job
  step_of post_phase = post_job
  step_of dynamic_phase = dynamic_job
  step_of rollback_phase = rollback_job

  run-eq-guarded :
      (phase : Phase) (e : Executor W)
      → run phase e ≡ wrapped (failure phase) (guarded phase (step_of phase) e)
  unfolding run prepare_upgrade pre_upgrade post_upgrade dynamic_upgrade roll_back
  run-eq-guarded prepare_phase e = refl
  run-eq-guarded pre_phase e = refl
  run-eq-guarded post_phase e = refl
  run-eq-guarded dynamic_phase e = refl
  run-eq-guarded rollback_phase e = refl

  wrapped-ok :
      (s : String) (m : Action W Unit) (u w : W) → (wrapped s m u ≡ (ok tt, w)) ↔ (m u ≡ (ok tt, w))
  wrapped-ok s m u w =
      (λ h. inward (m u) h, λ h. ap (λ a. on_result a.0 pure (λ e. raise (described s e)) a.1) h)
    where
      inward :
          (a : Result (Unit {0}) × W)
          → on_result a.0 pure (λ e. raise (described s e)) a.1 ≡ (ok tt, w)
          → a ≡ (ok tt, w)
      inward (ok tt, v) h = h
      inward (err e, v) h = cc
      inward (panic, v) h = cc

  wrapped-err :
      (s : String) (m : Action W Unit) (u w : W) (x : Error)
      → wrapped s m u ≡ (err x, w)
      → (y : Error) × (x ≡ described s y) × (m u ≡ (err y, w))
  wrapped-err s m u w x h = inward (m u) h
    where
      inward :
          (a : Result (Unit {0}) × W)
          → on_result a.0 pure (λ e. raise (described s e)) a.1 ≡ (err x, w)
          → (y : Error) × (x ≡ described s y) × (a ≡ (err y, w))
      inward (ok tt, v) h = cc
      inward (err e, v) h = (e, ground arith, ground arith)
      inward (panic, v) h = cc

  -- A subcommand succeeds in two ways only: its validators let the phase start and every job of
  -- the executor ran without an error, in the executor's order; or a validator without an error
  -- had the phase left out, and the world is as the validators left it.
  pub run-ok :
      (phase : Phase) (e : Executor W) (u w : W)
      → (run phase e u ≡ (ok tt, w))
        ↔ (Completed phase (step_of phase) e u w ⊎ Skipped phase (step_of phase) e u w)
  run-ok phase e u w = rw run-eq-guarded (
    λ h.
        guarded-ok phase (step_of phase) e u w
          ((wrapped-ok (failure phase) (guarded phase (step_of phase) e) u w).0 h),
    λ c. (wrapped-ok (failure phase) (guarded phase (step_of phase) e) u w).1 (elim c [
      | inl done ↦ Completed→guarded phase (step_of phase) e u w done
      | inr left_out ↦ Skipped→guarded phase (step_of phase) e u w left_out
    ]),
  )

  -- A subcommand that fails describes the error of a validator, or of the first job that failed:
  -- the jobs before it ran, and no job behind it was started.
  pub run-err :
      (phase : Phase) (e : Executor W) (u w : W) (x : Error)
      → run phase e u ≡ (err x, w)
      → (y : Error) × (x ≡ described (failure phase) y) × Failed phase (step_of phase) e u y w
  run-err phase e u w x h =
      let (y, told, fails) =
        wrapped-err (failure phase) (guarded phase (step_of phase) e) u w x
          (rw run-eq-guarded at h) in
      (y, told, guarded-err phase (step_of phase) e u w y fails)
