-- ===== src/Command.antt =====
-- cmd/ks-upgrade.go: each subcommand runs one method of the executor and describes its error. The
-- flags, the version command and the exit on a configuration that does not load are not modelled.
pub mod Laws
use ks_upgrade.Base.{String, described, Error, Result, ok, err, panic}
use ks_upgrade.Base.Action.{Action, pure, raise, on_result, attempt}
use ks_upgrade.Executor.{
  Executor, prepare_upgrade, pre_upgrade, post_upgrade, dynamic_upgrade, roll_back,
}
use ks_upgrade.Executor.Validation.{
  Phase, prepare_phase, pre_phase, post_phase, dynamic_phase, rollback_phase,
}

-- The message of the subcommand of a phase.
abbrev pub failure : Phase → String
failure prepare_phase = "failed to execute prepare-upgrade jobs"
failure pre_phase = "failed to execute pre-upgrade jobs"
failure post_phase = "failed to execute post-upgrade jobs"
failure dynamic_phase = "failed to execute dynamic-upgrade jobs"
failure rollback_phase = "failed to execute rollback jobs"

module _ {W : Type 0} where
  -- `errors.Wrap(err, message)`, or `fmt.Errorf` with the error at the end.
  abbrev pub wrapped : String → Action W Unit → Action W Unit
  wrapped s m = attempt m pure (λ e. raise (described s e))

  unfoldable pub run : Phase → Executor W → Action W Unit
  run prepare_phase e = wrapped (failure prepare_phase) (prepare_upgrade e)
  run pre_phase e = wrapped (failure pre_phase) (pre_upgrade e)
  run post_phase e = wrapped (failure post_phase) (post_upgrade e)
  run dynamic_phase e = wrapped (failure dynamic_phase) (dynamic_upgrade e)
  run rollback_phase e = wrapped (failure rollback_phase) (roll_back e)
