-- ===== src/Executor/KsVersion.antt =====
-- `validateKsVersion` of pkg/executor/validator.go, and the validators of `NewExecutor`.
pub mod Laws
use ks_upgrade.Base.{
  String, starts_with, Bool, true, false, if◌then◌else◌, not, List, [], ◌∷◌, ◌++◌, Option, none,
  some, Error, no_deployed_releases, release_not_found, Result, ok, err, panic,
}
use ks_upgrade.Base.Action.{Action}
use ks_upgrade.Config.{KsVersionConfig, ValidatorConfig}
use ks_upgrade.Executor.Validation.{
  prepare_phase, pre_phase, post_phase, Verdict, Validator, new_validator,
}

-- What the errors of the helm client mean to the validator.
abbrev pub no_release : Error → Bool
no_release no_deployed_releases = true
no_release release_not_found = true
no_release _ = false

-- The answer of the helm client: the app version of the deployed chart, or an error.
pub data LastRelease : Type 0 where
  deployed : String → LastRelease
  unavailable : Error → LastRelease

unfoldable pub version_verdict : LastRelease → Verdict
version_verdict (deployed version) = (starts_with version "v3.", none)
version_verdict (unavailable e) = if no_release e then (true, none) else (false, some e)

module _ {W : Type 0} where
  -- `last_release` is `LastReleaseDeployed("kubesphere-system", "ks-core")`.
  unfoldable pub validate_ks_version : (W → LastRelease × W) → KsVersionConfig → W → Verdict × W
  unfolding version_verdict
  validate_ks_version last_release c w =
      if not c.enabled
      then ((true, none), w)
      else (let (r, w') = last_release w in (version_verdict r, w'))

  -- The end of `NewExecutor`: the validators that the configuration enables.
  unfoldable pub new_validators :
      ValidatorConfig → (W → Verdict × W) → (W → Verdict × W) → List (Validator W)
  new_validators c ks_version museum =
      (if c.ks_version.enabled
        then new_validator ks_version (prepare_phase ∷ pre_phase ∷ post_phase ∷ []) ∷ []
        else [])
      ++ (if c.extensions_museum.enabled then new_validator museum (post_phase ∷ []) ∷ [] else [])
