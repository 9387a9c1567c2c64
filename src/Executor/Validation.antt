-- ===== src/Executor/Validation.antt =====
-- `runValidators` of pkg/executor/executor.go and the validator types of validator.go.
use ks_upgrade.Base.{Bool, true, false, ◌||◌, List, [], ◌∷◌, Option, none}
use ks_upgrade.Base.{Error}

pub data Phase : Type 0 where
  prepare_phase pre_phase post_phase dynamic_phase rollback_phase : Phase

abbrev pub phase_eq : Phase → Phase → Bool
phase_eq prepare_phase prepare_phase = true
phase_eq pre_phase pre_phase = true
phase_eq post_phase post_phase = true
phase_eq dynamic_phase dynamic_phase = true
phase_eq rollback_phase rollback_phase = true
phase_eq _ _ = false

-- The two results of a validator: whether the phase may run, and an error.
abbrev pub Verdict : Type 0
Verdict = Bool × Option Error

pub record Validator (W : Type 0) : Type 0 where
  pub func : W → Verdict × W
  pub phases : List Phase

-- The inner loop, which looks for the phase among those of a validator.
unfoldable pub should_run : Phase → List Phase → Bool
should_run phase [] = false
should_run phase (p ∷ ps) = phase_eq p phase || should_run phase ps

module _ {W : Type 0} where
  abbrev pub new_validator : (W → Verdict × W) → List Phase → Validator W
  new_validator f phases = record { func = f; phases = phases }

  unfoldable pub run_validators : Phase → List (Validator W) → W → Verdict × W
  run_validators phase [] w = ((true, none), w)
  run_validators phase (v ∷ vs) w = elim (should_run phase v.phases) [
    | false ↦ run_validators phase vs w
    | true ↦
        let ((valid, error), w') = v.func w in
        elim valid [ false ↦ ((false, error), w') | true ↦ run_validators phase vs w' ]
  ]
