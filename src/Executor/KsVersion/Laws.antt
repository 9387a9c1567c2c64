-- ===== src/Executor/KsVersion/Laws.antt =====
-- The version validator, and what the validators of `NewExecutor` leave alone.
use ks_upgrade.Base.{
  no_deployed_releases, release_not_found, message, described, not_exist, backup_key_not_found,
  backup_not_found, status, request_failure, no_match, aggregate, String, starts_with, Bool, true,
  false, if◌then◌else◌, List, [], ◌∷◌, ◌++◌, none, some, Error, ◌≡◌, refl, ap, some-eq, ◌∙◌, ◌↔◌,
  ◌⊎◌, inl, inr, Bool-cases, ok,
}
use ks_upgrade.Command.{run}
use ks_upgrade.Command.Laws.{run-ok}
use ks_upgrade.Config.{ValidatorConfig, KsVersionConfig}
use ks_upgrade.Executor.{Executor}
use ks_upgrade.Executor.Job.{NamedUpgradeJob}
use ks_upgrade.Executor.Validation.{
  Phase, prepare_phase, pre_phase, post_phase, dynamic_phase, rollback_phase, Verdict, Validator,
  new_validator, run_validators, should_run,
}
use ks_upgrade.Executor.KsVersion.{
  LastRelease, deployed, unavailable, no_release, version_verdict, validate_ks_version,
  new_validators,
}

-- The phases whose validators ask for the version.
abbrev pub is_checked : Phase → Bool
is_checked prepare_phase = true
is_checked pre_phase = true
is_checked post_phase = true
is_checked dynamic_phase = false
is_checked rollback_phase = false

run_validators-refused :
    {W : Type 0} (phase : Phase) (v : Validator W) (vs : List (Validator W)) (u w : W)
    → should_run phase v.phases ≡ true
    → v.func u ≡ ((false, none), w)
    → run_validators phase (v ∷ vs) u ≡ ((false, none), w)
unfolding run_validators
run_validators-refused {W} phase v vs u w asked refuses =
    rw (asked, run_validators)
      (rw refuses (ap (λ (a : Verdict × W). ((false, a.0.1), a.1)) refuses))

module _ {W : Type 0} (last_release : W → LastRelease × W) (museum : W → Verdict × W)
    (c : ValidatorConfig) (on : c.ks_version.enabled ≡ true) where
  abbrev pub executor : List (NamedUpgradeJob W) → Executor W
  executor jobs = record {
    sorted_jobs = jobs;
    validators = new_validators c (validate_ks_version last_release c.ks_version) museum;
  }

  version-refuses :
      (u w : W) (version : String)
      → last_release u ≡ (deployed version, w)
      → starts_with version "v3." ≡ false
      → validate_ks_version last_release c.ks_version u ≡ ((false, none), w)
  unfolding validate_ks_version
  version-refuses u w version found other =
      rw (on, validate_ks_version)
        (ap (λ (p : LastRelease × W). (version_verdict p.0, p.1)) found
          ∙ ap (λ b. ((b, none), w)) other)

  validators-refuse :
      (phase : Phase) (jobs : List (NamedUpgradeJob W)) (u w : W) (version : String)
      → is_checked phase ≡ true
      → last_release u ≡ (deployed version, w)
      → starts_with version "v3." ≡ false
      → run_validators phase (executor jobs).validators u ≡ ((false, none), w)
  unfolding new_validators
  validators-refuse phase jobs u w version checked found other =
      ap (λ (b : Bool). run_validators phase ((if b then version_validator ∷ [] else []) ++ rest) u)
        on
      ∙ run_validators-refused phase version_validator rest u w (asks phase checked)
          (version-refuses u w version found other)
    where
      version_validator : Validator W
      version_validator =
          new_validator (validate_ks_version last_release c.ks_version)
            (prepare_phase ∷ pre_phase ∷ post_phase ∷ [])

      rest : List (Validator W)
      rest = if c.extensions_museum.enabled then new_validator museum (post_phase ∷ []) ∷ [] else []

      asks :
          (p : Phase)
          → is_checked p ≡ true
          → should_run p (prepare_phase ∷ pre_phase ∷ post_phase ∷ []) ≡ true
      asks prepare_phase h = unfold should_run in refl
      asks pre_phase h = unfold should_run in refl
      asks post_phase h = unfold should_run in refl
      asks dynamic_phase h = cc
      asks rollback_phase h = cc

  -- Where the release that is deployed is not of version 3, the subcommands that prepare, precede
  -- and follow the upgrade succeed and run no job: the world is as the lookup of the release left it.
  pub run_other_version :
      (phase : Phase) (jobs : List (NamedUpgradeJob W)) (u w : W) (version : String)
      → is_checked phase ≡ true
      → last_release u ≡ (deployed version, w)
      → starts_with version "v3." ≡ false
      → run phase (executor jobs) u ≡ (ok tt, w)
  run_other_version phase jobs u w version checked found other =
      (run-ok phase (executor jobs) u w).1
        (inr (validators-refuse phase jobs u w version checked found other))

-- What the lookup of the release has to answer for a phase to start.
pub data Startable : LastRelease → Type 0 where
  has_version_3 :
      {version : String} → starts_with version "v3." ≡ true → Startable (deployed version)
  has_none_deployed : Startable (unavailable no_deployed_releases)
  has_none : Startable (unavailable release_not_found)

no_release-Startable : (e : Error) → no_release e ≡ true → Startable (unavailable e)
no_release-Startable no_deployed_releases h = has_none_deployed
no_release-Startable release_not_found h = has_none
no_release-Startable (message s) h = cc
no_release-Startable (described s x) h = cc
no_release-Startable not_exist h = cc
no_release-Startable backup_key_not_found h = cc
no_release-Startable backup_not_found h = cc
no_release-Startable (status r c) h = cc
no_release-Startable (request_failure n c) h = cc
no_release-Startable no_match h = cc
no_release-Startable (aggregate es) h = cc

Startable-version_verdict : (r : LastRelease) → ((version_verdict r).0 ≡ true) ↔ Startable r
unfolding version_verdict
Startable-version_verdict (deployed version) =
    (λ h. has_version_3 h, λ s. elim s [ has_version_3 h ↦ h ])
Startable-version_verdict (unavailable e) = elim (Bool-cases (no_release e)) [
  | inl missing ↦ rw (missing) (λ h. no_release-Startable e missing, λ s. refl)
  | inr fails ↦ rw (fails) (λ h. cc, λ s. startable_none e s fails)
]
  where
    startable_none : (e : Error) → Startable (unavailable e) → no_release e ≡ false → false ≡ true
    startable_none no_deployed_releases has_none_deployed h = cc
    startable_none release_not_found has_none h = cc
    startable_none (message t) s h = elim s [ ]
    startable_none (described t x) s h = elim s [ ]
    startable_none not_exist s h = elim s [ ]
    startable_none backup_key_not_found s h = elim s [ ]
    startable_none backup_not_found s h = elim s [ ]
    startable_none (status r c) s h = elim s [ ]
    startable_none (request_failure n c) s h = elim s [ ]
    startable_none no_match s h = elim s [ ]
    startable_none (aggregate es) s h = elim s [ ]

version_verdict-error :
    (r : LastRelease) (e : Error)
    → ((version_verdict r).1 ≡ some e) ↔ ((r ≡ unavailable e) × (¬ (Startable r)))
unfolding version_verdict
version_verdict-error (deployed version) e = (λ h. cc, λ p. cc)
version_verdict-error (unavailable x) e = elim (Bool-cases (no_release x)) [
  | inl missing ↦
      rw (missing)
        (λ h. cc, λ (same, not_startable). absurd (not_startable (no_release-Startable x missing)))
  | inr fails ↦ rw (fails) (
    λ h. (
      ap unavailable (some-eq h),
      λ s.
          let k = (Startable-version_verdict (unavailable x)).1 s in let k' = rw (fails) at k in cc,
    ),
    λ (same, _). let known : x ≡ e = cc in ap some known,
  )
]

-- The version validator lets a phase start exactly if it is disabled, or the lookup of the release
-- finds one of version 3, or says that there is no release or none that is deployed. It gives an
-- error exactly if it is enabled and the lookup fails otherwise, and then that of the lookup. Only an
-- enabled one looks the release up.
pub validate_ks_version_iff :
    {W : Type 0} (last_release : W → LastRelease × W) (c : KsVersionConfig) (u : W)
    → (((validate_ks_version last_release c u).0.0 ≡ true)
        ↔ ((c.enabled ≡ false) ⊎ Startable (last_release u).0))
      × ((e : Error)
          → ((validate_ks_version last_release c u).0.1 ≡ some e) ↔ (
              (c.enabled ≡ true)
              × ((last_release u).0 ≡ unavailable e)
              × (¬ (Startable (last_release u).0))))
      × ((validate_ks_version last_release c u).1 ≡ (if c.enabled then (last_release u).1 else u))
unfolding validate_ks_version
validate_ks_version_iff {W} last_release c u = elim (Bool-cases c.enabled) [
  | inr off ↦ rw (off) ((λ h. inl refl, λ h. refl), λ e. (λ h. cc, λ (on, _, _). cc), refl)
  | inl on ↦ rw (on) (
    (
      λ h. inr ((Startable-version_verdict (last_release u).0).0 h),
      λ h. elim h [ inl off ↦ cc | inr s ↦ (Startable-version_verdict (last_release u).0).1 s ],
    ),
    λ e. (
      λ h.
          let (same, other) = (version_verdict-error (last_release u).0 e).0 h in
          (refl, same, other),
      λ (_, same, other). (version_verdict-error (last_release u).0 e).1 (same, other),
    ),
    refl,
  )
]

-- The phases of the dynamic upgrade and of the rollback have no validator, whatever is configured.
pub validators-admit :
    {W : Type 0} (c : ValidatorConfig) (ks_version museum : W → Verdict × W) (u : W)
    → (run_validators dynamic_phase (new_validators c ks_version museum) u ≡ ((true, none), u))
      × (run_validators rollback_phase (new_validators c ks_version museum) u ≡ ((true, none), u))
unfolding new_validators run_validators should_run
validators-admit c ks_version museum u = elim (Bool-cases c.ks_version.enabled) [
  | inl on ↦ elim (Bool-cases c.extensions_museum.enabled) [
    | inl m ↦ rw (on, new_validators) (rw (m, new_validators) (refl, refl))
    | inr m ↦ rw (on, new_validators) (rw (m, new_validators) (refl, refl))
  ]
  | inr off ↦ elim (Bool-cases c.extensions_museum.enabled) [
    | inl m ↦ rw (off, new_validators) (rw (m, new_validators) (refl, refl))
    | inr m ↦ rw (off, new_validators) (rw (m, new_validators) (refl, refl))
  ]
]
