-- ===== src/Jobs/Iam/Phases/Laws.antt =====
-- The phases of the job: what one that succeeded has done, and that it may be run again.
use ks_upgrade.Base.{
  String, ◌≡◌, ap, ◌∙◌, ◌⊎◌, inl, inr, ℤ, true, Bool-cases, if◌then◌else◌, List, [], ◌∷◌, Result,
  ok, ◌==◌,
}
use ks_upgrade.Base.Action.{Action, pure, ◌>>◌, bind-eq-ok}
use ks_upgrade.Base.Dict.{Dict}
use ks_upgrade.Base.Loops.{InOrder, then-InOrder, ran, done}
use ks_upgrade.Storage.{Rereads, Storage, Keeps}
use ks_upgrade.Store.{Codec}
use ks_upgrade.Jobs.Iam.ObjectHelper.{MultiVersion}
use ks_upgrade.Jobs.Iam.Phases.{Steps, with_builtin, prepare_upgrade, pre_upgrade, post_upgrade}
use ks_upgrade.Jobs.Iam.Status.{
  UpgradeStatus, staged, get_upgrade_status, set_upgrade_status, upgrade_status_success,
}
use ks_upgrade.Jobs.Iam.Status.Laws.{WritesStatus, staged_again}

module _ {W : Type 0} (s : Storage W) (json : Codec UpgradeStatus) (keeps : Keeps s)
    (rereads : Rereads s) (writes : WritesStatus json) where
  -- If the storage keeps what was put and reads again what it read, and the status of a
  -- success can be written and read, each phase of the job that ended without an error is skipped when it is run again,
  -- later and whatever its steps would do: it succeeds and changes nothing.
  pub phases_again :
      (now now' : W → ℤ) (steps steps' : Steps W) (u w : W)
      → (prepare_upgrade s json now steps u ≡ (ok tt, w)
          → prepare_upgrade s json now' steps' w ≡ (ok tt, w))
        × (pre_upgrade s json now steps u ≡ (ok tt, w)
            → pre_upgrade s json now' steps' w ≡ (ok tt, w))
        × (post_upgrade s json now steps u ≡ (ok tt, w)
            → post_upgrade s json now' steps' w ≡ (ok tt, w))
  unfolding prepare_upgrade pre_upgrade post_upgrade
  phases_again now now' steps steps' u w = (
    λ h. staged_again s json keeps rereads writes now now' "prepare-upgrade" _ _ u w h,
    λ h. staged_again s json keeps rereads writes now now' "pre-upgrade" _ _ u w h,
    λ h. staged_again s json keeps rereads writes now now' "post-upgrade" _ _ u w h,
  )

module _ {W : Type 0} (s : Storage W) (json : Codec UpgradeStatus) (now : W → ℤ) where
  -- The status of a stage was read, and is that of a success.
  abbrev pub Skipped : String → W → W → Type 0
  Skipped staging u w =
      (status : UpgradeStatus) × (get_upgrade_status s json staging u ≡ (ok status, w))
      × ((status.status == upgrade_status_success) ≡ true)

  staged-ok :
      (staging : String) (steps : Action W (Unit {0})) (u w : W)
      → staged s json now staging steps u ≡ (ok tt, w)
      → Skipped staging u w
        ⊎ ((v v' : W) × (steps v ≡ (ok tt, v'))
            × (set_upgrade_status s json now staging upgrade_status_success v' ≡ (ok tt, w)))
  unfolding staged
  staged-ok staging steps u w h =
      let (status, v, got, rest) =
        bind-eq-ok (get_upgrade_status s json staging)
          (λ status.
            if status.status == upgrade_status_success
            then pure tt
            else steps >> set_upgrade_status s json now staging upgrade_status_success)
          h in
      elim (Bool-cases (status.status == upgrade_status_success)) [
        | inl success ↦
            let k = rw (success) at rest in
            inl (status, got ∙ ap (λ (p : Result (Unit {0}) × W). (ok status, p.1)) k, success)
        | inr other ↦
            let k = rw (other) at rest in
            let (x, v', did, set) =
              bind-eq-ok steps (λ _. set_upgrade_status s json now staging upgrade_status_success)
                k in
            inr (v, v', did, set)
      ]

  -- The steps of the pre-upgrade behind the object helper, in their order.
  abbrev pub pre_steps : Steps W → Dict MultiVersion → List (Action W (Unit {0}))
  pre_steps steps helper =
      steps.store_object
      ∷ steps.data_migration (with_builtin helper)
      ∷ steps.delete_role_templates (with_builtin helper)
      ∷ steps.delete_legacy_roles
      ∷ steps.remove_kube_fed_resources
      ∷ steps.migrate_identity_providers
      ∷ []

  -- If the pre-upgrade of the job succeeds, its success was recorded before; or the object helper
  -- was made, and with it the objects were stored and then migrated, the role templates, legacy
  -- roles and federated resources were removed and the identity providers migrated, each without
  -- an error and in this order, and then the success was recorded.
  pub pre_upgrade-ok :
      (steps : Steps W) (u w : W)
      → pre_upgrade s json now steps u ≡ (ok tt, w)
      → Skipped "pre-upgrade" u w
        ⊎ ((helper : Dict MultiVersion) × (v v1 v2 : W) × (steps.new_object_helper v
              ≡ (ok helper, v1))
            × InOrder (pre_steps steps helper) v1 v2
            × (set_upgrade_status s json now "pre-upgrade" upgrade_status_success v2 ≡ (ok tt, w)))
  unfolding pre_upgrade
  pre_upgrade-ok steps u w h = elim (staged-ok "pre-upgrade" _ u w h) [
    | inl skipped ↦ inl skipped
    | inr (v, v2, all, set) ↦
        let (helper, v1, made, rest) =
          bind-eq-ok steps.new_object_helper
            (λ helper.
              steps.store_object
              >> steps.data_migration (with_builtin helper)
              >> steps.delete_role_templates (with_builtin helper)
              >> steps.delete_legacy_roles
              >> steps.remove_kube_fed_resources
              >> steps.migrate_identity_providers)
            all in
        inr (helper, v, v1, v2, made, in_order steps helper v1 v2 rest, set)
  ]
    where
      in_order :
          (steps : Steps W) (helper : Dict MultiVersion) (u w : W)
          → (steps.store_object
                >> steps.data_migration (with_builtin helper)
                >> steps.delete_role_templates (with_builtin helper)
                >> steps.delete_legacy_roles
                >> steps.remove_kube_fed_resources
                >> steps.migrate_identity_providers)
              u
            ≡ (ok tt, w)
          → InOrder (pre_steps steps helper) u w
      in_order steps helper = then-InOrder _ _ _ (
          then-InOrder _ _ _ (
            then-InOrder _ _ _ (
              then-InOrder _ _ _ (then-InOrder (steps.store_object ∷ []) _ _ λ u v h. ran h done))))
