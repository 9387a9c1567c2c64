-- ===== src/Jobs/Core/Phases/Laws.antt =====
-- What a phase that succeeded has gone through, and the message of one that failed.
use ks_upgrade.Base.{String, ◌≡◌, List, [], ◌∷◌, ◌++◌, described, Result, ok, err, panic}
use ks_upgrade.Base.Action.{Action, pure, raise, ◌>>◌, on_result, bind-eq-ok}
use ks_upgrade.Base.Loops.{Ran-snoc, Ran-append, done, ran, InOrder, then-InOrder}
use ks_upgrade.Jobs.Core.Phases.{Steps, labelled, prepare_upgrade, pre_upgrade, post_upgrade}

labelled-ok :
    {W : Type 0} (text : String) (m : Action W (Unit {0})) (u w : W)
    → labelled text m u ≡ (ok tt, w)
    → m u ≡ (ok tt, w)
labelled-ok {W} text m u w h = go (m u) h
  where
    go :
        (p : Result (Unit {0}) × W)
        → ◌≡◌ {A = Result (Unit {0}) × W}
            (on_result p.0 pure (λ e. raise (described text e)) p.1)
            (ok tt, w)
        → p ≡ (ok tt, w)
    go (ok x, v) h = h
    go (err e, v) h = cc
    go (panic, v) h = cc

module _ {W : Type 0} where
  -- One action with a message of its own, and a sequence of actions and one more with such a one.
  one_labelled-InOrder :
      (text : String) (m : Action W (Unit {0})) (u v : W)
      → labelled text m u ≡ (ok tt, v)
      → InOrder (m ∷ []) u v
  one_labelled-InOrder text m u v h = ran (labelled-ok text m u v h) done

  then_labelled-InOrder :
      (xs : List (Action W (Unit {0}))) (text : String) (m n : Action W (Unit {0}))
      → ((u v : W) → m u ≡ (ok tt, v) → InOrder xs u v)
      → (u w : W) → (m >> labelled text n) u ≡ (ok tt, w)
      → InOrder (xs ++ n ∷ []) u w
  then_labelled-InOrder xs text m n before u w h =
      let (x, v, first, last) = bind-eq-ok m (λ _. labelled text n) h in
      Ran-snoc (λ m. m) (before u v first) (labelled-ok text n v w last)

  abbrev pub prepare_steps : Steps W → List (Action W (Unit {0}))
  prepare_steps steps =
      steps.scale_down_deployments ∷ steps.remove_namespace_owner_reference
      ∷ steps.delete_kube_sphere_webhook ∷ steps.refresh_host_cluster_kube_config
      ∷ steps.network_prepare_upgrade ∷ steps.patch_system_workspace_template
      ∷ steps.delete_system_workspace_template_in_member_cluster ∷ []

  abbrev pub pre_steps : Steps W → List (Action W (Unit {0}))
  pre_steps steps =
      steps.validate_cluster_role ∷ steps.patch_upgrade_job_pv ∷ steps.backup_kube_sphere_config
      ∷ steps.update_member_clusters ∷ steps.delete_kube_sphere_resource
      ∷ steps.update_namespace_labels ∷ steps.update_workspace_placement ∷ []

  prepare_upgrade-InOrder :
      (steps : Steps W) (u w : W)
      → prepare_upgrade steps u ≡ (ok tt, w)
      → InOrder (prepare_steps steps) u w
  unfolding prepare_upgrade
  prepare_upgrade-InOrder steps = then_labelled-InOrder _ _ _ _ (
      then_labelled-InOrder _ _ _ _ (
        then_labelled-InOrder _ _ _ _ (
          then_labelled-InOrder _ _ _ _ (
            then_labelled-InOrder _ _ _ _
              (then_labelled-InOrder _ _ _ _ (one_labelled-InOrder _ _))))))

  pre_upgrade-InOrder :
      (steps : Steps W) (u w : W) → pre_upgrade steps u ≡ (ok tt, w) → InOrder (pre_steps steps) u w
  unfolding pre_upgrade
  pre_upgrade-InOrder steps = then-InOrder _ _ _ (
      then-InOrder _ _ _ (
        then-InOrder _ _ _ (
          then-InOrder _ _ _
            (then_labelled-InOrder _ _ _ _ (then-InOrder _ _ _ (one_labelled-InOrder _ _))))))

  abbrev pub upgrade_steps : Steps W → List (Action W (Unit {0}))
  upgrade_steps steps =
      prepare_steps steps ++ pre_steps steps ++ steps.patch_workspace_templates ∷ []

  -- If the preparation, the pre-upgrade and the post-upgrade of the job succeed one behind the
  -- other, all their steps ran, each without an error and in the order of the code.
  pub upgrade_phases-ok :
      (steps : Steps W) (u v v' w : W)
      → prepare_upgrade steps u ≡ (ok tt, v)
      → pre_upgrade steps v ≡ (ok tt, v')
      → post_upgrade steps v' ≡ (ok tt, w)
      → InOrder (upgrade_steps steps) u w
  unfolding post_upgrade
  upgrade_phases-ok steps u v v' w prepared preceded followed =
      Ran-append (λ m. m) (prepare_upgrade-InOrder steps u v prepared)
        (Ran-append (λ m. m) (pre_upgrade-InOrder steps v v' preceded)
          (one_labelled-InOrder _ _ v' w followed))
