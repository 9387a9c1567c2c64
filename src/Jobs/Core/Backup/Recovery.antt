-- ===== src/Jobs/Core/Backup/Recovery.antt =====
-- The deployments that come back, and the mutating webhooks that are left alone.
use ks_upgrade.Jobs.Objects.{Object, Api}
use ks_upgrade.Base.{
  String, ℤ, ◌≡◌, refl, ap, sym, subst, ◌∙◌, inl, inr, Bool-cases, if◌then◌else◌, All, List, [],
  ◌∷◌, ◌++◌, Error, Result, ok, err, panic, ◌==◌, select,
}
use ks_upgrade.Base.Action.{Action, ◌>>=◌, ◌>>◌, continue, bind-eq-ok}
use ks_upgrade.Base.Loops.{each, each-ok, Ran-keeps}
use ks_upgrade.Storage.{Bytes, Storage, Keeps}
use ks_upgrade.Store.{Codec, load}
use ks_upgrade.Jobs.Core.Objects.{Webhook, Deployment}
use ks_upgrade.Jobs.Core.Backup.{
  system_resource_backup_key, validating_webhook_backup_key, mutating_webhook_backup_key,
  recover_object, back_up, is_controller_webhook, collect_mutating, mutating_backup, delete_webhook,
  delete_kube_sphere_webhook, delete_installer, delete_kube_sphere_resource,
  recover_kube_sphere_resource,
}
use ks_upgrade.Jobs.Core.Backup.Laws.{
  Presence, recover_object-All, back_up-ok, with_backup-found, Stored, save-Stored, Stored-load,
  SeparateFrom, delete_object_keeps,
}

module _ {W : Type 0} (s : Storage W) (codec : Codec (List (Object Deployment)))
    (deployments : Api W Deployment) (apart : SeparateFrom deployments s) (keeps : Keeps s)
    (reads : (items : List (Object Deployment)) (raw : Bytes)
      → codec.marshal items ≡ ok raw
      → codec.decode raw ≡ ok items) where
  delete_installer_keeps :
      (now : W → ℤ) (key : String) (raw : Bytes) (o : Object Deployment) (u w : W)
      → delete_installer deployments now o u ≡ (ok tt, w)
      → s.get key u ≡ (ok raw, u)
      → s.get key w ≡ (ok raw, w)
  unfolding delete_installer
  delete_installer_keeps now key raw o u w h p = elim (Bool-cases (o.meta.name == "ks-installer")) [
    | inl it_is ↦ delete_object_keeps s deployments apart now o key raw u w (rw (it_is) at h) p
    | inr other ↦
        let k = rw (other) at h in
        subst (λ (x : W). s.get key x ≡ (ok raw, x)) (ap (λ (q : Result (Unit {0}) × W). q.1) k) p
  ]

  -- A deletion that found no backup has saved the deployments that it listed.
  delete_kube_sphere_resource-Stored :
      (now : W → ℤ) (u v w : W) (e : Error)
      → load s codec system_resource_backup_key u ≡ (err e, v)
      → delete_kube_sphere_resource s codec deployments now u ≡ (ok tt, w)
      → (items : List (Object Deployment)) × (v' : W) × (deployments.list v ≡ (ok items, v'))
        × Stored s codec system_resource_backup_key items w
  unfolding delete_kube_sphere_resource
  delete_kube_sphere_resource-Stored now u v w e missing h =
      let (m, v1, backed, deleted) =
        bind-eq-ok (back_up s codec deployments.list system_resource_backup_key (λ items. items))
          (λ items. each (delete_installer deployments now) items) h in
      let ran = each-ok (delete_installer deployments now) m v1 w deleted in
      elim (back_up-ok s codec deployments.list system_resource_backup_key (λ items. items) m u v1
        backed) [
          | inl (old, found, same) ↦ cc
          | inr (e', v2, v3, items, e_is, listed, saved, same) ↦
              let (raw, got, read) =
                save-Stored s codec system_resource_backup_key items v3 v1 keeps (reads items)
                  saved in
              let kept =
                Ran-keeps (delete_installer deployments now)
                  (λ x. s.get system_resource_backup_key x ≡ (ok raw, x))
                  (delete_installer_keeps now system_resource_backup_key raw) ran got in
              (
                items,
                v3,
                subst (λ (x : W). deployments.list x ≡ (ok items, v3))
                    (ap (λ (q : Result (List (Object Deployment)) × W). q.1) (sym e_is ∙ missing))
                    listed,
                (raw, kept, read),
              )
        ]

  -- If the storage keeps what was put and is apart from the deployments, the decoder reads what
  -- Marshal wrote, and an object that was read or created is there, then behind a deletion that
  -- found no backup, and a rollback, that both succeeded, every deployment is there that was
  -- listed before the deletion.
  pub recover_kube_sphere_resource_restores :
      (Present : String → String → W → Type 0)
      → Presence deployments Present
      → (now : W → ℤ) (u v w w' : W) (e : Error)
      → load s codec system_resource_backup_key u ≡ (err e, v)
      → delete_kube_sphere_resource s codec deployments now u ≡ (ok tt, w)
      → recover_kube_sphere_resource s codec deployments w ≡ (ok tt, w')
      → (items : List (Object Deployment)) × (v' : W) × (deployments.list v ≡ (ok items, v'))
        × All (λ o. Present o.meta.namespace o.meta.name w') items
  unfolding recover_kube_sphere_resource
  recover_kube_sphere_resource_restores Present laws now u v w w' e missing h k =
      let (items, v', listed, stored) = delete_kube_sphere_resource-Stored now u v w e missing h in
      (
        items,
        v',
        listed,
        recover_object-All deployments Present laws items w w' (
            sym (
              with_backup-found s codec system_resource_backup_key
                (each (recover_object deployments)) items w w
                (Stored-load s codec system_resource_backup_key items w stored))
            ∙ k),
      )

collect_mutating-backup :
    (webhooks items backup : List (Object (List Webhook)))
    → (collect_mutating webhooks (items, backup)).1 ≡ backup
unfolding collect_mutating
collect_mutating-backup [] items backup = refl
collect_mutating-backup (w ∷ webhooks) items backup =
    collect_mutating-backup webhooks (if is_controller_webhook w then items ++ w ∷ [] else items)
      backup

-- The calls that change a mutating webhook, replaced by others.
abbrev pub with_changes :
    {W : Type 0}
    → Api W (List Webhook)
    → (Object (List Webhook) → Object (List Webhook) → Action W (Unit {0}))
    → (Object (List Webhook) → Action W (Unit {0}))
    → Api W (List Webhook)
with_changes api patch delete = record api { patch = patch; delete = delete }

module _ {W : Type 0} (s : Storage W) (codec_v codec_m : Codec (List (Object (List Webhook))))
    (validating mutating : Api W (List Webhook)) where
  back_up_mutating :
      (m : List (Object (List Webhook))) (u w : W)
      → back_up s codec_m mutating.list mutating_webhook_backup_key mutating_backup u ≡ (ok m, w)
      → m ≡ []
  unfolding mutating_backup
  back_up_mutating m u w h =
      elim (back_up-ok s codec_m mutating.list mutating_webhook_backup_key mutating_backup m u w
        h) [
          | inl (old, found, nothing) ↦ nothing
          | inr (e, v, v', items, missing, listed, saved, chosen) ↦
              chosen ∙ collect_mutating-backup items items []
        ]

  -- Whatever a patch and a deletion of a mutating webhook would do, the deletion of the webhooks
  -- does the same: it calls neither, since its backup of mutating webhooks is always empty.
  pub delete_kube_sphere_webhook_mutating :
      (now : W → ℤ) (patch : Object (List Webhook) → Object (List Webhook) → Action W (Unit {0}))
      (delete : Object (List Webhook) → Action W (Unit {0})) (u : W)
      → delete_kube_sphere_webhook s codec_v codec_m validating mutating now u
        ≡ delete_kube_sphere_webhook s codec_v codec_m validating
            (with_changes mutating patch delete)
            now
            u
  unfolding delete_kube_sphere_webhook each
  delete_kube_sphere_webhook_mutating now patch delete u = first (
      back_up s codec_v validating.list validating_webhook_backup_key (select is_controller_webhook)
        u)
    where
      changed : Api W (List Webhook)
      changed = with_changes mutating patch delete

      after : Api W (List Webhook) → List (Object (List Webhook)) → Action W (Unit {0})
      after api v = back_up s codec_m api.list mutating_webhook_backup_key mutating_backup >>= λ m.
          each (delete_webhook validating now) v >> each (delete_webhook api now) m

      second :
          (v : List (Object (List Webhook))) (x : W) (q : Result (List (Object (List Webhook))) × W)
          → back_up s codec_m mutating.list mutating_webhook_backup_key mutating_backup x ≡ q
          → ◌≡◌ {A = Result (Unit {0}) × W}
              (continue q.0
                (λ m.
                  each (delete_webhook validating now) v >> each (delete_webhook mutating now) m)
                q.1)
              (continue q.0
                (λ m. each (delete_webhook validating now) v >> each (delete_webhook changed now) m)
                q.1)
      second v x (ok m, y) e = rw (back_up_mutating m x y e) refl
      second v x (err f, y) e = refl
      second v x (panic, y) e = refl

      first :
          (p : Result (List (Object (List Webhook))) × W)
          → continue p.0 (after mutating) p.1 ≡ continue p.0 (after changed) p.1
      first (ok v, x) =
          second v x (back_up s codec_m mutating.list mutating_webhook_backup_key mutating_backup x)
            refl
      first (err f, x) = refl
      first (panic, x) = refl
