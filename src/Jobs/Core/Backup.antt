-- ===== src/Jobs/Core/Backup.antt =====
-- pkg/jobs/core/core.go: the webhooks and deployments that are kept in the resource store and then
-- deleted, and their recovery by a rollback.
pub mod Laws
pub mod Recovery
use ks_upgrade.Jobs.Objects.{
  OwnerReference, ObjectMeta, Object, Api, is_empty, is_set, entries, text_of, is_absent,
}
use ks_upgrade.Base.{
  String, ℤ, Bool, true, false, if◌then◌else◌, ◌&&◌, not, Option, none, some, List, [], ◌∷◌, ◌++◌,
  Error, Result, ok, err, panic, is_backup_key_not_found, is_not_found, ◌==◌, select,
}
use ks_upgrade.Base.Action.{Action, pure, raise, lift, ◌>>=◌, ◌>>◌, attempt}
use ks_upgrade.Base.Loops.{each}
use ks_upgrade.Storage.{Storage}
use ks_upgrade.Store.{Codec, load, save}
use ks_upgrade.Jobs.Core.Objects.{Webhook, Deployment}

abbrev pub validating_webhook_backup_key : String
validating_webhook_backup_key = "core.validatingwebhookconfigurations.admissionregistration.k8s.io"

abbrev pub mutating_webhook_backup_key : String
mutating_webhook_backup_key = "core.mutatingwebhookconfigurations.admissionregistration.k8s.io"

abbrev pub system_resource_backup_key : String
system_resource_backup_key = "core.resource.kubesphere.system"

-- What is patched where an object has finalizers: its copy without them, marked as deleted.
abbrev pub finalized : {S : Type 0} → ℤ → Object S → Object S
finalized time o = record o {
  meta = record o.meta { finalizers = []; deletion_timestamp = some time };
}

abbrev pub unversioned : {S : Type 0} → Object S → Object S
unversioned o = record o { meta = record o.meta { resource_version = "" } }

module _ {W S : Type 0} (api : Api W S) where
  unfoldable pub delete_object : (W → ℤ) → Object S → Action W (Unit {0})
  delete_object now o w =
      ((if is_empty o.meta.finalizers then pure tt else api.patch (finalized (now w) o) o)
          >> api.delete o)
        w

  -- An object that is there is left as it is.
  unfoldable pub recover_object : Object S → Action W (Unit {0})
  recover_object o =
      attempt (api.get o.meta.namespace o.meta.name) (λ _. pure tt)
        (λ e. if is_not_found e then api.create (unversioned o) else raise e)

module _ {W S : Type 0} (s : Storage W) (codec : Codec (List (Object S))) where
  -- The backup of what is chosen of the objects that are there. Where a backup is found, nothing
  -- is read, and nothing is left to delete.
  unfoldable pub back_up :
      Action W (List (Object S))
      → String
      → (List (Object S) → List (Object S))
      → Action W (List (Object S))
  unfolding load save
  back_up list key chosen =
      attempt (load s codec key) (λ _. pure [])
        (λ e.
          if is_backup_key_not_found e
          then (list >>= λ items. save s codec key (chosen items) >> pure (chosen items))
          else raise e)

  -- What is done with a backup; without one, nothing.
  unfoldable pub with_backup :
      String → (List (Object S) → Action W (Unit {0})) → Action W (Unit {0})
  unfolding load
  with_backup key then_recover =
      attempt (load s codec key) then_recover
        (λ e. if is_backup_key_not_found e then pure tt else raise e)

-- The condition on the first entry of a webhook configuration.
abbrev pub is_controller_webhook : Object (List Webhook) → Bool
is_controller_webhook o = elim o.spec [
  | [] ↦ false
  | webhook ∷ webhooks ↦ elim webhook.service [
    | none ↦ false
    | some service ↦
        (service.name == "ks-controller-manager") && (service.namespace == "kubesphere-system")
  ]
]

-- The loop over the mutating webhooks, with the list that was read and the backup: it appends to
-- the list that was read.
unfoldable pub collect_mutating :
    List (Object (List Webhook))
    → List (Object (List Webhook)) × List (Object (List Webhook))
    → List (Object (List Webhook)) × List (Object (List Webhook))
collect_mutating [] (items, backup) = (items, backup)
collect_mutating (w ∷ webhooks) (items, backup) =
    collect_mutating webhooks (if is_controller_webhook w then items ++ w ∷ [] else items, backup)

unfoldable pub mutating_backup : List (Object (List Webhook)) → List (Object (List Webhook))
unfolding collect_mutating
mutating_backup items = (collect_mutating items (items, [])).1

-- The loop that logs the policies reads each through its pointer.
unfoldable pub check_policies : List Webhook → Result (Unit {0})
check_policies [] = ok tt
check_policies (w ∷ webhooks) =
    let rest = check_policies webhooks in
    elim w.failure_policy [ none ↦ panic | some policy ↦ rest ]

unfoldable pub delete_webhook :
    {W : Type 0} → Api W (List Webhook) → (W → ℤ) → Object (List Webhook) → Action W (Unit {0})
unfolding delete_object check_policies
delete_webhook api now o = lift (check_policies o.spec) >> delete_object api now o

-- Only the installer is deleted.
unfoldable pub delete_installer :
    {W : Type 0} → Api W Deployment → (W → ℤ) → Object Deployment → Action W (Unit {0})
unfolding delete_object
delete_installer deployments now o =
    if o.meta.name == "ks-installer" then delete_object deployments now o else pure tt

module _ {W : Type 0} (s : Storage W) (codec_v codec_m : Codec (List (Object (List Webhook))))
    (validating mutating : Api W (List Webhook)) where
  unfoldable pub delete_kube_sphere_webhook : (W → ℤ) → Action W (Unit {0})
  unfolding back_up mutating_backup delete_webhook
  delete_kube_sphere_webhook now =
      back_up s codec_v validating.list validating_webhook_backup_key (select is_controller_webhook)
      >>= λ v. back_up s codec_m mutating.list mutating_webhook_backup_key mutating_backup >>= λ m.
          each (delete_webhook validating now) v >> each (delete_webhook mutating now) m

  unfoldable pub recover_kube_sphere_webhook : Action W (Unit {0})
  unfolding with_backup recover_object
  recover_kube_sphere_webhook = with_backup s codec_v validating_webhook_backup_key λ v.
      with_backup s codec_m mutating_webhook_backup_key
        λ m. each (recover_object validating) v >> each (recover_object mutating) m

module _ {W : Type 0} (s : Storage W) (codec : Codec (List (Object Deployment)))
    (deployments : Api W Deployment) where
  unfoldable pub delete_kube_sphere_resource : (W → ℤ) → Action W (Unit {0})
  unfolding back_up delete_installer
  delete_kube_sphere_resource now =
      back_up s codec deployments.list system_resource_backup_key (λ items. items) >>= λ items.
      each (delete_installer deployments now) items

  unfoldable pub recover_kube_sphere_resource : Action W (Unit {0})
  unfolding with_backup recover_object
  recover_kube_sphere_resource =
      with_backup s codec system_resource_backup_key (each (recover_object deployments))
