-- ===== src/Jobs/Monitoring/Stack.antt =====
-- pkg/jobs/monitoring/monitoring.go: the releases and objects of the stack of version 3, which are
-- kept and then removed.
pub mod Laws
use ks_upgrade.Base.{
  String, ◌<>◌, Bool, false, if◌then◌else◌, not, ◌&&◌, Option, none, some, List, message, Result,
  ok, err, and_then, is_backup_key_not_found, is_release_not_found, is_no_match,
}
use ks_upgrade.Base.Action.{Action, pure, raise, lift, ◌>>=◌, ◌>>◌, attempt}
use ks_upgrade.Base.Loops.{each}
use ks_upgrade.Config.Merge.{Value, flag}
use ks_upgrade.Storage.{Bytes, Storage}
use ks_upgrade.Store.{Codec, load, save, load_raw, save_raw}
use ks_upgrade.Jobs.Objects.{is_absent}
use ks_upgrade.Jobs.Monitoring.Objects.{Resource}

-- A configuration of a cluster: a value at a path that dots separate, as `NestedFieldCopy` reads it,
-- and the flag at a path, as `NestedBool` reads it.
pub record Configuration : Type 0 where
  pub nested_value : String → Result (Option Value)
  pub nested_bool : String → Result Bool

-- The releases of the exporters and of Whizard, each behind a flag of the configuration.
module _ {W : Type 0} (nested : Configuration) where
  unfoldable pub for_releases : (String → Action W (Unit {0})) → Bool → Action W (Unit {0})
  for_releases step is_host =
      lift (nested.nested_bool "spec.monitoring.process_exporter.enabled") >>= λ process.
      (if process then step "ks-process" else pure tt)
      >> lift (nested.nested_bool "spec.monitoring.calico_exporter.enabled")
      >>= λ calico.
          (if calico then step "ks-calico" else pure tt)
          >> lift (nested.nested_bool "spec.monitoring.whizard.enabled")
          >>= λ whizard. if whizard && is_host then step "whizard" else pure tt

module _ {W Release : Type 0} (s : Storage W) (status : String → Action W Release)
    (marshal : Release → Result Bytes) where
  -- A release that is not found, and one with a backup, are passed over.
  unfoldable pub backup_release : String → Action W (Unit {0})
  unfolding load_raw save_raw
  backup_release name =
      let key = "whizard-monitoring.helm.release-kubesphere-monitoring-system." <> name in
      attempt (load_raw s key) (λ _. pure tt)
        (λ e.
          if not (is_backup_key_not_found e)
          then raise e
          else attempt (status name)
              (λ release. lift (marshal release) >>= λ raw. save_raw s key raw)
              (λ f. if is_release_not_found f then pure tt else raise f))

unfoldable pub uninstall_release :
    {W : Type 0} → (String → Action W (Unit {0})) → String → Action W (Unit {0})
uninstall_release uninstall name =
    attempt (uninstall name) pure (λ e. if is_release_not_found e then pure tt else raise e)

abbrev pub object_key : Resource → String × String → String
object_key r (space, name) =
    "whizard-monitoring-" <> r.group <> "." <> r.version <> "." <> r.resource <> "-" <> space <> "."
    <> name

-- The objects of the stack. `kind_for` gives the kind of a resource, and `with_kind` sets it, which
-- is the empty one where no kind matches.
module _ {W Kind Untyped : Type 0} (s : Storage W) (codec : Codec Untyped)
    (kind_for : Resource → Action W Kind) (with_kind : Option Kind → Untyped → Untyped)
    (get : Resource → String × String → Action W Untyped) where
  unfoldable pub backup_stack_object :
      Resource → Option Kind → String × String → Action W (Unit {0})
  unfolding load save
  backup_stack_object r kind name =
      attempt (load s codec (object_key r name)) (λ _. pure tt)
        (λ e.
          if not (is_backup_key_not_found e)
          then raise e
          else attempt (get r name) (λ o. save s codec (object_key r name) (with_kind kind o))
              (λ f. if is_absent f then pure tt else raise f))

  unfoldable pub backup_resource : Resource → Action W (Unit {0})
  unfolding backup_stack_object
  backup_resource r =
      attempt (kind_for r) (λ kind. each (backup_stack_object r (some kind)) r.objects)
        (λ e. if not (is_no_match e) then raise e else each (backup_stack_object r none) r.objects)

  unfoldable pub backup_stack : List Resource → Action W (Unit {0})
  unfolding backup_resource
  backup_stack resources = each backup_resource resources

module _ {W : Type 0} (delete : Resource → String × String → Action W (Unit {0})) where
  unfoldable pub delete_stack_object : Resource → String × String → Action W (Unit {0})
  delete_stack_object r name =
      attempt (delete r name) pure (λ e. if is_absent e then pure tt else raise e)

  unfoldable pub delete_stack : List Resource → Action W (Unit {0})
  unfolding delete_stack_object
  delete_stack resources = each (λ r. each (delete_stack_object r) r.objects) resources
