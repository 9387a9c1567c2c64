-- ===== src/Jobs/Gateway/Phases.antt =====
-- pkg/jobs/gateway/gateway.go: the phases of the job.
pub mod Laws
use ks_upgrade.Base.{
  String, ◌<>◌, Bool, true, false, if◌then◌else◌, Option, none, some, List, [], ◌∷◌, Error, message,
  described, Result, ok, err, panic, is_already_exists, is_release_not_found, ◌==◌,
}
use ks_upgrade.Base.Action.{Action, pure, raise, lift, ◌>>=◌, ◌>>◌, attempt}
use ks_upgrade.Config.Merge.{Fields, Value, str, flag, object, field, end}
use ks_upgrade.Core.{ExtensionRef}
use ks_upgrade.Executor.Job.{UpgradeJob}
use ks_upgrade.Storage.{Bytes, Storage}
use ks_upgrade.Jobs.Objects.{ObjectMeta, Object}
use ks_upgrade.Jobs.Done.{unless_done, save_done}
use ks_upgrade.Jobs.Gateway.Objects.{GatewayOptions, GatewaySpec}
use ks_upgrade.Jobs.Gateway.Convert.{nested_string, new_name, find_named}
use ks_upgrade.Jobs.Gateway.Clean.{Release, release_ready}

abbrev pub one : String → Value → Value
one name value = object (field name value end)

abbrev pub new_gateway_config : String → String → Fields
new_gateway_config namespace repository =
    field "backend"
      (object (
        field "config"
          (one "gateway" (
            object (
              field "namespace" (str namespace) (
                field "valuesOverride"
                  (one "controller" (one "image" (one "repository" (str repository)))) end))))
          (field "upgrade" (one "enabled" (flag true)) end)))
      end

module _ {W Raw : Type 0} (get_config : Action W Fields) (marshal : Fields → Result String) where
  unfoldable pub setting_extension_config : ExtensionRef Raw → Action W (ExtensionRef Raw)
  setting_extension_config extension = get_config >>= λ old.
      lift (nested_string "namespace" old) >>= λ namespace.
      lift (nested_string "repository" old) >>= λ repository.
      lift (marshal (new_gateway_config namespace repository)) >>= λ text.
      pure (record extension { config = text })

  -- `schedule` is `GenerateClusterScheduling` with every cluster enabled, and `create_plan` is
  -- `CreateInstallPlanFromExtensionRef`.
  unfoldable pub is_host_and_create_install_plan :
      Action W Bool
      → (ExtensionRef Raw → Action W (ExtensionRef Raw))
      → (ExtensionRef Raw → Action W (Unit {0}))
      → ExtensionRef Raw
      → Action W (Unit {0})
  unfolding setting_extension_config
  is_host_and_create_install_plan is_host schedule create_plan extension = is_host >>= λ host.
      if host
      then (setting_extension_config extension >>= schedule >>= λ scheduled.
          attempt (create_plan scheduled) pure
            (λ e. if is_already_exists e then pure tt else raise e))
      else pure tt

-- The methods that the phases call.
pub record Steps (W : Type 0) : Type 0 where
  pub backup_config : Action W (Unit {0})
  pub backup_ingress : Action W (Unit {0})
  pub backup_gateways : Action W (Unit {0})
  pub backup_nginxes : Action W (Unit {0})
  pub backup_crds : Action W (Unit {0})
  pub clean_prometheus_rule : Action W (Unit {0})
  pub create_install_plan : Action W (Unit {0})
  pub clean_gateways : Action W (Unit {0})
  pub apply_crd : Action W (Unit {0})
  pub wait_for_crd : Action W (Unit {0})
  pub sync_helm_chart : Action W (Unit {0})

-- `klog.Fatalf` ends the program.
abbrev pub fatal : {W : Type 0} → Error → Action W (Unit {0})
fatal e w = (panic, w)

module _ {W : Type 0} (s : Storage W) (now : W → Bytes) (options : GatewayOptions)
    (steps : Steps W) where
  unfoldable pub gateway_pre_upgrade : Action W (Unit {0})
  unfolding unless_done
  gateway_pre_upgrade = unless_done s options.rerun "gateway-done" (
      steps.backup_config >> steps.backup_ingress >> steps.backup_gateways >> steps.backup_nginxes
      >> steps.backup_crds)

  unfoldable pub gateway_post_upgrade : Action W (Unit {0})
  unfolding unless_done save_done
  gateway_post_upgrade = unless_done s options.rerun "gateway-done" (
      steps.clean_prometheus_rule
      >> steps.create_install_plan
      >> steps.clean_gateways
      >> steps.apply_crd
      >> attempt steps.wait_for_crd pure fatal
      >> steps.sync_helm_chart
      >> save_done s now "gateway-done")

-- The release that is waited for: its namespace and name, both empty where no gateway is found.
abbrev pub release_of : {S : Type 0} → Option (Object S) → String × String
release_of none = ("", "")
release_of (some o) = (o.meta.namespace, new_name o)

module _ {W Raw : Type 0} (load : Action W (List (Object (GatewaySpec Raw))))
    (uninstall : String → String → Action W (Unit {0}))
    (get_release : String → String → Action W Release)
    (poll_immediate : Action W Bool → Action W (Unit {0}))
    (upgrade_gateway upgrade_ingress : String → Action W (Unit {0})) where
  unfoldable pub upgrade_found_gateway : String → String × String → Action W (Unit {0})
  unfolding release_ready
  upgrade_found_gateway name (space, release) =
      attempt (uninstall space (name <> "-ingress")) pure
        (λ e. if is_release_not_found e then pure tt else raise e)
      >> upgrade_gateway name
      >> attempt (poll_immediate (release_ready (get_release space release))) pure
          (λ e. raise (described "Error waiting for ingress-nginx helm release upgrade done" e))
      >> upgrade_ingress name

  unfoldable pub gateway_dynamic_upgrade : GatewayOptions → Action W (Unit {0})
  unfolding upgrade_found_gateway find_named
  gateway_dynamic_upgrade options =
      if options.gateway_name == ""
      then raise (message "You need to specify the gateway name to upgrade")
      else load >>= λ items.
          upgrade_found_gateway options.gateway_name
            (release_of (find_named options.gateway_name items))
