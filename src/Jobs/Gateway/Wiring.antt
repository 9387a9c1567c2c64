-- ===== src/Jobs/Gateway/Wiring.antt =====
-- pkg/jobs/gateway/gateway.go: the job that the factory creates, with its steps.
use ks_upgrade.Base.{String, ℤ, Bool, none, some, List, [], ◌∷◌, Error, Result}
use ks_upgrade.Base.Action.{Action, pure}
use ks_upgrade.Base.Dict.{Dict}
use ks_upgrade.Config.Merge.{Fields, Value}
use ks_upgrade.Core.{ExtensionRef}
use ks_upgrade.Executor.Job.{UpgradeJob}
use ks_upgrade.Storage.{Bytes, Storage}
use ks_upgrade.Store.{Codec, load}
use ks_upgrade.Jobs.Objects.{Object, Api}
use ks_upgrade.Jobs.Gateway.Objects.{GatewayOptions, GatewaySpec, NewGatewaySpec}
use ks_upgrade.Jobs.Gateway.Backup.{
  Service, backup_list, all_node_ports, backup_crds, backup_gateway_config, get_old_gateway_config,
}
use ks_upgrade.Jobs.Gateway.Convert.{upgrade_gateway}
use ks_upgrade.Jobs.Gateway.Ingress.{IngressSpec, upgrade_ingress}
use ks_upgrade.Jobs.Gateway.Clean.{
  Release, clean_gateways, apply_gateway_crd, clean_prometheus_rule, crd_ready,
}
use ks_upgrade.Jobs.Gateway.Phases.{
  Steps, is_host_and_create_install_plan, gateway_pre_upgrade, gateway_post_upgrade,
  gateway_dynamic_upgrade,
}

-- What the job is given, and the clients, codecs and libraries that it calls.
pub record Environment (W Raw Untyped : Type 0) : Type 0 where
  pub storage : Storage W
  pub now : W → Bytes
  pub options : GatewayOptions
  pub extension : ExtensionRef Raw
  pub itoa : ℤ → String
  pub poll_immediate : Action W Bool → Action W (Unit {0})
  pub no_kind : Error → Bool
  pub template : GatewaySpec Raw → Result String
  pub is_host_cluster : Action W Bool
  pub schedule : ExtensionRef Raw → Action W (ExtensionRef Raw)
  pub create_plan : ExtensionRef Raw → Action W (Unit {0})
  pub sync_helm_chart : ExtensionRef Raw → Action W (Unit {0})
  pub apply_crds : Action W (Unit {0})
  pub stored_gateways : Codec (List (Object (GatewaySpec Raw)))
  pub stored_ingresses : Codec (List (Object (IngressSpec Raw)))
  pub stored_untyped : Codec Untyped
  pub gateways_v3 : Api W (GatewaySpec Raw)
  pub gateways_v4 : Api W NewGatewaySpec
  pub ingresses_v3 : Api W (IngressSpec Raw)
  pub ingresses_v4 : Api W (IngressSpec Raw)
  pub ingresses_in : String → Action W (List (Object (IngressSpec Raw)))
  pub namespaces_v4 : Api W (Unit {0})
  pub select_namespaces : String → Action W (List String)
  pub list_nginxes : Action W Untyped
  pub get_service : String → String → Action W Service
  pub get_crd_v3 : String → Action W Untyped
  pub get_crd_v4 : String → Action W Untyped
  pub delete_crd_v4 : String → Action W (Unit {0})
  pub get_rule : Action W Untyped
  pub delete_rule : Action W (Unit {0})
  -- the data of the backup of the configuration
  pub get_config : Action W (Dict String)
  pub create_config : String → Action W (Unit {0})
  pub unmarshal_raw : Bytes → Result Fields
  pub unmarshal : String → Result Fields
  pub marshal_value : Value → Result String
  pub marshal : Fields → Result String
  pub uninstall : String → String → Action W (Unit {0})
  pub get_release : String → String → Action W Release

module _ {W Raw Untyped : Type 0} (env : Environment W Raw Untyped) where
  abbrev load_gateways : Action W (List (Object (GatewaySpec Raw)))
  load_gateways = load env.storage env.stored_gateways "gateway-gateway-cr-list"

  abbrev old_config : Action W Fields
  old_config = get_old_gateway_config env.get_config env.unmarshal

  unfoldable pub gateway_steps : Steps W
  unfolding load backup_list all_node_ports backup_crds backup_gateway_config get_old_gateway_config
      clean_gateways apply_gateway_crd clean_prometheus_rule crd_ready
      is_host_and_create_install_plan
  gateway_steps = record {
    backup_config =
        backup_gateway_config env.storage env.get_config env.create_config env.unmarshal_raw
          env.marshal_value;
    backup_ingress =
        backup_list env.storage env.stored_ingresses env.ingresses_v3.list pure
          "gateway-ingress-list";
    backup_gateways =
        backup_list env.storage env.stored_gateways env.gateways_v3.list
          (all_node_ports env.itoa env.get_service) "gateway-gateway-cr-list";
    backup_nginxes =
        backup_list env.storage env.stored_untyped env.list_nginxes pure "gateway-nginx-cr-list";
    backup_crds =
        backup_crds env.storage env.stored_untyped env.get_crd_v3
          ("gateways.gateway.kubesphere.io" ∷ "nginxes.gateway.kubesphere.io" ∷ []);
    clean_prometheus_rule =
        clean_prometheus_rule env.storage env.stored_untyped env.get_rule env.delete_rule;
    create_install_plan =
        is_host_and_create_install_plan old_config env.marshal env.is_host_cluster env.schedule
          env.create_plan env.extension;
    clean_gateways =
        clean_gateways env.gateways_v3 env.no_kind load_gateways
          (env.get_crd_v4 "gateways.gateway.kubesphere.io")
          (env.delete_crd_v4 "gateways.gateway.kubesphere.io") env.poll_immediate;
    apply_crd = apply_gateway_crd (env.get_crd_v4 "gateways.gateway.kubesphere.io") env.apply_crds;
    wait_for_crd = env.poll_immediate (crd_ready env.gateways_v4.list);
    sync_helm_chart = env.sync_helm_chart env.extension;
  }

  -- The job that the factory creates.
  unfoldable pub gateway_job : UpgradeJob W
  unfolding gateway_steps load upgrade_gateway upgrade_ingress gateway_pre_upgrade
      gateway_post_upgrade gateway_dynamic_upgrade
  gateway_job = record {
    condition = none;
    prepare_upgrade = none;
    pre_upgrade = gateway_pre_upgrade env.storage env.now env.options gateway_steps;
    post_upgrade = gateway_post_upgrade env.storage env.now env.options gateway_steps;
    dynamic_upgrade = some (
        gateway_dynamic_upgrade load_gateways env.uninstall env.get_release env.poll_immediate
          (upgrade_gateway env.template env.namespaces_v4 env.gateways_v4 load_gateways old_config)
          (upgrade_ingress env.ingresses_v4.update env.ingresses_in env.ingresses_v4.list
            env.select_namespaces load_gateways)
          env.options);
    roll_back = none;
  }
