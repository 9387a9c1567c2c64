-- ===== src/Jobs/Monitoring/Clusters.antt =====
-- pkg/jobs/monitoring/monitoring.go: the values of the extension, and its overrides for each cluster.
use ks_upgrade.Base.{
  String, Bool, true, false, if◌then◌else◌, not, ◌&&◌, Option, none, some, List, [], ◌∷◌, ◌++◌,
  Result, ok, and_then,
}
use ks_upgrade.Base.Action.{Action, pure, lift, ◌>>=◌}
use ks_upgrade.Base.Dict
use ks_upgrade.Base.Dict.{Dict}
use ks_upgrade.Core.{ExtensionRef}
use ks_upgrade.Jobs.Objects.{is_host_cluster_object, Object}
use ks_upgrade.Jobs.Monitoring.Values.{
  TransPath, JsonPaths, set_extension_values, set_override_values, whizard_trans_paths,
  stack_trans_paths,
}
use ks_upgrade.Jobs.Monitoring.Stack.{Configuration}

-- What the loop over the clusters has set: the values of the extension, the overrides, and
-- whether the URL of the gateway of Whizard is among the values.
pub record Configured : Type 0 where
  pub config : String
  pub clusters : List String
  pub overrides : Dict String
  pub has_gateway_url : Bool

abbrev pub gateway_url_path : TransPath
gateway_url_path = record {
  to_path = "whizard-agent-proxy.config.gatewayUrl";
  from_path = "spec.monitoring.whizard.client.gatewayUrl";
  value_converter = none;
}

-- A missing text of the map of overrides reads as the empty one.
abbrev pub or_empty : Option String → String
or_empty none = ""
or_empty (some s) = s

module _ {Json : Type 0} (paths : JsonPaths Json) (etcd : List TransPath) (whizard : Bool) where
  abbrev pub cluster_paths : Configuration → Result (List TransPath)
  cluster_paths current =
      and_then (current.nested_bool "spec.etcd.monitoring")
        λ enabled. ok (if enabled then stack_trans_paths ++ etcd else stack_trans_paths)

  abbrev pub with_gateway_url : Bool → Configuration → Configured → Result Configured
  with_gateway_url host current c =
      if whizard && (not c.has_gateway_url && not host)
      then and_then
          (set_extension_values paths current.nested_value c.config (gateway_url_path ∷ []))
          (λ config. ok (record c { config = config; has_gateway_url = true }))
      else ok c

  -- One round of the loop over the clusters.
  unfoldable pub configure_cluster : String → Bool → Configuration → Configured → Result Configured
  unfolding set_override_values set_extension_values
  configure_cluster name host current c = and_then (cluster_paths current) λ trans.
      and_then
        (set_override_values paths current.nested_value (or_empty (Dict.lookup name c.overrides))
          trans c.config)
        λ override. with_gateway_url host current (record c {
          clusters = c.clusters ++ name ∷ [];
          overrides = Dict.insert name override c.overrides;
        })

module _ {W Json S : Type 0} (paths : JsonPaths Json) (etcd : List TransPath) (whizard : Bool)
    (own : Configuration) (configuration_of : Object S → Action W Configuration) where
  unfoldable pub configure_clusters : List (Object S) → Configured → Action W Configured
  unfolding configure_cluster
  configure_clusters [] c w = (ok c, w)
  configure_clusters (o ∷ clusters) c w =
      ((if is_host_cluster_object o then pure own else configuration_of o) >>= λ current.
      lift (configure_cluster paths etcd whizard o.meta.name (is_host_cluster_object o) current c)
      >>= λ c'. configure_clusters clusters c')
        w

  -- The reference with its values and, unless it has a scheduling, with that of the clusters.
  unfoldable pub configured_extension :
      {Raw : Type 0} → Action W (List (Object S)) → ExtensionRef Raw → Action W (ExtensionRef Raw)
  unfolding set_extension_values configure_clusters
  configured_extension list_cluster extension =
      lift (
        set_extension_values paths own.nested_value extension.config
          (whizard_trans_paths ++ stack_trans_paths))
      >>= λ config. elim extension.cluster_scheduling [
        | some scheduling ↦ pure (record extension { config = config })
        | none ↦ list_cluster >>= λ items.
            configure_clusters items
              (record { config = config; clusters = []; overrides = []; has_gateway_url = false })
            >>= λ c. pure (record extension {
              config = c.config;
              cluster_scheduling = some (record {
                placement = some (record { clusters = c.clusters; cluster_selector = none });
                overrides = c.overrides;
              });
            })
      ]
