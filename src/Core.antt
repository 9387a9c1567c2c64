-- ===== src/Core.antt =====
-- pkg/model/core/core.go: what the jobs do with an extension of version 4: its install plan, the
-- clusters that it is scheduled to, and its chart on the member clusters.
pub mod Scheduling
pub mod Laws
use ks_upgrade.Base.{
  String, ◌<>◌, ◌≡◌, Bool, true, false, if◌then◌else◌, ◌||◌, List, [], ◌∷◌, Option, none, some,
  Error, message, described, Result, ok, err, panic, is_not_found, ◌==◌,
}
use ks_upgrade.Base.Action.{Action, pure, raise, lift, ◌>>=◌, ◌>>◌, continue, on_result, attempt}
use ks_upgrade.Base.Dict
use ks_upgrade.Base.Dict.{Dict}
use ks_upgrade.Base.Loops.{each}
use ks_upgrade.Config.Merge
use ks_upgrade.Config.Merge.{Value, Fields, object, str}

-- `Raw` is a selector of clusters, which is not looked into.
pub record Placement (Raw : Type 0) : Type 0 where
  pub clusters : List String
  pub cluster_selector : Option Raw

pub record ClusterScheduling (Raw : Type 0) : Type 0 where
  pub placement : Option (Placement Raw)
  pub overrides : Dict String

pub record ExtensionRef (Raw : Type 0) : Type 0 where
  pub name : String
  pub version : String
  pub config : String
  pub cluster_scheduling : Option (ClusterScheduling Raw)

pub record InstallPlan (Raw : Type 0) : Type 0 where
  pub name : String
  pub enabled : Bool
  pub extension_name : String
  pub extension_version : String
  pub upgrade_strategy : String
  pub config : String
  pub cluster_scheduling : Option (ClusterScheduling Raw)

-- The nested conditions of `IsHostCluster`, each of which a value of another type ends.
abbrev pub is_host_role : Option Value → Bool
is_host_role (some (str s)) = (s == "host") || (s == "none")
is_host_role _ = false

abbrev pub is_host_config : Option Value → Bool
is_host_config (some (object fields)) = is_host_role (Merge.lookup "clusterRole" fields)
is_host_config _ = false

-- `get_config_map` reads the data of the configuration of KubeSphere, and `unmarshal` its document.
module _ {W : Type 0} (get_config_map : Action W (Dict String))
    (unmarshal : String → Result Fields) where
  unfoldable pub is_host_document : String → Result Bool
  is_host_document text = elim (unmarshal text) [
    | err e ↦ err (described "failed to unmarshal value from configmap" e)
    | panic ↦ panic
    | ok fields ↦ ok (is_host_config (Merge.lookup "multicluster" fields))
  ]

  unfoldable pub is_host_cluster : Action W Bool
  unfolding is_host_document
  is_host_cluster = get_config_map >>= λ entries. elim (Dict.lookup "kubesphere.yaml" entries) [
    | none ↦ raise (message "failed to get configmap kubesphere.yaml value")
    | some text ↦ lift (is_host_document text)
  ]

abbrev pub new_plan : {Raw : Type 0} → ExtensionRef Raw → InstallPlan Raw
new_plan r = record {
  name = r.name;
  enabled = true;
  extension_name = r.name;
  extension_version = r.version;
  upgrade_strategy = "Manual";
  config = r.config;
  cluster_scheduling = r.cluster_scheduling;
}

-- The calls of the client that an install plan needs. `watch` is one poll of a watch function.
module _ {W Raw : Type 0} (is_host : Action W Bool) (get_version : String → Action W (Unit {0}))
    (get_plan : String → Action W (InstallPlan Raw))
    (create_plan : InstallPlan Raw → Action W (Unit {0})) where
  -- A plan that is there is left as it is.
  unfoldable pub ensure_plan : ExtensionRef Raw → Action W (Unit {0})
  ensure_plan r =
      attempt (get_plan r.name) (λ plan. pure tt)
        (λ e. if is_not_found e then create_plan (new_plan r) else raise e)

  -- `CreateInstallPlanFromExtensionRef`, with the polls of its watch functions. Off the host
  -- cluster it returns the error of the check, which is nil if the check worked.
  unfoldable pub create_install_plan :
      ExtensionRef Raw → List (Action W (Unit {0})) → Action W (Unit {0})
  unfolding ensure_plan
  create_install_plan r watches = is_host >>= λ host.
      if host
      then get_version (r.name <> "-" <> r.version)
        >> ensure_plan r
        >> each (λ watch. watch) watches
      else pure tt

abbrev pub chart_url : {Raw : Type 0} → ExtensionRef Raw → String
chart_url r =
    "https://extensions-museum.kubesphere-system.svc/charts/" <> r.name <> "-" <> r.version
    <> ".tgz"

abbrev pub chart_config_map : {Raw : Type 0} → ExtensionRef Raw → String
chart_config_map r = "extension-" <> r.name <> "-" <> r.version <> "-chart"

-- `SyncHelmChart`: the chart is written to every member cluster. `client` makes the client of a
-- cluster, which writes a config map of a name; its error is not looked at.
module _ {W Cluster Data : Type 0} (is_host : Action W Bool) (download : String → Action W Data)
    (list_cluster : Action W (List Cluster))
    (client : Cluster → Action W (String → Data → Action W (Unit {0}))) where
  unfoldable pub sync_cluster : String → Data → Cluster → Action W (Unit {0})
  sync_cluster name chart cluster =
      client cluster >>= λ put. attempt (put name chart) pure (λ e. pure tt)

  unfoldable pub sync_clusters : String → String → Action W (Unit {0})
  unfolding sync_cluster
  sync_clusters url name =
      download url >>= λ chart. list_cluster >>= λ clusters. each (sync_cluster name chart) clusters

  unfoldable pub sync_helm_chart : {Raw : Type 0} → ExtensionRef Raw → Action W (Unit {0})
  unfolding sync_clusters
  sync_helm_chart r =
      is_host >>= λ host. if host then sync_clusters (chart_url r) (chart_config_map r) else pure tt
