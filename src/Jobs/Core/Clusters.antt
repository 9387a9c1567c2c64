-- ===== src/Jobs/Core/Clusters.antt =====
-- pkg/jobs/core/core.go: the member clusters of version 4, and the kubeconfig of the host cluster.
pub mod Laws
use ks_upgrade.Jobs.Objects.{ObjectMeta, Object, Api, entries, text_of}
use ks_upgrade.Base.{
  String, ℤ, Bool, true, false, if◌then◌else◌, not, Option, none, some, List, [], ◌∷◌, ◌++◌, Error,
  message, Result, ok, err, panic, is_backup_key_not_found, ◌==◌, select,
}
use ks_upgrade.Base.Action.{Action, pure, raise, lift, ◌>>=◌, ◌>>◌, attempt}
use ks_upgrade.Base.Dict
use ks_upgrade.Base.Dict.{Dict}
use ks_upgrade.Base.Loops.{each}
use ks_upgrade.Storage.{Bytes, Storage}
use ks_upgrade.Store.{
  Codec, load, save, RestClient, RestConfig, create_kube_config_file_for_rest_config,
}
use ks_upgrade.Jobs.Core.Objects.{ClusterCondition}

abbrev pub host_cluster_label : String
host_cluster_label = "cluster-role.kubesphere.io/host"

-- A label that is there, whatever its value is.
abbrev pub has_label : {S : Type 0} → String → Object S → Bool
has_label key o = Dict.has key (entries o.meta.labels)

-- `updateClusterCondition` on the conditions of a cluster.
unfoldable pub update_cluster_condition :
    List ClusterCondition → ClusterCondition → List ClusterCondition
update_cluster_condition conditions condition =
    select (λ c. not (c.type == condition.type)) conditions ++ condition ∷ []

-- Each reading of the clock is one of its own.
abbrev pub ready_condition : ℤ × ℤ → ClusterCondition
ready_condition (updated, changed) = record {
  type = "KSCoreReady";
  status = "True";
  last_update_time = updated;
  last_transition_time = changed;
  reason = "KSCoreReady";
  message = "KS Core is available now";
}

abbrev pub unschedulable_condition : ℤ × ℤ → ClusterCondition
unschedulable_condition (updated, changed) = record {
  type = "Schedulable";
  status = "False";
  last_update_time = updated;
  last_transition_time = changed;
  reason = "Upgrading";
  message = "Not schedulable now";
}

-- What a member cluster becomes, with the readings of the clock for its two conditions.
unfoldable pub upgrading :
    (ℤ × ℤ) × (ℤ × ℤ) → Object (List ClusterCondition) → Object (List ClusterCondition)
unfolding update_cluster_condition
upgrading (ready, unschedulable) c = record {
  meta = record c.meta {
    labels = some (Dict.insert "kubesphere.io/managed" "true" (entries c.meta.labels));
    annotations =
        some
          (Dict.insert "kubesphere.io/config-hash" "cbf29ce484222325" (entries c.meta.annotations));
  };
  spec =
      update_cluster_condition (update_cluster_condition c.spec (ready_condition ready))
        (unschedulable_condition unschedulable);
}

module _ {W : Type 0} (clusters : Api W (List ClusterCondition)) (now : W → (ℤ × ℤ) × (ℤ × ℤ)) where
  unfoldable pub update_member_cluster : Object (List ClusterCondition) → Action W (Unit {0})
  unfolding upgrading
  update_member_cluster c w =
      (if has_label host_cluster_label c then pure tt else clusters.update (upgrading (now w) c)) w

  unfoldable pub update_member_clusters : Action W (Unit {0})
  unfolding update_member_cluster
  update_member_clusters = clusters.list >>= λ items. each update_member_cluster items

-- The data of a secret; its token is a text.
abbrev pub is_service_account_secret : Object (Dict String) → Bool
is_service_account_secret o =
    text_of (Dict.lookup "kubernetes.io/service-account.name" (entries o.meta.annotations))
    == "kubesphere"

unfoldable pub find_secret : List (Object (Dict String)) → Option (Object (Dict String))
find_secret [] = none
find_secret (o ∷ secrets) =
    let rest = find_secret secrets in if is_service_account_secret o then some o else rest

-- `rest` reads the configuration of the environment. The
-- specification of a cluster of version 3 is its kubeconfig file.
module _ {W Raw : Type 0} (rest : RestClient W Raw) (secrets : Api W (Dict String))
    (clusters : Api W Bytes) where
  unfoldable pub patch_kube_config :
      Object Bytes → RestConfig Raw → Option (Object (Dict String)) → Action W (Unit {0})
  unfolding create_kube_config_file_for_rest_config
  patch_kube_config cluster config none = raise (message "failed to get kubesphere sa token secret")
  patch_kube_config cluster config (some secret) =
      let token = text_of (Dict.lookup "token" secret.spec) in
      if token == ""
      then raise (message "failed to get kubesphere sa bearer token from secret")
      else lift (
          rest.write
            (create_kube_config_file_for_rest_config (record config { bearer_token = token })))
        >>= λ raw. clusters.patch (record cluster { spec = raw }) cluster

  unfoldable pub refresh_kube_config : Object Bytes → Action W (Unit {0})
  unfolding patch_kube_config find_secret
  refresh_kube_config cluster = rest.get_config >>= λ config.
      rest.load_tls_files config >>= λ config'.
      secrets.list >>= λ items. patch_kube_config cluster config' (find_secret items)

  -- The first cluster with the label ends the loop.
  unfoldable pub refresh_host : List (Object Bytes) → Action W (Unit {0})
  unfolding refresh_kube_config
  refresh_host [] w = (ok tt, w)
  refresh_host (c ∷ cs) w =
      let next = refresh_host cs in
      (if has_label host_cluster_label c then refresh_kube_config c else next) w

  -- Where a backup of the clusters is found, nothing is refreshed again.
  unfoldable pub refresh_host_cluster_kube_config :
      Storage W
      → Codec (List (Object Bytes))
      → Action W Bool
      → Action W (List (Object Bytes))
      → Action W (Unit {0})
  unfolding refresh_host load save
  refresh_host_cluster_kube_config s codec is_host_cluster list_cluster =
      is_host_cluster >>= λ is_host.
      if not is_host
      then pure tt
      else attempt (load s codec "core.cluster.kubeconfig") (λ _. pure tt)
          (λ e.
            if not (is_backup_key_not_found e)
            then raise e
            else list_cluster >>= λ items.
                save s codec "core.cluster.kubeconfig" items >> refresh_host items)
