-- ===== src/Jobs/Core/Prepare.antt =====
-- pkg/jobs/core/core.go: the configuration of KubeSphere, its deployments, the network policies
-- and the volumes of the upgrade job.
pub mod Laws
use ks_upgrade.Jobs.Objects.{ObjectMeta, Object, Api, entries, is_absent}
use ks_upgrade.Base.{
  ℕ, String, ◌<>◌, Bool, true, false, if◌then◌else◌, not, eqb, contains, Option, none, some, List,
  [], ◌∷◌, Error, message, described, Result, ok, err, panic, is_not_found, is_backup_key_not_found,
  is_no_match, ◌==◌,
}
use ks_upgrade.Base.Action.{Action, pure, raise, lift, ◌>>=◌, ◌>>◌, attempt}
use ks_upgrade.Base.Dict
use ks_upgrade.Base.Dict.{Dict}
use ks_upgrade.Base.Loops.{each}
use ks_upgrade.Config.Merge.{Fields}
use ks_upgrade.Storage.{Bytes, Storage}
use ks_upgrade.Store.{Codec, load, save, load_raw, save_raw}
use ks_upgrade.Jobs.Core.Objects.{Deployment}

abbrev pub config_store_key : String
config_store_key = "kubesphere-config"

module _ {W : Type 0} (s : Storage W) (get_config_map : Action W (Dict String))
    (unmarshal : String → Result Fields) (marshal : Fields → Result Bytes) where
  -- The document is parsed and printed again before it is saved.
  unfoldable pub save_config : Option String → Action W (Unit {0})
  unfolding save_raw
  save_config none = raise (message "failed to get configmap kubesphere.yaml value")
  save_config (some text) =
      attempt (lift (unmarshal text))
        (λ fields. lift (marshal fields) >>= λ raw. save_raw s config_store_key raw)
        (λ e. raise (described "failed to unmarshal value from configmap" e))

  -- An error other than that of a missing key is passed over.
  unfoldable pub backup_kube_sphere_config : Action W (Unit {0})
  unfolding load_raw save_config
  backup_kube_sphere_config =
      attempt (load_raw s config_store_key) (λ _. pure tt)
        (λ e.
          if is_backup_key_not_found e
          then (get_config_map >>= λ entries. save_config (Dict.lookup "kubesphere.yaml" entries))
          else pure tt)

abbrev pub need_scale_down : List String
need_scale_down = "ks-apiserver" ∷ "ks-controller-manager" ∷ "ks-console" ∷ "ks-installer" ∷ []

abbrev pub without_replicas : Object Deployment → Object Deployment
without_replicas o = record o { spec = record o.spec { replicas = some 0 } }

-- The loop that looks for a deployment with an available replica.
unfoldable pub all_scaled_down : List (Object Deployment) → Bool
all_scaled_down [] = true
all_scaled_down (o ∷ deployments) =
    let rest = all_scaled_down deployments in
    if not (contains need_scale_down o.meta.name)
    then rest
    else (if not (eqb o.spec.available_replicas 0) then false else rest)

module _ {W : Type 0} (deployments : Api W Deployment) where
  unfoldable pub scale_down_one : Object Deployment → Action W (Unit {0})
  scale_down_one o =
      if not (contains need_scale_down o.meta.name)
      then pure tt
      else deployments.create_or_update o without_replicas

  -- The condition that is polled; an error of the list is only logged.
  unfoldable pub scaled_down_now : Action W Bool
  unfolding all_scaled_down
  scaled_down_now =
      attempt deployments.list (λ items. pure (all_scaled_down items)) (λ e. pure false)

  -- `poll_immediate` is `wait.PollImmediate` with its interval and timeout.
  unfoldable pub scale_down_deployments :
      (Action W Bool → Action W (Unit {0})) → Action W (Unit {0})
  unfolding scale_down_one scaled_down_now
  scale_down_deployments poll_immediate =
      deployments.list >>= λ items. each scale_down_one items >> poll_immediate scaled_down_now

-- A list of objects that is kept in the store: its key, its codec and the call that reads it.
pub record StoredList (W Untyped : Type 0) : Type 0 where
  pub key : String
  pub codec : Codec Untyped
  pub list : Action W Untyped

module _ {W Untyped : Type 0} (s : Storage W) where
  unfoldable pub list_to_store : StoredList W Untyped → Action W (Unit {0})
  unfolding load save
  list_to_store r =
      attempt (load s r.codec ("core-" <> r.key)) (λ _. pure tt)
        (λ e.
          if is_backup_key_not_found e
          then attempt r.list (save s r.codec ("core-" <> r.key))
              (λ f. if is_absent f then pure tt else raise f)
          else pure tt)

  -- The order of `resources` is one that the map of the code may be gone through in.
  unfoldable pub list_resource_to_store : List (StoredList W Untyped) → Action W (Unit {0})
  unfolding list_to_store
  list_resource_to_store resources = each list_to_store resources

abbrev pub no_object : Object (Unit {0})
no_object = record {
  meta = record {
    name = "";
    namespace = "";
    labels = none;
    annotations = none;
    finalizers = [];
    owner_references = [];
    deletion_timestamp = none;
    resource_version = "";
  };
  spec = tt;
}

abbrev pub served : Object (Unit {0}) → Object (Unit {0})
served o = record o {
  meta = record o.meta {
    labels = some (Dict.insert "kubesphere.io/resource-served" "true" (entries o.meta.labels));
  };
}

abbrev pub isolated : Object (Option Bool) → Object (Option Bool)
isolated o = record o {
  meta = record o.meta {
    annotations =
        some (Dict.insert "kubesphere.io/network-isolate" "enabled" (entries o.meta.annotations));
  };
}

abbrev pub is_isolated : Option Bool → Bool
is_isolated none = false
is_isolated (some b) = b

-- The specification of a workspace of version 3 is its `NetworkIsolation`.
module _ {W : Type 0} (crds : Api W (Unit {0})) (workspaces : Api W (Option Bool)) where
  -- A definition without a name is one that was not found.
  unfoldable pub label_policies : Object (Unit {0}) → Action W (Unit {0})
  label_policies o = if o.meta.name == "" then pure tt else crds.update (served o)

  unfoldable pub isolate_workspace : Object (Option Bool) → Action W (Unit {0})
  isolate_workspace o = if is_isolated o.spec then workspaces.update (isolated o) else pure tt

  unfoldable pub network_prepare_upgrade :
      {Untyped : Type 0} → Storage W → List (StoredList W Untyped) → Action W (Unit {0})
  unfolding list_resource_to_store label_policies isolate_workspace
  network_prepare_upgrade s resources =
      list_resource_to_store s resources
      >> attempt (crds.get "" "namespacenetworkpolicies.network.kubesphere.io") label_policies
          (λ e. if is_absent e then label_policies no_object else raise e)
      >> attempt workspaces.list (each isolate_workspace)
          (λ e. if is_no_match e then pure tt else raise e)

-- The job has the claims of its volumes, a claim the name of its volume, and a volume its policy.
module _ {W : Type 0} (jobs : Api W (Option (List (Option String))))
    (claims volumes : Api W String) where
  abbrev pub retained : Object String → Object String
  retained o = record o { spec = "Retain" }

  -- A patch that fails ends the loop without an error.
  unfoldable pub patch_volume : Object String → Action W (Unit {0}) → Action W (Unit {0})
  patch_volume o next =
      if o.spec == "Retain"
      then next
      else attempt (volumes.patch (retained o) o) (λ _. next) (λ e. pure tt)

  unfoldable pub patch_claim : Object String → Action W (Unit {0}) → Action W (Unit {0})
  unfolding patch_volume
  patch_claim claim next =
      if claim.spec == ""
      then next
      else attempt (volumes.get "" claim.spec) (λ o. patch_volume o next)
          (λ e. if is_not_found e then next else raise e)

  unfoldable pub patch_claims : List (Option String) → Action W (Unit {0})
  unfolding patch_claim
  patch_claims [] w = (ok tt, w)
  patch_claims (none ∷ claimed) w = patch_claims claimed w
  patch_claims (some name ∷ claimed) w =
      let next = patch_claims claimed in
      attempt (claims.get "kubesphere-system" name) (λ claim. patch_claim claim next)
        (λ e. if is_not_found e then next else raise e) w

  abbrev pub patch_job : Option (List (Option String)) → Action W (Unit {0})
  patch_job none = pure tt
  patch_job (some claimed) = patch_claims claimed

  unfoldable pub patch_upgrade_job_pv : Action W (Unit {0})
  unfolding patch_claims
  patch_upgrade_job_pv =
      attempt (jobs.get "kubesphere-system" "ks-core-pre-upgrade") (λ job. patch_job job.spec)
        (λ e. if is_not_found e then pure tt else raise e)
