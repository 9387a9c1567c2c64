-- ===== src/Jobs/Servicemesh.antt =====
-- pkg/jobs/servicemesh/servicemesh.go: the mesh of version 3 is kept and removed, and the extension is
-- installed.
use ks_upgrade.Base.{
  String, ◌<>◌, Bool, if◌then◌else◌, Option, none, List, [], ◌∷◌, is_backup_key_not_found,
  is_not_found,
}
use ks_upgrade.Base.Action.{Action, pure, raise, lift, ◌>>=◌, ◌>>◌, attempt}
use ks_upgrade.Base.Loops.{each}
use ks_upgrade.Core.{ExtensionRef}
use ks_upgrade.Executor.Job.{UpgradeJob}
use ks_upgrade.Storage.{Bytes, Storage}
use ks_upgrade.Store.{Codec, load, save}
use ks_upgrade.Jobs.Objects.{is_absent}
use ks_upgrade.Jobs.Done.{unless_done, save_done}
use ks_upgrade.Jobs.Plans.{Flags, logged_extension, unless_exists}

-- An object, with the name of its type.
pub record MeshObject : Type 0 where
  pub namespace : String
  pub name : String
  pub kind : String

abbrev mesh_object : String → String → String → MeshObject
mesh_object namespace name kind = record { namespace = namespace; name = name; kind = kind }

abbrev pub mesh_resources : List MeshObject
mesh_resources =
    mesh_object "istio-system" "jaeger-query" "Deployment"
    ∷ mesh_object "istio-system" "jaeger-collector" "Deployment"
    ∷ mesh_object "istio-system" "jaeger-operator" "Deployment"
    ∷ mesh_object "istio-system" "kiali-operator" "Deployment"
    ∷ mesh_object "istio-system" "istiod-1-14-6" "Deployment"
    ∷ mesh_object "istio-system" "kiali" "Deployment"
    ∷ mesh_object "istio-system" "istio-ingressgateway" "Deployment"
    ∷ mesh_object "" "istio-reader-clusterrole-1-14-6-istio-system" "ClusterRole"
    ∷ mesh_object "" "istio-reader-istio-system" "ClusterRole"
    ∷ mesh_object "" "istiod-clusterrole-1-14-6-istio-system" "ClusterRole"
    ∷ mesh_object "" "istiod-gateway-controller-1-14-6-istio-system" "ClusterRole"
    ∷ mesh_object "" "istiod-istio-system" "ClusterRole"
    ∷ mesh_object "" "kiali" "ClusterRole"
    ∷ mesh_object "" "kiali-operator" "ClusterRole"
    ∷ mesh_object "" "istio-reader-clusterrole-1-14-6-istio-system" "ClusterRoleBinding"
    ∷ mesh_object "" "istio-reader-istio-system" "ClusterRoleBinding"
    ∷ mesh_object "" "istiod-clusterrole-1-14-6-istio-system" "ClusterRoleBinding"
    ∷ mesh_object "" "istiod-gateway-controller-1-14-6-istio-system" "ClusterRoleBinding"
    ∷ mesh_object "" "istiod-istio-system" "ClusterRoleBinding"
    ∷ mesh_object "" "kiali" "ClusterRoleBinding"
    ∷ mesh_object "" "kiali-operator" "ClusterRoleBinding"
    ∷ mesh_object "" "istio-validator-1-14-6-istio-system" "ValidatingWebhookConfiguration"
    ∷ mesh_object "" "istiod-default-validator" "ValidatingWebhookConfiguration"
    ∷ mesh_object "" "istio-revision-tag-default" "MutatingWebhookConfiguration"
    ∷ mesh_object "" "istio-sidecar-injector-1-14-6" "MutatingWebhookConfiguration"
    ∷ []

abbrev pub mesh_definitions : List MeshObject
mesh_definitions =
    mesh_object "" "kialis.kiali.io" "CustomResourceDefinition"
    ∷ mesh_object "" "jaegers.jaegertracing.io" "CustomResourceDefinition"
    ∷ []

pub record MeshResource : Type 0 where
  pub name : String
  pub group : String
  pub version : String
  pub resource : String

-- The resources with finalizers. Go goes over them in any order.
abbrev pub finalized_resources : List MeshResource
finalized_resources =
    record { name = "jaeger"; group = "jaegertracing.io"; version = "v1"; resource = "jaegers" }
    ∷ record { name = "kiali"; group = "kiali.io"; version = "v1alpha1"; resource = "kialis" }
    ∷ []

-- What the job is given, and the clients and codecs that it calls; `order` is an order of
-- `finalized_resources`, and `schedule` is `GenerateClusterScheduling` by the flag of the mesh.
pub record MeshClients (W Raw Untyped : Type 0) : Type 0 where
  pub storage : Storage W
  pub now : W → Bytes
  pub rerun : Bool
  pub extension : Option (ExtensionRef Raw)
  pub order : List MeshResource
  pub stored : Codec Untyped
  pub get : MeshObject → Action W Untyped
  pub delete : MeshObject → Untyped → Action W (Unit {0})
  pub new_dynamic_client : Action W (Unit {0})
  pub get_resource : MeshResource → String → String → Action W Untyped
  pub without_finalizers : Untyped → Untyped
  pub update_resource : MeshResource → String → Untyped → Action W (Unit {0})
  pub delete_resource : MeshResource → String → String → Action W (Unit {0})
  pub get_flags : Action W Flags
  pub is_host_cluster : Action W Bool
  pub schedule : ExtensionRef Raw → Action W (ExtensionRef Raw)
  pub create_plan : ExtensionRef Raw → Action W (Unit {0})

module _ {W : Type 0} where
  abbrev passing_not_found : Action W (Unit {0}) → Action W (Unit {0})
  passing_not_found m = attempt m pure (λ e. if is_not_found e then pure tt else raise e)

module _ {W Raw Untyped : Type 0} (env : MeshClients W Raw Untyped) where
  -- Only what has no backup is looked at; another error of the load is passed over.
  unfoldable pub unless_kept : String → Action W (Unit {0}) → Action W (Unit {0})
  unfolding load
  unless_kept key m =
      attempt (load env.storage env.stored key) (λ _. pure tt)
        (λ e. if is_backup_key_not_found e then m else pure tt)

  unfoldable pub clean_object : MeshObject → Action W (Unit {0})
  unfolding unless_kept save
  clean_object o =
      let key = "servicemesh-" <> o.name <> "-" <> o.kind in
      unless_kept key (
        attempt (env.get o)
          (λ u. save env.storage env.stored key u >> passing_not_found (env.delete o u))
          (λ e. if is_absent e then pure tt else raise e))

  unfoldable pub clean_objects : List MeshObject → Action W (Unit {0})
  unfolding clean_object
  clean_objects objects = each clean_object objects

  unfoldable pub clean_finalized : MeshResource → Action W (Unit {0})
  unfolding unless_kept save
  clean_finalized r =
      let key = "servicemesh-" <> r.name in
      unless_kept key (
        attempt (env.get_resource r "istio-system" r.name)
          (λ u.
            save env.storage env.stored key u
            >> passing_not_found (env.update_resource r "istio-system" (env.without_finalizers u))
            >> passing_not_found (env.delete_resource r "istio-system" r.name))
          (λ e. if is_absent e then pure tt else raise e))

  unfoldable pub clean_mesh : Action W (Unit {0})
  unfolding clean_objects clean_finalized
  clean_mesh = env.get_flags >>= λ flags. lift (flags "spec.servicemesh.enabled") >>= λ enabled.
      if enabled
      then clean_objects mesh_resources
        >> env.new_dynamic_client
        >> each clean_finalized env.order
        >> clean_objects mesh_definitions
      else pure tt

  -- The log reads the name of the extension on every cluster.
  unfoldable pub create_mesh_plan : Action W (Unit {0})
  create_mesh_plan = env.is_host_cluster >>= λ is_host.
      logged_extension env.extension >>= λ extension.
      if is_host
      then (env.schedule extension >>= λ scheduled. env.create_plan scheduled)
      else pure tt

  unfoldable pub mesh_post_steps : Action W (Unit {0})
  unfolding clean_mesh create_mesh_plan
  mesh_post_steps = clean_mesh >> unless_exists create_mesh_plan

  unfoldable pub mesh_post_upgrade : Action W (Unit {0})
  unfolding unless_done save_done mesh_post_steps
  mesh_post_upgrade =
      unless_done env.storage env.rerun "servicemesh-done"
        (mesh_post_steps >> save_done env.storage env.now "servicemesh-done")

  -- The job that the factory creates.
  unfoldable pub mesh_job : UpgradeJob W
  unfolding mesh_post_upgrade
  mesh_job = record {
    condition = none;
    prepare_upgrade = none;
    pre_upgrade = pure tt;
    post_upgrade = mesh_post_upgrade;
    dynamic_upgrade = none;
    roll_back = none;
  }
