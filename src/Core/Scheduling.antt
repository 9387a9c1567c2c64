-- ===== src/Core/Scheduling.antt =====
-- `GenerateClusterScheduling` of pkg/model/core/core.go.
pub mod Laws
use ks_upgrade.Base.{
  String, ◌≡◌, Bool, true, false, if◌then◌else◌, List, [], ◌∷◌, ◌++◌, Option, none, some, Error,
  Result, ok, err, panic,
}
use ks_upgrade.Base.Action.{Action, pure, raise, lift, ◌>>=◌, ◌>>◌, continue, on_result, attempt}
use ks_upgrade.Base.Dict
use ks_upgrade.Base.Dict.{Dict}
use ks_upgrade.Core.{Placement, ClusterScheduling, ExtensionRef}

-- The two variables that `computeClusterScheduling` writes to.
pub record Scheduled : Type 0 where
  pub cluster_names : List String
  pub overrides : Dict String

abbrev pub add_name : String → Scheduled → Scheduled
add_name name s = record { cluster_names = s.cluster_names ++ name ∷ []; overrides = s.overrides }

abbrev pub add_override : String → String → Scheduled → Scheduled
add_override name text s = record {
  cluster_names = s.cluster_names;
  overrides = Dict.insert name text s.overrides;
}

-- What the caller does with an error of `computeClusterScheduling`: nothing.
abbrev pub ignoring : Result (Unit {0}) × Scheduled → Result Scheduled
ignoring (ok t, s) = ok s
ignoring (err e, s) = ok s
ignoring (panic, s) = panic

-- `Cc` is the configuration of a cluster and `Values` what it is converted to, if it is.
module _ {Cc Values : Type 0} (is_enabled : Cc → Result Bool)
    (convert : Option (Cc → Result (Option Values))) (to_yaml : Values → Result String) where
  unfoldable pub override_values : String → Option Values → Action Scheduled (Unit {0})
  override_values name none s = (ok tt, s)
  override_values name (some values) s =
      (lift (to_yaml values) >>= λ text s. (ok tt, add_override name text s)) s

  unfoldable pub convert_config : Cc → String → Action Scheduled (Unit {0})
  unfolding override_values
  convert_config cc name = elim convert [
    | none ↦ pure tt
    | some f ↦ lift (f cc) >>= override_values name
  ]

  unfoldable pub enable : Bool → String → Action Scheduled (Unit {0})
  enable enabled name s = (ok tt, if enabled then add_name name s else s)

  unfoldable pub compute_cluster_scheduling : Cc → String → Action Scheduled (Unit {0})
  unfolding enable convert_config
  compute_cluster_scheduling cc name =
      lift (is_enabled cc) >>= λ enabled. enable enabled name >> convert_config cc name

  module _ {W Cluster : Type 0} (name_of : Cluster → String) (get_cc : Cluster → Action W Cc) where
    -- The loop over the clusters.
    unfoldable pub schedule_clusters : List Cluster → Scheduled → Action W Scheduled
    unfolding compute_cluster_scheduling
    schedule_clusters [] s w = (ok s, w)
    schedule_clusters (c ∷ clusters) s w =
        (get_cc c >>= λ cc.
        lift (ignoring (compute_cluster_scheduling cc (name_of c) s))
        >>= schedule_clusters clusters)
          w

    -- A single cluster has its own configuration, and the name "host".
    unfoldable pub scheduled : Action W Cc → List Cluster → Action W Scheduled
    unfolding schedule_clusters
    scheduled own [] = own >>= λ cc. lift (
        ignoring
          (compute_cluster_scheduling cc "host" (record { cluster_names = []; overrides = [] })))
    scheduled own (c ∷ clusters) =
        schedule_clusters (c ∷ clusters) (record { cluster_names = []; overrides = [] })

-- The scheduling and the placement that are there, or new ones.
abbrev pub scheduling_of : {Raw : Type 0} → Option (ClusterScheduling Raw) → ClusterScheduling Raw
scheduling_of none = record { placement = none; overrides = [] }
scheduling_of (some s) = s

abbrev pub placement_of : {Raw : Type 0} → Option (Placement Raw) → Placement Raw
placement_of none = record { clusters = []; cluster_selector = none }
placement_of (some p) = p

abbrev pub is_unspecified : {Raw : Type 0} → Placement Raw → Bool
is_unspecified p = unspecified p.clusters p.cluster_selector
  where
    unspecified : {Raw : Type 0} → List String → Option Raw → Bool
    unspecified [] none = true
    unspecified [] (some s) = false
    unspecified (c ∷ clusters) s = false

abbrev pub with_scheduling :
    {Raw : Type 0} → ClusterScheduling Raw → ExtensionRef Raw → ExtensionRef Raw
with_scheduling s r = record {
  name = r.name;
  version = r.version;
  config = r.config;
  cluster_scheduling = some s;
}

-- The scheduling with a placement, and with the clusters that were computed, if there are any.
abbrev pub placed : {Raw : Type 0} → ClusterScheduling Raw → ClusterScheduling Raw
placed s = record { placement = some (placement_of s.placement); overrides = s.overrides }

unfoldable pub with_clusters :
    {Raw : Type 0} → List String → Dict String → ClusterScheduling Raw → ClusterScheduling Raw
with_clusters [] o s = s
with_clusters (n ∷ names) o s = record {
  placement = some (record {
    clusters = n ∷ names;
    cluster_selector = (placement_of s.placement).cluster_selector;
  });
  overrides = o;
}

module _ {W Raw : Type 0} (is_host : Action W Bool) (compute : Action W Scheduled) where
  -- A placement that is given is left as it is.
  unfoldable pub schedule : ClusterScheduling Raw → Action W (ClusterScheduling Raw)
  unfolding with_clusters
  schedule s =
      if is_unspecified (placement_of s.placement)
      then (compute >>= λ computed.
          pure (with_clusters computed.cluster_names computed.overrides s))
      else pure s

  -- `GenerateClusterScheduling`, which gives the extension reference that it leaves behind; what an
  -- error leaves in it is not modelled. `compute` lists the clusters and goes through them.
  unfoldable pub generate_cluster_scheduling : ExtensionRef Raw → Action W (ExtensionRef Raw)
  unfolding schedule
  generate_cluster_scheduling r = is_host >>= λ host.
      if host
      then (schedule (placed (scheduling_of r.cluster_scheduling)) >>= λ s.
          pure (with_scheduling s r))
      else pure r
