-- ===== src/Examples/Extensions.antt =====
-- pkg/model/core and the object helper: one extension, two clusters and the versions of a resource.
use ks_upgrade.Base.{
  ℕ, String, ◌≡◌, refl, Bool, true, false, if◌then◌else◌, List, [], ◌∷◌, ◌++◌, none, message,
  status, not_found, conflict, Result, ok, err, ◌==◌,
}
use ks_upgrade.Base.Action.{Action}
use ks_upgrade.Base.Loops.{each}
use ks_upgrade.Core.{ExtensionRef, InstallPlan, sync_cluster, sync_clusters}
use ks_upgrade.Core.Laws.{AllAttempted, sync_clusters-ok}
use ks_upgrade.Core.Scheduling.{
  Scheduled, schedule_clusters, compute_cluster_scheduling, convert_config, enable,
}
use ks_upgrade.Core.Scheduling.Laws.{Enabled, schedule_clusters-ok}
use ks_upgrade.Jobs.Iam.Cluster.{CrdVersion}

-- The names of the plans, or of the config maps, that are there.
abbrev Names : Type 0
Names = List String

abbrev host : Action Names Bool
host w = (ok true, w)

abbrev devops : ExtensionRef ℕ
devops = record { name = "devops"; version = "1.2.0"; config = ""; cluster_scheduling = none }

abbrev version_found : String → Action Names (Unit {0})
version_found name w = (ok tt, w)

abbrev no_plan : String → Action Names (InstallPlan ℕ)
no_plan name w = (err (status not_found none), w)

abbrev create : InstallPlan ℕ → Action Names (Unit {0})
create plan w = (ok tt, plan.name ∷ w)

abbrev download : String → Action Names ℕ
download url w = (ok 7, w)

abbrev two_clusters : Action Names (List String)
two_clusters w = (ok ("host" ∷ "member" ∷ []), w)

-- The member answers every write with an error.
abbrev write_to : Bool → String → ℕ → Action Names (Unit {0})
write_to true name chart w = (err (status conflict none), w)
write_to false name chart w = (ok tt, name ∷ w)

abbrev client : String → Action Names (String → ℕ → Action Names (Unit {0}))
client c w = (ok (write_to (c == "member")), w)

sync_clusters-ok_example :
    (chart : ℕ) × (clusters : List String) × (v v' : Names) × (download "url" [] ≡ (ok chart, v))
    × (two_clusters v ≡ (ok clusters, v'))
    × AllAttempted host download two_clusters client "chart" chart clusters v' ("chart" ∷ [])
unfolding sync_clusters sync_cluster each
sync_clusters-ok_example =
    sync_clusters-ok host download two_clusters client "url" "chart" [] ("chart" ∷ []) refl

-- The configuration of the member cannot be judged.
abbrev is_enabled : String → Result Bool
is_enabled c = if c == "member" then err (message "devops is no object") else ok true

abbrev get_cc : String → Action Names String
get_cc c w = (ok c, w)

abbrev nothing : Scheduled
nothing = record { cluster_names = []; overrides = [] }

abbrev only_host : Scheduled
only_host = record { cluster_names = "host" ∷ []; overrides = [] }

schedule_clusters-ok_example :
    (names : List String) × Enabled is_enabled none
      (λ (values : String). ok values)
      (λ c. c)
      get_cc
      ("host" ∷ "member" ∷ [])
      names
      []
      []
    × (only_host.cluster_names ≡ nothing.cluster_names ++ names)
unfolding schedule_clusters compute_cluster_scheduling convert_config enable
schedule_clusters-ok_example =
    schedule_clusters-ok is_enabled none (λ (values : String). ok values) (λ c. c) get_cc
      ("host" ∷ "member" ∷ []) nothing only_host [] [] refl

abbrev old : CrdVersion
old = record { name = "v1alpha2"; deprecated = true }

abbrev new : CrdVersion
new = record { name = "v1beta1"; deprecated = false }
