-- ===== src/Examples/Upgrading.antt =====
-- The core job: namespaces, clusters, workspaces and deployments of a small cluster.
use ks_upgrade.Jobs.Objects.{OwnerReference, ObjectMeta, Object, Api, entries}
use ks_upgrade.Base.{
  ℤ, ◌||◌, ℕ, String, ◌<>◌, pos, ◌≡◌, ◌↔◌, refl, ap, ap₂, ◌⊎◌, Bool, true, false, if◌then◌else◌,
  All, select, length, Option, none, some, List, [], ◌∷◌, Error, message, status, not_found, Result,
  ok, err, panic, ◌==◌, contains,
}
use ks_upgrade.Base.Action.{Action}
use ks_upgrade.Base.Dict
use ks_upgrade.Base.Dict.{Dict}
use ks_upgrade.Base.Loops.{each, Ran, InOrder}
use ks_upgrade.Config.Merge
use ks_upgrade.Config.Merge.{Fields, Value, str}
use ks_upgrade.Storage.{Bytes}
use ks_upgrade.Store.{Codec}
use ks_upgrade.Jobs.Core.Objects.{Webhook, Deployment, ClusterCondition, TemplatePlacement}
use ks_upgrade.Jobs.Core.Backup.{delete_kube_sphere_webhook}
use ks_upgrade.Jobs.Core.Backup.Recovery.{with_changes, delete_kube_sphere_webhook_mutating}
use ks_upgrade.Jobs.Core.Namespaces.{owner_loop, without_workspaces}
use ks_upgrade.Jobs.Core.Namespaces.Laws.{
  skipping, owner_loop-length, is_kept, Apart, without_workspaces_iff,
}
use ks_upgrade.Jobs.Core.Clusters.{ready_condition, upgrading}
use ks_upgrade.Jobs.Core.Clusters.Laws.{of_type, Holds, upgrading_lem}
use ks_upgrade.Jobs.Core.Workspaces.{
  delete_ownerless, delete_template_of, delete_system_workspace_template_in_member_cluster,
}
use ks_upgrade.Jobs.Core.Workspaces.Removal.{
  Absent, TemplateGone, delete_system_workspace_template_in_member_cluster-ok,
}
use ks_upgrade.Jobs.Core.Prepare.{
  all_scaled_down, scale_down_one, scaled_down_now, scale_down_deployments,
}
use ks_upgrade.Jobs.Core.Prepare.Laws.{
  write_scaled_down, is_needed, IsDown, scale_down_deployments-ok,
}
use ks_upgrade.Jobs.Core.Phases.{Steps, prepare_upgrade, pre_upgrade, post_upgrade}
use ks_upgrade.Jobs.Core.Phases.Laws.{upgrade_steps, upgrade_phases-ok}
use ks_upgrade.Examples.Memory.{memory}

-- What was changed, the last change first.
abbrev pub Log : Type 0
Log = List String

abbrev pub note : String → Action Log (Unit {0})
note text w = (ok tt, text ∷ w)

-- A client that lists these objects, and reads this result.
abbrev pub api_of : {S : Type 0} → List (Object S) → Result (Object S) → Api Log S
api_of items found = record {
  list = λ w. (ok items, w);
  get = λ space name w. (found, w);
  create = λ o. note ("create " <> o.meta.name);
  update = λ o. note ("update " <> o.meta.name);
  patch = λ n o. note ("patch " <> o.meta.name);
  delete = λ o. note ("delete " <> o.meta.name);
  create_or_update = λ o f. note ("write " <> o.meta.name);
}

abbrev pub meta : String → Option (Dict String) → ObjectMeta
meta name labels = record {
  name = name;
  namespace = "";
  labels = labels;
  annotations = none;
  finalizers = [];
  owner_references = [];
  deletion_timestamp = none;
  resource_version = "";
}

abbrev pub named : {S : Type 0} → String → S → Object S
named name spec = record { meta = meta name none; spec = spec }

abbrev owner : String → String → OwnerReference
owner kind name = record { kind = kind; name = name }

abbrev two_workspaces : List OwnerReference
two_workspaces = owner "Workspace" "a" ∷ owner "Workspace" "b" ∷ owner "Node" "n" ∷ []

-- The second workspace is left.
two_left : without_workspaces two_workspaces ≡ owner "Workspace" "b" ∷ owner "Node" "n" ∷ []
unfolding without_workspaces owner_loop
two_left = (owner_loop-length two_workspaces).1

owner_loop-length_example :
    (owner_loop (length two_workspaces) 0 two_workspaces ≡ some (skipping two_workspaces))
    × (without_workspaces two_workspaces ≡ skipping two_workspaces)
owner_loop-length_example = owner_loop-length two_workspaces

without_workspaces_iff_example :
    (without_workspaces two_workspaces ≡ select is_kept two_workspaces) ↔ Apart two_workspaces
without_workspaces_iff_example = without_workspaces_iff two_workspaces

abbrev webhooks : Codec (List (Object (List Webhook)))
webhooks = record { marshal = λ items. ok []; decode = λ b. ok [] }

abbrev webhook_api : Api (Dict Bytes) (List Webhook)
webhook_api = record {
  list = λ w. (ok (named "m" [] ∷ []), w);
  get = λ space name w. (ok (named "m" []), w);
  create = λ o w. (ok tt, w);
  update = λ o w. (ok tt, w);
  patch = λ n o w. (ok tt, w);
  delete = λ o w. (ok tt, w);
  create_or_update = λ o f w. (ok tt, w);
}

delete_kube_sphere_webhook_mutating_example :
    delete_kube_sphere_webhook memory webhooks webhooks webhook_api webhook_api (λ w. pos 0) []
    ≡ delete_kube_sphere_webhook memory webhooks webhooks webhook_api
        (with_changes webhook_api (λ n o w. (panic, w)) (λ o w. (panic, w)))
        (λ w. pos 0)
        []
delete_kube_sphere_webhook_mutating_example =
    delete_kube_sphere_webhook_mutating memory webhooks webhooks webhook_api webhook_api
      (λ w. pos 0) (λ n o w. (panic, w)) (λ o w. (panic, w)) []

abbrev member : Object (List ClusterCondition)
member = record {
  meta = meta "member" (some (("zone", "east") ∷ []));
  spec = ready_condition (pos 1, pos 1) ∷ [];
}

abbrev host : Object (List ClusterCondition)
host = record {
  meta = meta "host" (some (("cluster-role.kubesphere.io/host", "") ∷ []));
  spec = [];
}

abbrev times : (ℤ × ℤ) × (ℤ × ℤ)
times = ((pos 7, pos 8), (pos 9, pos 10))

upgrading_lem_example :
    ((x : ClusterCondition) × (of_type "KSCoreReady" (upgrading times member).spec ≡ x ∷ [])
      × Holds "True" (pos 7, pos 8) x)
    × ((x : ClusterCondition) × (of_type "Schedulable" (upgrading times member).spec ≡ x ∷ [])
        × Holds "False" (pos 9, pos 10) x)
    × ((("KSCoreReady" == "Ready") || ("Schedulable" == "Ready")) ≡ false
        → of_type "Ready" (upgrading times member).spec ≡ of_type "Ready" member.spec)
    × (Dict.lookup "zone" (entries (upgrading times member).meta.labels) ≡ (
        if "kubesphere.io/managed" == "zone"
        then some "true"
        else Dict.lookup "zone" (entries member.meta.labels)))
upgrading_lem_example = upgrading_lem (pos 7, pos 8) (pos 9, pos 10) member "Ready" "zone"

abbrev clusters : Api Log (List ClusterCondition)
clusters = api_of (host ∷ member ∷ []) (ok member)

abbrev missing : Error
missing = status not_found none

abbrev is_host : Action Log Bool
is_host w = (ok true, w)

abbrev is_member_cluster : Action Log Bool
is_member_cluster w = (ok false, w)

abbrev gone : Api Log String
gone = api_of [] (err missing)

abbrev placement : List String → TemplatePlacement ℕ
placement names = record { clusters = names; cluster_selector = none }

abbrev workspaces : Api Log (Option Bool)
workspaces = api_of [] (ok (named "system-workspace" none))

abbrev templates : Api Log (TemplatePlacement ℕ)
templates =
    api_of (named "a" (placement []) ∷ named "b" (placement ("east" ∷ [])) ∷ [])
      (ok (named "system-workspace" (placement [])))

abbrev orphan : Object (TemplatePlacement ℕ) → Action Log (Unit {0})
orphan o = note ("orphan " <> o.meta.name)

abbrev removed : Log
removed = "orphan system-workspace" ∷ "update system-workspace" ∷ []

delete_system_workspace_template_in_member_cluster-ok_example :
    (is_member_cluster [] ≡ (ok true, removed))
    ⊎ ((v : Log) × (is_member_cluster [] ≡ (ok false, v))
        × (Absent workspaces v removed
            ⊎ ((workspace : Object (Option Bool)) × (v' : Log) × (workspaces.get ""
                    "system-workspace" v
                  ≡ (ok workspace, v'))
                × TemplateGone workspaces templates orphan workspace v' removed)))
unfolding delete_system_workspace_template_in_member_cluster delete_template_of delete_ownerless
delete_system_workspace_template_in_member_cluster-ok_example =
    delete_system_workspace_template_in_member_cluster-ok workspaces templates orphan
      is_member_cluster [] removed refl

abbrev options : Fields
options = Merge.field "hostClusterName" (str "west") Merge.end

abbrev deployment : String → ℕ → Object Deployment
deployment name available =
    named name (record { replicas = some 1; available_replicas = available })

abbrev running : Api Log Deployment
running = api_of (deployment "ks-apiserver" 0 ∷ deployment "other" 2 ∷ []) (err missing)

-- One poll, which fails if the condition does not hold.
abbrev polled : Result Bool → Result (Unit {0})
polled (ok true) = ok tt
polled (ok false) = err (message "timed out")
polled (err e) = err e
polled panic = panic

abbrev pub poll_once : Action Log Bool → Action Log (Unit {0})
poll_once condition w = let (r, w') = condition w in (polled r, w')

polled-ok : (r : Result Bool) → polled r ≡ ok tt → r ≡ ok true
polled-ok (ok true) h = refl
polled-ok (ok false) h = cc
polled-ok (err e) h = cc
polled-ok panic h = cc

pub poll_once-ok :
    (condition : Action Log Bool) (u w : Log)
    → poll_once condition u ≡ (ok tt, w)
    → (v : Log) × (condition v ≡ (ok true, w))
poll_once-ok condition u w h = (
  u,
  ap₂ (λ (r : Result Bool) (x : Log). (r, x))
      (polled-ok (condition u).0 (ap (λ (p : Result (Unit {0}) × Log). p.0) h))
      (ap (λ (p : Result (Unit {0}) × Log). p.1) h),
)

scale_down_deployments-ok_example :
    (items last : List (Object Deployment)) × (v v' v2 : Log) × (running.list [] ≡ (ok items, v))
    × Ran (write_scaled_down running) (select is_needed items) v v'
    × (running.list v2 ≡ (ok last, "write ks-apiserver" ∷ []))
    × All IsDown last
unfolding scale_down_deployments scale_down_one scaled_down_now all_scaled_down each contains
scale_down_deployments-ok_example =
    scale_down_deployments-ok running poll_once [] ("write ks-apiserver" ∷ []) poll_once-ok refl

abbrev config_map : Action (Dict Bytes) (Dict String)
config_map w = (ok (("kubesphere.yaml", "text") ∷ []), w)

abbrev parse : String → Result Fields
parse text = ok options

abbrev print : Fields → Result Bytes
print fields = ok (5 ∷ [])

abbrev core_steps : Steps Log
core_steps = record {
  scale_down_deployments = note "scale down";
  remove_namespace_owner_reference = note "owners";
  delete_kube_sphere_webhook = note "webhooks";
  refresh_host_cluster_kube_config = note "kubeconfig";
  network_prepare_upgrade = note "network";
  patch_system_workspace_template = note "template";
  delete_system_workspace_template_in_member_cluster = note "member";
  validate_cluster_role = note "role";
  patch_upgrade_job_pv = note "volumes";
  backup_kube_sphere_config = note "config";
  update_member_clusters = note "clusters";
  delete_kube_sphere_resource = note "installer";
  update_namespace_labels = note "labels";
  update_workspace_placement = note "placement";
  patch_workspace_templates = note "managers";
  recover_kube_sphere_webhook = note "recover webhooks";
  recover_kube_sphere_resource = note "recover installer";
}

abbrev prepared : Log
prepared =
    "member" ∷ "template" ∷ "network" ∷ "kubeconfig" ∷ "webhooks" ∷ "owners" ∷ "scale down" ∷ []

abbrev preceded : Log
preceded =
    "placement" ∷ "labels" ∷ "installer" ∷ "clusters" ∷ "config" ∷ "volumes" ∷ "role" ∷ prepared

upgrade_phases-ok_example : InOrder (upgrade_steps core_steps) [] ("managers" ∷ preceded)
unfolding prepare_upgrade pre_upgrade post_upgrade
upgrade_phases-ok_example =
    upgrade_phases-ok core_steps [] prepared preceded ("managers" ∷ preceded) refl refl refl
