-- ===== src/Examples/Reshaping.antt =====
-- pkg/jobs/iam: bindings that are converted, roles that are reset and what is removed.
use ks_upgrade.Base.{
  map, select, some, ℕ, String, ◌≡◌, ℤ, pos, Bool, true, false, List, [], ◌∷◌, ◌++◌, none, status,
  conflict, ok, err, ◌==◌,
}
use ks_upgrade.Base.Action.{Action}
use ks_upgrade.Jobs.Iam.Cleanup.{delete_deprecated_crds}
use ks_upgrade.Jobs.Iam.Cleanup.Laws.{delete_deprecated_crds_undeleted, with_deletion}
use ks_upgrade.Jobs.Iam.Cluster.{Crd, CrdClient}
use ks_upgrade.Jobs.Iam.Convert.{entries, upgrade_builtin_binding}
use ks_upgrade.Jobs.Iam.Convert.Laws.{
  iam_user, is_user, Refers, last_name, upgrade_builtin_binding_lem,
}
use ks_upgrade.Jobs.Iam.Helm.{Release}
use ks_upgrade.Jobs.Iam.Objects.{Subject, Binding, NewRole, NewObject}
use ks_upgrade.Jobs.Iam.Roles.{DefaultCustomRoleOption}
use ks_upgrade.Examples.Cluster.{named, new_admin, Names, missing, cluster, crds, there}
use ks_upgrade.Jobs.Iam.KubeFed.{KubeFed}

abbrev subject : String → String → Subject
subject kind name = record { kind = kind; api_group = "rbac"; name = name; namespace = "" }

abbrev binding : List Subject → Binding
binding subjects = record {
  meta = named "admins";
  subjects = subjects;
  role_ref = record { api_group = "rbac"; kind = "ClusterRole"; name = "cluster-admin" };
}

abbrev two_subjects : Binding
two_subjects = binding (subject "Group" "devs" ∷ subject "User" "admin" ∷ [])

upgrade_builtin_binding_lem_example :
    ((upgrade_builtin_binding "dev" two_subjects).subjects
      ≡ map iam_user (select is_user two_subjects.subjects))
    × Refers two_subjects
        (last_name "" (upgrade_builtin_binding "dev" two_subjects).subjects)
        (entries two_subjects.meta.labels)
        (entries (upgrade_builtin_binding "dev" two_subjects).meta.labels)
upgrade_builtin_binding_lem_example = upgrade_builtin_binding_lem "dev" two_subjects

abbrev listed : List (NewObject ℕ) → String → Action Names (List (NewObject ℕ))
listed objects resource w = (ok objects, w)

delete_deprecated_crds_undeleted_example :
    delete_deprecated_crds cluster
      (with_deletion crds (λ crd w. some (status conflict none)) (λ crd w. w))
      (listed (new_admin ∷ []))
      (λ r. true)
      there
    ≡ delete_deprecated_crds cluster
        (with_deletion crds (λ crd w. none) (λ crd w. w))
        (listed (new_admin ∷ []))
        (λ r. true)
        there
delete_deprecated_crds_undeleted_example =
    delete_deprecated_crds_undeleted cluster crds (listed (new_admin ∷ [])) (λ r. true)
      (λ crd w. some (status conflict none)) (λ crd w. w) there

abbrev role : String → NewRole ℕ
role name = record { meta = named name; aggregation_role_templates = none; rules = 1 ∷ [] }

abbrev roles : List (NewRole ℕ)
roles = role "platform-admin" ∷ role "auditor" ∷ []

abbrev list_roles : String → Action (List (NewRole ℕ)) (List (NewRole ℕ))
list_roles resource w = (ok roles, w)

abbrev update_role : String → NewRole ℕ → Action (List (NewRole ℕ)) (Unit {0})
update_role resource r w = (ok tt, w ++ r ∷ [])

abbrev global_option : DefaultCustomRoleOption
global_option = record { resource = "globalroles"; filter_func = λ m. m.name == "auditor" }

abbrev release : ℤ → Bool → Release
release version deployed = record {
  name = "ks-core";
  version = version;
  is_deployed = deployed;
  manifest = "";
}

abbrev releases : List Release
releases = release (pos 1) false ∷ release (pos 2) true ∷ []

-- A federation with one object.
abbrev federation : KubeFed Names (NewObject ℕ)
federation = record {
  get_namespace = λ w. (ok tt, w);
  get_deployment = λ w. (err missing, w);
  set_replicas = λ n w. (ok tt, w);
  list_pods = λ w. (ok 0, w);
  get_config = λ name w. (err missing, w);
  list = λ group version kind w. (ok (new_admin ∷ []), w);
}

abbrev federated : Crd
federated = record {
  name = "federatedusers.types.kubefed.io";
  group = "types.kubefed.io";
  kind = "FederatedUser";
  list_kind = "FederatedUserList";
  versions = [];
  stored_versions = "v1beta1" ∷ [];
}

abbrev federated_crds : CrdClient Names
federated_crds = record {
  get_crd = λ name w. (ok federated, w);
  update_crd = λ c w. (ok tt, w);
  update_status = λ c w. (ok tt, w);
  delete_crd = λ c w. (ok tt, w);
}
