-- ===== src/Jobs/Iam/Convert.antt =====
-- The conversions of pkg/jobs/iam/types.go. Each asserts the type of its argument: an object of
-- another type is a panic.
pub mod Laws
use ks_upgrade.Base.{
  String, ◌≡◌, Bool, true, false, if◌then◌else◌, not, List, [], ◌∷◌, Option, none, some, Result, ok,
  err, panic, ◌==◌,
}
use ks_upgrade.Base.Dict
use ks_upgrade.Base.Dict.{Dict}
use ks_upgrade.Jobs.Iam.Objects.{
  ObjectMeta, Subject, RoleRef, Binding, UserSpec, LoginRecordSpec, LoginRecord, Workspace,
  UserStatus, User, OldRole, NewRole, WorkspaceTemplate, OldObject, NewObject, user, global_role,
  workspace_role, role, cluster_role, global_role_binding, workspace_role_binding, role_binding,
  cluster_role_binding, login_record, workspace, workspace_template, other, new_user,
  new_global_role, new_workspace_role, new_role, new_cluster_role, new_global_role_binding,
  new_workspace_role_binding, new_role_binding, new_cluster_role_binding, new_login_record,
  new_workspace, new_workspace_template, resource_user, resource_role_base, resource_global_role,
  resource_global_role_binding, resource_workspace_role, resource_workspace_role_binding,
  resource_role, resource_role_binding, resource_cluster_role, resource_cluster_role_binding,
  resource_login_record, resource_group, resource_group_binding, resource_workspace,
  resource_workspace_template,
}

abbrev pub user_ref : String
user_ref = "iam.kubesphere.io/user-ref"

abbrev pub role_ref_label : String
role_ref_label = "iam.kubesphere.io/role-ref"

abbrev pub aggregation_roles : String
aggregation_roles = "iam.kubesphere.io/aggregation-roles"

abbrev pub iam_group : String
iam_group = "iam.kubesphere.io"

-- The entries of a map that may be nil; writing to a map that was nil makes one.
abbrev pub entries : Option (Dict String) → Dict String
entries none = []
entries (some d) = d

abbrev pub without : String → Option (Dict String) → Option (Dict String)
without k none = none
without k (some d) = some (Dict.erase k d)

-- The metadata of a converted object: that of a custom resource keeps its finalizers and its
-- version, that of a built-in one does not.
abbrev pub crd_meta : ObjectMeta → ObjectMeta
crd_meta m = record {
  name = m.name;
  namespace = "";
  labels = m.labels;
  annotations = m.annotations;
  finalizers = m.finalizers;
  resource_version = m.resource_version;
}

abbrev pub role_meta : ObjectMeta → ObjectMeta
role_meta m = record {
  name = m.name;
  namespace = m.namespace;
  labels = m.labels;
  annotations = without aggregation_roles m.annotations;
  finalizers = [];
  resource_version = "";
}

abbrev pub binding_meta : String → ObjectMeta → ObjectMeta
binding_meta namespace m = record {
  name = m.name;
  namespace = namespace;
  labels = m.labels;
  annotations = m.annotations;
  finalizers = [];
  resource_version = "";
}

abbrev pub with_labels : Dict String → ObjectMeta → ObjectMeta
with_labels labels m = record {
  name = m.name;
  namespace = m.namespace;
  labels = some labels;
  annotations = m.annotations;
  finalizers = m.finalizers;
  resource_version = m.resource_version;
}

-- The loop over the subjects: the users among them, in the group of version 4.
unfoldable pub new_subjects : List Subject → List Subject
new_subjects [] = []
new_subjects (s ∷ subjects) =
    let rest = new_subjects subjects in
    if s.kind == "User"
    then record { kind = s.kind; api_group = iam_group; name = s.name; namespace = s.namespace }
      ∷ rest
    else rest

-- And the name that the loop ends with, from the one it has.
unfoldable pub username : String → List Subject → String
username name [] = name
username name (s ∷ subjects) = username (if s.kind == "User" then s.name else name) subjects

abbrev pub new_role_ref : RoleRef → RoleRef
new_role_ref r = record { api_group = iam_group; kind = r.kind; name = r.name }

unfoldable pub referring : RoleRef → String → Option (Dict String) → Dict String
referring r name labels =
    Dict.insert user_ref name (Dict.insert role_ref_label r.name (entries labels))

-- The bindings of built-in resources get both labels, whether or not they have a user.
unfoldable pub upgrade_builtin_binding : String → Binding → Binding
unfolding new_subjects username referring
upgrade_builtin_binding namespace b = record {
  meta =
      with_labels (referring b.role_ref (username "" b.subjects) b.meta.labels)
        (binding_meta namespace b.meta);
  subjects = new_subjects b.subjects;
  role_ref = new_role_ref b.role_ref;
}

-- Those of custom resources only if they have one.
unfoldable pub upgrade_crd_binding : Binding → Binding
unfolding new_subjects username referring
upgrade_crd_binding b = record {
  meta =
      with_labels
        (if not (username "" b.subjects == "")
          then referring b.role_ref (username "" b.subjects) b.meta.labels
          else entries b.meta.labels)
        (crd_meta b.meta);
  subjects = new_subjects b.subjects;
  role_ref = new_role_ref b.role_ref;
}

module _ {Raw : Type 0} where
  abbrev pub upgraded_role : ObjectMeta → OldRole Raw → NewRole Raw
  upgraded_role m r = record { meta = m; aggregation_role_templates = none; rules = r.rules }

  unfoldable pub role_upgrade_func : OldObject Raw → Result (NewObject Raw)
  role_upgrade_func (role r) = ok (new_role (upgraded_role (role_meta r.meta) r))
  role_upgrade_func _ = panic

  unfoldable pub cluster_role_upgrade_func : OldObject Raw → Result (NewObject Raw)
  cluster_role_upgrade_func (cluster_role r) =
      ok (new_cluster_role (upgraded_role (role_meta r.meta) r))
  cluster_role_upgrade_func _ = panic

  unfoldable pub role_binding_upgrade_func : OldObject Raw → Result (NewObject Raw)
  unfolding upgrade_builtin_binding
  role_binding_upgrade_func (role_binding b) =
      ok (new_role_binding (upgrade_builtin_binding b.meta.namespace b))
  role_binding_upgrade_func _ = panic

  unfoldable pub cluster_role_binding_upgrade_func : OldObject Raw → Result (NewObject Raw)
  unfolding upgrade_builtin_binding
  cluster_role_binding_upgrade_func (cluster_role_binding b) =
      ok (new_cluster_role_binding (upgrade_builtin_binding "" b))
  cluster_role_binding_upgrade_func _ = panic

  unfoldable pub upgrade_user_func : OldObject Raw → Result (NewObject Raw)
  upgrade_user_func (user u) =
      ok (new_user (record { meta = crd_meta u.meta; spec = u.spec; status = u.status }))
  upgrade_user_func _ = panic

  unfoldable pub upgrade_workspace_role_func : OldObject Raw → Result (NewObject Raw)
  upgrade_workspace_role_func (workspace_role r) =
      ok (new_workspace_role (upgraded_role (crd_meta r.meta) r))
  upgrade_workspace_role_func _ = panic

  unfoldable pub upgrade_global_role_func : OldObject Raw → Result (NewObject Raw)
  upgrade_global_role_func (global_role r) =
      ok (new_global_role (upgraded_role (crd_meta r.meta) r))
  upgrade_global_role_func _ = panic

  unfoldable pub upgrade_workspace_role_binding_func : OldObject Raw → Result (NewObject Raw)
  unfolding upgrade_crd_binding
  upgrade_workspace_role_binding_func (workspace_role_binding b) =
      ok (new_workspace_role_binding (upgrade_crd_binding b))
  upgrade_workspace_role_binding_func _ = panic

  unfoldable pub upgrade_global_role_binding_func : OldObject Raw → Result (NewObject Raw)
  unfolding upgrade_crd_binding
  upgrade_global_role_binding_func (global_role_binding b) =
      ok (new_global_role_binding (upgrade_crd_binding b))
  upgrade_global_role_binding_func _ = panic

  unfoldable pub upgrade_login_record_func : OldObject Raw → Result (NewObject Raw)
  upgrade_login_record_func (login_record r) =
      ok (new_login_record (record { meta = crd_meta r.meta; spec = r.spec }))
  upgrade_login_record_func _ = panic

  unfoldable pub upgrade_workspace_func : OldObject Raw → Result (NewObject Raw)
  upgrade_workspace_func (workspace x) =
      ok (new_workspace (record { meta = crd_meta x.meta; manager = x.manager }))
  upgrade_workspace_func _ = panic

  unfoldable pub upgrade_workspace_template_func : OldObject Raw → Result (NewObject Raw)
  upgrade_workspace_template_func (workspace_template t) = ok (
      new_workspace_template (record {
        meta = crd_meta t.meta;
        template_labels = t.template_labels;
        template_annotations = t.template_annotations;
        manager = t.manager;
        clusters = t.clusters;
        cluster_selector = t.cluster_selector;
      }))
  upgrade_workspace_template_func _ = panic

-- `UpgradeCRDFuncMap`
unfoldable pub upgrade_crd_func_map : {Raw : Type 0} → Dict (OldObject Raw → Result (NewObject Raw))
upgrade_crd_func_map =
    (resource_user, upgrade_user_func)
    ∷ (resource_workspace_role, upgrade_workspace_role_func)
    ∷ (resource_workspace_role_binding, upgrade_workspace_role_binding_func)
    ∷ (resource_global_role, upgrade_global_role_func)
    ∷ (resource_global_role_binding, upgrade_global_role_binding_func)
    ∷ (resource_login_record, upgrade_login_record_func)
    ∷ (resource_workspace, upgrade_workspace_func)
    ∷ (resource_workspace_template, upgrade_workspace_template_func)
    ∷ (resource_role, role_upgrade_func)
    ∷ (resource_role_binding, role_binding_upgrade_func)
    ∷ (resource_cluster_role, cluster_role_upgrade_func)
    ∷ (resource_cluster_role_binding, cluster_role_binding_upgrade_func)
    ∷ []
