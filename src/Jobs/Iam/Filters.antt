-- ===== src/Jobs/Iam/Filters.antt =====
-- `StoreOptions` of pkg/jobs/iam/types.go: the resources whose objects are stored and migrated,
-- and which of their objects. Each filter asserts the type of its argument.
use ks_upgrade.Base.{
  String, Bool, false, if◌then◌else◌, not, List, [], ◌∷◌, Option, none, some, Result, ok, panic,
  contains,
}
use ks_upgrade.Base.Dict
use ks_upgrade.Base.Dict.{Dict}
use ks_upgrade.Jobs.Iam.Convert.{entries, user_ref}
use ks_upgrade.Jobs.Iam.Objects.{
  ObjectMeta, Binding, OldObject, role, role_binding, cluster_role_binding, global_role_binding,
  resource_user, resource_role_base, resource_global_role, resource_global_role_binding,
  resource_workspace_role, resource_workspace_role_binding, resource_role, resource_role_binding,
  resource_cluster_role_binding, resource_login_record, resource_group, resource_group_binding,
  resource_workspace, resource_workspace_template,
}

abbrev pub creator : String
creator = "kubesphere.io/creator"

abbrev pub builtin_roles : List String
builtin_roles = "admin" ∷ "viewer" ∷ "operator" ∷ []

-- A role that someone made, and that has no built-in name.
unfoldable pub is_custom_role : ObjectMeta → Bool
is_custom_role m =
    if Dict.has creator (entries m.annotations) then not (contains builtin_roles m.name) else false

abbrev pub has_user_ref : Binding → Bool
has_user_ref b = Dict.has user_ref (entries b.meta.labels)

module _ {Raw : Type 0} where
  unfoldable pub global_role_binding_filter : OldObject Raw → Result Bool
  global_role_binding_filter (global_role_binding b) = ok (has_user_ref b)
  global_role_binding_filter _ = panic

  unfoldable pub role_filter : OldObject Raw → Result Bool
  unfolding is_custom_role
  role_filter (role r) = ok (is_custom_role r.meta)
  role_filter _ = panic

  unfoldable pub role_binding_filter : OldObject Raw → Result Bool
  role_binding_filter (role_binding b) = ok (has_user_ref b)
  role_binding_filter _ = panic

  unfoldable pub cluster_role_binding_filter : OldObject Raw → Result Bool
  cluster_role_binding_filter (cluster_role_binding b) = ok (has_user_ref b)
  cluster_role_binding_filter _ = panic

pub record StoreOption (Raw : Type 0) : Type 0 where
  pub resource : String
  pub filter_func : Option (OldObject Raw → Result Bool)

abbrev pub unfiltered : {Raw : Type 0} → String → StoreOption Raw
unfiltered resource = record { resource = resource; filter_func = none }

abbrev pub filtered : {Raw : Type 0} → String → (OldObject Raw → Result Bool) → StoreOption Raw
filtered resource p = record { resource = resource; filter_func = some p }

unfoldable pub store_options : {Raw : Type 0} → List (StoreOption Raw)
store_options =
    unfiltered resource_user
    ∷ unfiltered resource_role_base
    ∷ unfiltered resource_global_role
    ∷ filtered resource_global_role_binding global_role_binding_filter
    ∷ unfiltered resource_workspace_role
    ∷ unfiltered resource_workspace_role_binding
    ∷ filtered resource_role role_filter
    ∷ filtered resource_role_binding role_binding_filter
    ∷ filtered resource_cluster_role_binding cluster_role_binding_filter
    ∷ unfiltered resource_login_record
    ∷ unfiltered resource_group
    ∷ unfiltered resource_group_binding
    ∷ unfiltered resource_workspace
    ∷ unfiltered resource_workspace_template
    ∷ []
