-- ===== src/Jobs/Iam/Roles.antt =====
-- `DefaultCustomRoles` and `UpdateUserGlobalRoleAnnotation` of pkg/jobs/iam/iam.go, with the options
-- of pkg/jobs/iam/types.go.
pub mod Laws
use ks_upgrade.Base.{
  String, ◌<>◌, ◌≡◌, Bool, true, false, if◌then◌else◌, not, ◌||◌, List, [], ◌∷◌, Option, none, some,
  Error, message, described, Result, ok, err, panic, contains, ◌==◌,
}
use ks_upgrade.Base.Action.{Action, pure, raise, lift, ◌>>=◌, ◌>>◌, continue, on_result, attempt}
use ks_upgrade.Base.Dict
use ks_upgrade.Base.Dict.{Dict}
use ks_upgrade.Base.Loops.{each, gather}
use ks_upgrade.Base.Loops.{aggregated}
use ks_upgrade.Jobs.Iam.Convert.{entries}
use ks_upgrade.Jobs.Iam.Filters.{is_custom_role}
use ks_upgrade.Jobs.Iam.Objects.{
  ObjectMeta, NewRole, Binding, User, resource_role, resource_workspace_role, resource_global_role,
}

-- The empty text of a missing key.
abbrev pub value_or_empty : String → Dict String → String
value_or_empty k d = elim (Dict.lookup k d) [ none ↦ "" | some v ↦ v ]

abbrev pub workspace_label : String
workspace_label = "kubesphere.io/workspace"

-- The pattern `^NAME-(admin|regular|self-provisioner|viewer)$`, with the workspace's name for NAME.
-- The name is not escaped there: a dot of it matches every character, which is not modelled.
abbrev pub matches_builtin : String → String → Bool
matches_builtin workspace name =
    (name == (workspace <> "-admin"))
    || (name == (workspace <> "-regular"))
    || (name == (workspace <> "-self-provisioner"))
    || (name == (workspace <> "-viewer"))

unfoldable pub is_custom_workspace_role : ObjectMeta → Bool
is_custom_workspace_role m =
    not (matches_builtin (value_or_empty workspace_label (entries m.labels)) m.name)

abbrev pub builtin_global_roles : List String
builtin_global_roles =
    "anonymous" ∷ "authenticated" ∷ "platform-admin" ∷ "platform-regular"
    ∷ "platform-self-provisioner" ∷ "pre-registration" ∷ "ks-console" ∷ []

unfoldable pub is_custom_global_role : ObjectMeta → Bool
is_custom_global_role m = not (contains builtin_global_roles m.name)

pub record DefaultCustomRoleOption : Type 0 where
  pub resource : String
  pub filter_func : ObjectMeta → Bool

unfoldable pub default_custom_role_options : List DefaultCustomRoleOption
unfolding is_custom_role is_custom_workspace_role is_custom_global_role
default_custom_role_options =
    record { resource = resource_role; filter_func = is_custom_role }
    ∷ record { resource = resource_workspace_role; filter_func = is_custom_workspace_role }
    ∷ record { resource = resource_global_role; filter_func = is_custom_global_role }
    ∷ []

-- `DefaultFunc`, the same for the three kinds of roles.
unfoldable pub without_rules : {Raw : Type 0} → NewRole Raw → NewRole Raw
without_rules r = record {
  meta = r.meta;
  aggregation_role_templates = r.aggregation_role_templates;
  rules = [];
}

module _ {W Raw : Type 0} (list : String → Action W (List (NewRole Raw)))
    (update : String → NewRole Raw → Action W (Unit {0})) where
  unfoldable pub default_role : DefaultCustomRoleOption → NewRole Raw → Action W (Unit {0})
  unfolding without_rules
  default_role o r =
      if not (o.filter_func r.meta) then pure tt else update o.resource (without_rules r)

  unfoldable pub default_roles : DefaultCustomRoleOption → Action W (Unit {0})
  unfolding default_role
  default_roles o = list o.resource >>= λ items.
      gather (λ r e. described ("failed to update resource " <> o.resource) e) (default_role o)
        items
      >>= λ errors. aggregated errors

  unfoldable pub default_custom_roles : Action W (Unit {0})
  unfolding default_roles default_custom_role_options
  default_custom_roles = each default_roles default_custom_role_options

abbrev pub global_role_annotation : String
global_role_annotation = "iam.kubesphere.io/globalrole"

abbrev pub annotated : {Raw : Type 0} → String → User Raw → User Raw
annotated role_name u = record {
  meta = record {
    name = u.meta.name;
    namespace = u.meta.namespace;
    labels = u.meta.labels;
    annotations = some (Dict.insert global_role_annotation role_name (entries u.meta.annotations));
    finalizers = u.meta.finalizers;
    resource_version = u.meta.resource_version;
  };
  spec = u.spec;
  status = u.status;
}

-- `bindings_of` lists the global role bindings of a user.
module _ {W Raw : Type 0} (bindings_of : String → Action W (List Binding))
    (update : User Raw → Action W (Unit {0})) where
  unfoldable pub annotate_from : User Raw → List Binding → Action W (Unit {0})
  annotate_from u [] = pure tt
  annotate_from u (b ∷ bindings) =
      attempt (update (annotated b.role_ref.name u)) pure
        (λ e. raise (message ("failed to update globalrolebinding of user " <> u.meta.name)))

  unfoldable pub annotate_user : User Raw → Action W (Unit {0})
  unfolding annotate_from
  annotate_user u =
      if value_or_empty global_role_annotation (entries u.meta.annotations) == ""
      then attempt (bindings_of u.meta.name) (annotate_from u)
          (λ e. raise (message ("failed to list globalrolebinding of user " <> u.meta.name)))
      else pure tt

  unfoldable pub update_user_global_role_annotation :
      Action W (List (User Raw)) → Action W (Unit {0})
  unfolding annotate_user
  update_user_global_role_annotation list =
      list >>= λ users. gather (λ u e. e) annotate_user users >>= λ errors. aggregated errors
