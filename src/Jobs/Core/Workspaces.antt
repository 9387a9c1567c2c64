-- ===== src/Jobs/Core/Workspaces.antt =====
-- pkg/jobs/core/core.go: workspaces and their templates in both versions.
pub mod Laws
pub mod Removal
use ks_upgrade.Jobs.Objects.{
  OwnerReference, ObjectMeta, Object, Api, is_empty, is_set, entries, text_of, is_absent,
}
use ks_upgrade.Base.{
  String, ◌<>◌, Bool, true, false, if◌then◌else◌, ◌&&◌, ◌||◌, not, contains, Option, none, some,
  List, [], ◌∷◌, ◌++◌, Error, message, described, Result, ok, err, panic, is_not_found, is_no_match,
  ◌==◌,
}
use ks_upgrade.Base.Action.{Action, pure, raise, lift, ◌>>=◌, ◌>>◌, attempt}
use ks_upgrade.Base.Dict
use ks_upgrade.Base.Dict.{Dict}
use ks_upgrade.Base.Loops.{each, gather, aggregated}
use ks_upgrade.Config.Merge
use ks_upgrade.Config.Merge.{Fields, Value, object, str}
use ks_upgrade.Jobs.Core.Objects.{TemplatePlacement}

abbrev pub system_workspace : String
system_workspace = "system-workspace"

abbrev pub workspace_template_protection : String
workspace_template_protection = "kubesphere.io/protection"

-- The specification of a template of version 4 is the name of its manager.
module _ {W : Type 0} (templates : Api W String) where
  unfoldable pub patch_workspace_template : Object String → Action W (Unit {0})
  patch_workspace_template t =
      if not (t.spec == "") || is_set t.meta.deletion_timestamp
      then pure tt
      else attempt (templates.create_or_update t (λ o. record o { spec = "admin" })) pure
          (λ e. raise (described ("failed to patch workspace template " <> t.meta.name) e))

  unfoldable pub patch_workspace_templates : Action W (Unit {0})
  unfolding patch_workspace_template
  patch_workspace_templates =
      attempt templates.list (each patch_workspace_template)
        (λ e. raise (described "failed to list workspace templates" e))

abbrev pub protected : {S : Type 0} → Object S → Object S
protected o = record o {
  meta = record o.meta { finalizers = o.meta.finalizers ++ workspace_template_protection ∷ [] };
}

-- One half of `patchSystemWorkspaceTemplate`, for the template of one version.
unfoldable pub protect_template : {W S : Type 0} → Api W S → Object S → Action W (Unit {0})
protect_template api t =
    if contains t.meta.finalizers workspace_template_protection
    then pure tt
    else attempt (api.patch (protected t) t) pure
        (λ e. raise (described "failed to patch system workspace template" e))

unfoldable pub protect_system_template : {W S : Type 0} → Api W S → Action W (Unit {0})
unfolding protect_template
protect_system_template api = attempt (api.get "" system_workspace) (protect_template api) (λ e.
    if not (is_no_match e) && not (is_not_found e)
    then raise (described "failed to get system workspace template" e)
    else pure tt)

-- Whether the template of one version is there, and what is asked next where it is not.
unfoldable pub template_exists : {W S : Type 0} → Api W S → Action W Bool → Action W Bool
template_exists api next =
    attempt (api.get "" system_workspace) (λ _. pure true)
      (λ e.
        if not (is_not_found e)
        then raise (described "failed to get system workspace template" e)
        else next)

module _ {W S T : Type 0} (v3 : Api W S) (v4 : Api W T) where
  unfoldable pub patch_system_workspace_template : Action W (Unit {0})
  unfolding protect_system_template
  patch_system_workspace_template = protect_system_template v3 >> protect_system_template v4

  unfoldable pub check_if_system_workspace_template_exists : Action W Bool
  unfolding template_exists
  check_if_system_workspace_template_exists = template_exists v3 (template_exists v4 (pure false))

  unfoldable pub validate_cluster_role : Action W Bool → Action W (Unit {0})
  unfolding check_if_system_workspace_template_exists
  validate_cluster_role is_host_cluster =
      attempt is_host_cluster
        (λ is_host.
          attempt check_if_system_workspace_template_exists
            (λ exists.
              if not is_host && exists
              then raise (message "system workspace template exists in managed cluster")
              else pure tt)
            (λ e. raise (described "failed to check if the system workspace template exists" e)))
        (λ e. raise (described "failed to check if the cluster is host cluster" e))

abbrev pub ownerless : {S : Type 0} → Object S → Object S
ownerless o = record o { meta = record o.meta { finalizers = []; owner_references = [] } }

-- `delete_orphaning` is a deletion that leaves the dependents of the template.
module _ {W S T : Type 0} (workspaces : Api W T) (templates : Api W S)
    (delete_orphaning : Object S → Action W (Unit {0})) where
  unfoldable pub delete_ownerless : Object S → Action W (Unit {0})
  delete_ownerless t =
      attempt (templates.update (ownerless t))
        (λ _. attempt (delete_orphaning (ownerless t)) pure (λ e.
          if is_not_found e
          then pure tt
          else raise (described "failed to delete system workspace template" e)))
        (λ e. raise (described "failed to update system workspace template" e))

  unfoldable pub delete_template_of : Object T → Action W (Unit {0})
  unfolding delete_ownerless
  delete_template_of workspace =
      if not (is_empty workspace.meta.owner_references)
      then raise (message "system workspace has unexpected owner reference")
      else attempt (templates.get "" system_workspace) delete_ownerless (λ e.
        if is_absent e
        then pure tt
        else raise (described "failed to get system workspace template" e))

  unfoldable pub delete_system_workspace_template_in_member_cluster :
      Action W Bool → Action W (Unit {0})
  unfolding delete_template_of
  delete_system_workspace_template_in_member_cluster is_host_cluster =
      attempt is_host_cluster
        (λ is_host.
          if is_host
          then pure tt
          else attempt (workspaces.get "" system_workspace) delete_template_of (λ e.
            if is_absent e then pure tt else raise (described "failed to get system workspace" e)))
        (λ e. raise (described "failed to check if the cluster is host cluster" e))

abbrev pub is_none_role : Option Value → Bool
is_none_role (some (str s)) = s == "none"
is_none_role _ = false

-- `NestedString` of a document: a value of another type on the way is an error, which is logged.
abbrev pub is_single_config : Option Value → Bool
is_single_config (some (object fields)) = is_none_role (Merge.lookup "clusterRole" fields)
is_single_config _ = false

module _ {W : Type 0} (get_config_map : Action W (Dict String))
    (unmarshal : String → Result Fields) where
  unfoldable pub is_single_document : String → Result Bool
  is_single_document text = elim (unmarshal text) [
    | err e ↦ err (described "failed to unmarshal value from configmap" e)
    | panic ↦ panic
    | ok fields ↦ ok (is_single_config (Merge.lookup "multicluster" fields))
  ]

  unfoldable pub is_single_cluster : Action W Bool
  unfolding is_single_document
  is_single_cluster = get_config_map >>= λ entries. elim (Dict.lookup "kubesphere.yaml" entries) [
    | none ↦ raise (message "failed to get configmap kubesphere.yaml value")
    | some text ↦ lift (is_single_document text)
  ]

abbrev pub name_or_host : Option Value → String
name_or_host (some (str s)) = if s == "" then "host" else s
name_or_host _ = "host"

-- The options of the job; nil options read as none at all.
abbrev pub host_cluster_name : Fields → String
host_cluster_name options = name_or_host (Merge.lookup "hostClusterName" options)

module _ {W Raw : Type 0} (templates : Api W (TemplatePlacement Raw)) where
  abbrev pub is_unplaced : Object (TemplatePlacement Raw) → Bool
  is_unplaced t = not (is_set t.spec.cluster_selector) && is_empty t.spec.clusters

  abbrev pub placed_on : String → Object (TemplatePlacement Raw) → Object (TemplatePlacement Raw)
  placed_on host t = record t { spec = record t.spec { clusters = host ∷ [] } }

  unfoldable pub place_template : String → Object (TemplatePlacement Raw) → Action W (Unit {0})
  place_template host t = if is_unplaced t then templates.update (placed_on host t) else pure tt

  unfoldable pub update_workspace_placement : Action W Bool → Fields → Action W (Unit {0})
  unfolding place_template
  update_workspace_placement is_single options = is_single >>= λ single.
      if not single
      then pure tt
      else templates.list >>= λ items.
          gather (λ t e. described ("failed to update workspace template " <> t.meta.name) e)
            (place_template (host_cluster_name options)) items
          >>= λ errors. aggregated errors
