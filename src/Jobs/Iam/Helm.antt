-- ===== src/Jobs/Iam/Helm.antt =====
-- `fixHelmManagedResourceAnnotations` and `fixConflictResources` of pkg/jobs/iam/iam.go: what is made
-- part of the release of ks-core.
pub mod Laws
use text.Mathlib.Text.{find?}
use ks_upgrade.Base.{
  ℕ, String, ◌<>◌, ◌≡◌, ℤ, lt_int, Bool, true, false, if◌then◌else◌, ◌&&◌, not, List, [], ◌∷◌, ◌++◌,
  Option, none, some, Error, message, described, Result, ok, err, panic, is_not_found, ltb, ◌==◌,
}
use ks_upgrade.Base.Action.{Action, pure, raise, lift, ◌>>=◌, ◌>>◌, continue, on_result, attempt}
use ks_upgrade.Base.Dict
use ks_upgrade.Base.Loops.{each}
use ks_upgrade.Jobs.Iam.Cluster.{Client}
use ks_upgrade.Jobs.Iam.Convert.{entries, user_ref}
use ks_upgrade.Jobs.Iam.Objects.{ObjectMeta}

-- An object of any kind, as far as it is looked into.
pub record Managed : Type 0 where
  pub kind : String
  pub meta : ObjectMeta

abbrev pub named : String → String → String → Managed
named kind namespace name = record {
  kind = kind;
  meta = record {
    name = name;
    namespace = namespace;
    labels = none;
    annotations = none;
    finalizers = [];
    resource_version = "";
  };
}

abbrev pub with_maps : Dict.Dict String → Dict.Dict String → Managed → Managed
with_maps labels annotations o = record {
  kind = o.kind;
  meta = record {
    name = o.meta.name;
    namespace = o.meta.namespace;
    labels = some labels;
    annotations = some annotations;
    finalizers = o.meta.finalizers;
    resource_version = o.meta.resource_version;
  };
}

-- The resources of `fixHelmManagedResourceAnnotations`, which are those of `fixConflictResources`
-- but the last.
abbrev pub managed_resources : List Managed
managed_resources =
    named "ConfigMap" "kubesphere-system" "kubesphere-config"
    ∷ named "GlobalRole" "" "anonymous"
    ∷ named "GlobalRole" "" "authenticated"
    ∷ named "GlobalRole" "" "platform-admin"
    ∷ named "GlobalRole" "" "platform-regular"
    ∷ named "GlobalRole" "" "platform-self-provisioner"
    ∷ named "GlobalRole" "" "pre-registration"
    ∷ named "GlobalRoleBinding" "" "admin"
    ∷ named "GlobalRoleBinding" "" "anonymous"
    ∷ named "GlobalRoleBinding" "" "authenticated"
    ∷ named "GlobalRoleBinding" "" "pre-registration"
    ∷ named "WorkspaceTemplate" "" "system-workspace"
    ∷ []

abbrev pub release_resources : List Managed
release_resources = managed_resources ++ named "Repository" "" "extensions-museum" ∷ []

-- The annotations and the label that helm knows its resources by.
unfoldable pub helm_managed : Managed → Managed
helm_managed o =
    with_maps (Dict.insert "app.kubernetes.io/managed-by" "Helm" (entries o.meta.labels))
      (Dict.insert "meta.helm.sh/release-namespace" "kubesphere-system"
        (Dict.insert "meta.helm.sh/release-name" "ks-core" (entries o.meta.annotations)))
      o

module _ {W : Type 0} (client : Client W Managed) where
  unfoldable pub fix_annotations : Managed → Action W (Unit {0})
  unfolding helm_managed
  fix_annotations o =
      attempt (client.get o) (λ found. client.update (helm_managed found))
        (λ e. if is_not_found e then pure tt else raise e)

  unfoldable pub fix_helm_managed_resource_annotations : Action W (Unit {0})
  unfolding fix_annotations
  fix_helm_managed_resource_annotations = each fix_annotations managed_resources

pub record Release : Type 0 where
  pub name : String
  pub version : ℤ
  pub is_deployed : Bool
  pub manifest : String

-- The loop over the releases, from the one it has.
unfoldable pub latest_release : Release → List Release → Release
latest_release latest [] = latest
latest_release latest (r ∷ releases) =
    latest_release (if r.is_deployed && lt_int latest.version r.version then r else latest) releases

abbrev pub contains_text : String → String → Bool
contains_text s t = elim (find? s t) [ none ↦ false | some i ↦ true ]

-- The loop over the resources: those that the manifest does not name are written behind it.
-- `yaml` prints a resource.
unfoldable pub new_manifest : (Managed → String) → String → List Managed → String → String
new_manifest yaml manifest [] buf = buf
new_manifest yaml manifest (o ∷ resources) buf = new_manifest yaml manifest resources (
    if not (contains_text manifest ("name: " <> o.meta.name))
    then buf <> "---\n" <> yaml o
    else buf)

abbrev pub with_manifest : String → Release → Release
with_manifest manifest r = record {
  name = r.name;
  version = r.version;
  is_deployed = r.is_deployed;
  manifest = manifest;
}

-- The change to the binding: its label names the user.
abbrev pub of_admin : Managed → Managed
of_admin o = record {
  kind = o.kind;
  meta = record {
    name = o.meta.name;
    namespace = o.meta.namespace;
    labels = some (Dict.insert user_ref "admin" (entries o.meta.labels));
    annotations = o.meta.annotations;
    finalizers = o.meta.finalizers;
    resource_version = o.meta.resource_version;
  };
}

-- `create_or_update` is that of controllerutil, for an object and the change to make to it; `list`
-- and `update` are those of helm's driver over the secrets of the job, for the releases of the name
-- ks-core; `size` is the length of a text in bytes.
module _ {W : Type 0} (create_or_update : Managed → (Managed → Managed) → Action W (Unit {0}))
    (list : Action W (List Release)) (update : Release → Action W (Unit {0}))
    (yaml : Managed → String) (size : String → ℕ) where
  unfoldable pub update_release : Release → Action W (Unit {0})
  unfolding new_manifest
  update_release r =
      let manifest = new_manifest yaml r.manifest release_resources r.manifest in
      if ltb (size r.manifest) (size manifest)
      then attempt (update (with_manifest manifest r)) pure
          (λ e. raise (described "failed to update release" e))
      else pure tt

  unfoldable pub fix_releases : List Release → Action W (Unit {0})
  unfolding update_release latest_release
  fix_releases [] = raise (message "failed to find release ks-core")
  fix_releases (r ∷ releases) = update_release (latest_release r (r ∷ releases))

  unfoldable pub fix_conflict_resources : Action W (Unit {0})
  unfolding fix_releases
  fix_conflict_resources =
      attempt (create_or_update (named "GlobalRoleBinding" "" "admin") of_admin)
        (λ _. list >>= fix_releases)
        (λ e. raise (described "failed to fix conflict resources admin" e))
