-- ===== src/Jobs/Iam/Cluster.antt =====
-- pkg/jobs/iam/upgrade.go: what the job does with single objects and custom resource definitions,
-- over the calls of the API clients.
pub mod Laws
use ks_upgrade.Base.{
  String, ◌≡◌, Bool, true, false, if◌then◌else◌, not, ◌||◌, List, [], ◌∷◌, Option, none, some,
  Error, message, described, not_exist, backup_key_not_found, backup_not_found,
  no_deployed_releases, release_not_found, status, request_failure, aggregate, Result, ok, err,
  panic, is_not_found, contains, ◌==◌,
}
use ks_upgrade.Base.Action.{Action, pure, raise, lift, ◌>>=◌, ◌>>◌, continue, on_result, attempt}

-- A client, for the objects of some types. `get` reads the object of the type, the namespace and
-- the name of another one.
pub record Client (W Obj : Type 0) : Type 0 where
  pub get : Obj → Action W Obj
  pub create : Obj → Action W (Unit {0})
  pub update : Obj → Action W (Unit {0})
  pub delete : Obj → Action W (Unit {0})
  pub without_finalizers : Obj → Obj

pub record CrdVersion : Type 0 where
  pub name : String
  pub deprecated : Bool

pub record Crd : Type 0 where
  pub name : String
  pub group : String
  pub kind : String
  pub list_kind : String
  pub versions : List CrdVersion
  pub stored_versions : List String

pub record CrdClient (W : Type 0) : Type 0 where
  pub get_crd : String → Action W Crd
  pub update_crd : Crd → Action W (Unit {0})
  pub update_status : Crd → Action W (Unit {0})
  pub delete_crd : Crd → Action W (Unit {0})

abbrev pub namespace_terminating_cause : String
namespace_terminating_cause = "NamespaceTerminating"

-- `isNamespaceTerminating`, which panics on an error that is no `StatusError`.
unfoldable pub is_namespace_terminating : Error → Result Bool
is_namespace_terminating (status reason none) = ok false
is_namespace_terminating (status reason (some causes)) =
    ok (contains causes namespace_terminating_cause)
is_namespace_terminating _ = panic

-- The condition on the error of `Create`: whether it is returned.
unfoldable pub is_create_failure : Error → Result Bool
unfolding is_namespace_terminating
is_create_failure e = if not (is_not_found e) then ok true else elim (is_namespace_terminating e) [
  | ok terminating ↦ ok (not terminating)
  | err e' ↦ err e'
  | panic ↦ panic
]

module _ {W Obj : Type 0} (client : Client W Obj) where
  unfoldable pub create_upgraded : Obj → Action W (Unit {0})
  unfolding is_create_failure
  create_upgraded upgraded =
      attempt (client.create upgraded) pure
        λ e. lift (is_create_failure e) >>= λ failure. if failure then raise e else pure tt

  unfoldable pub object_migration : Obj → Action W (Unit {0})
  unfolding create_upgraded
  object_migration upgraded =
      attempt (client.get upgraded) (λ _. client.update upgraded)
        (λ e. if is_not_found e then create_upgraded upgraded else raise e)

  unfoldable pub delete_object_with_finalizer : Obj → Action W (Unit {0})
  delete_object_with_finalizer object =
      attempt (client.update (client.without_finalizers object))
        (λ _.
          attempt (client.delete object) pure (λ e. if is_not_found e then pure tt else raise e))
        (λ e. if is_not_found e then pure tt else raise e)

abbrev pub with_stored_versions : List String → Crd → Crd
with_stored_versions stored crd = record {
  name = crd.name;
  group = crd.group;
  kind = crd.kind;
  list_kind = crd.list_kind;
  versions = crd.versions;
  stored_versions = stored;
}

abbrev pub with_versions : List CrdVersion → Crd → Crd
with_versions versions crd = record {
  name = crd.name;
  group = crd.group;
  kind = crd.kind;
  list_kind = crd.list_kind;
  versions = versions;
  stored_versions = crd.stored_versions;
}

-- The loop of `RemoveLegacyCRDVersions`: the first version with the name is left out.
unfoldable pub remove_version : String → List CrdVersion → List CrdVersion
remove_version old [] = []
remove_version old (v ∷ versions) =
    if v.name == old then versions else v ∷ remove_version old versions

module _ {W : Type 0} (crds : CrdClient W) where
  unfoldable pub update_crd_store_version : String → String → Action W (Unit {0})
  update_crd_store_version resource new_version =
      if new_version == ""
      then pure tt
      else crds.get_crd resource >>= λ crd.
          crds.update_status (with_stored_versions (new_version ∷ []) crd)

  unfoldable pub remove_legacy_crd_versions : String → String → String → Action W (Unit {0})
  unfolding remove_version
  remove_legacy_crd_versions resource new_version old_version =
      if new_version == ""
      then pure tt
      else crds.get_crd resource >>= λ crd.
          crds.update_crd (with_versions (remove_version old_version crd.versions) crd)
