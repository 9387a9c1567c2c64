-- ===== src/Jobs/Iam/ObjectHelper.antt =====
-- pkg/jobs/iam/helper/object.go: which versions of a resource the cluster has.
pub mod Laws
use ks_upgrade.Base.{
  String, ◌≡◌, Bool, true, false, if◌then◌else◌, List, [], ◌∷◌, Option, none, some, Error, Result,
  ok, err, panic, is_not_found, ◌==◌,
}
use ks_upgrade.Base.Action.{Action, pure, raise, lift, ◌>>=◌, continue, on_result, attempt}
use ks_upgrade.Base.Dict
use ks_upgrade.Base.Dict.{Dict}
use ks_upgrade.Jobs.Iam.Cluster.{Crd, CrdVersion}

-- `known`: an object and a list of the version could be made.
pub record Reference : Type 0 where
  pub version : String
  pub known : Bool

pub record MultiVersion : Type 0 where
  pub v3 : Reference
  pub v4 : Reference

abbrev pub no_reference : Reference
no_reference = record { version = ""; known = false }

abbrev pub reference_or_zero : Option Reference → Reference
reference_or_zero none = no_reference
reference_or_zero (some r) = r

abbrev pub versions_or_zero : Option MultiVersion → MultiVersion
versions_or_zero none = record { v3 = no_reference; v4 = no_reference }
versions_or_zero (some m) = m

unfoldable pub register :
    String → Option Reference → Option Reference → Dict MultiVersion → Dict MultiVersion
register resource old new helper =
    Dict.insert resource (record { v3 = reference_or_zero old; v4 = reference_or_zero new }) helper

unfoldable pub object : Dict MultiVersion → String → MultiVersion
object helper resource = versions_or_zero (Dict.lookup resource helper)

-- The loop over the versions, from the names of the old and the new one.
unfoldable pub split_versions : String → String → List CrdVersion → String × String
split_versions old new [] = (old, new)
split_versions old new (v ∷ versions) =
    if v.deprecated then split_versions v.name new versions else split_versions old v.name versions

-- The only version is the old one.
unfoldable pub versions_of : List CrdVersion → String × String
unfolding split_versions
versions_of [] = split_versions "" "" []
versions_of (v ∷ []) = (v.name, "")
versions_of (v ∷ v' ∷ versions) = split_versions "" "" (v ∷ v' ∷ versions)

-- `scheme` makes an object of a group, a version and a kind.
module _ (scheme : String → String → String → Result (Unit {0})) where
  unfoldable pub reference_of : Crd → String → Result Reference
  reference_of crd version =
      if version == "" then ok no_reference else elim (scheme crd.group version crd.kind) [
        | err e ↦ err e
        | panic ↦ panic
        | ok t ↦ elim (scheme crd.group version crd.list_kind) [
          | err e ↦ err e
          | panic ↦ panic
          | ok t' ↦ ok (record { version = version; known = true })
        ]
      ]

module _ {W : Type 0} (get_crd : String → Action W Crd)
    (scheme_v3 scheme_v4 : String → String → String → Result (Unit {0})) where
  unfoldable pub register_crd : String → Dict MultiVersion → Crd → Action W (Dict MultiVersion)
  unfolding reference_of versions_of register
  register_crd resource helper crd =
      let (old, new) = versions_of crd.versions in
      lift (reference_of scheme_v3 crd old) >>= λ v3.
      lift (reference_of scheme_v4 crd new) >>= λ v4.
      pure (register resource (some v3) (some v4) helper)

  -- `NewObjectHelper`, from the helper that it has; a resource without a definition is left out.
  unfoldable pub new_object_helper : List String → Dict MultiVersion → Action W (Dict MultiVersion)
  unfolding register_crd
  new_object_helper [] helper w = (ok helper, w)
  new_object_helper (resource ∷ resources) helper w =
      (attempt (get_crd resource) (register_crd resource helper)
            (λ e. if is_not_found e then pure helper else raise e)
          >>= new_object_helper resources)
        w
