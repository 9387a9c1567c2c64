-- ===== src/Jobs/Iam/ObjectHelper/Laws.antt =====
-- The versions that are found.
use ks_upgrade.Base.{String, ◌≡◌, refl, not, List, [], ◌∷◌, select, arith}
use ks_upgrade.Jobs.Iam.Cluster.{CrdVersion}
use ks_upgrade.Jobs.Iam.ObjectHelper.{split_versions, versions_of}

-- The name of the last of some versions, or another name if there are none.
abbrev pub last_version : String → List CrdVersion → String
last_version name [] = name
last_version name (v ∷ versions) = last_version v.name versions

split_versions_lem :
    (old new : String) (versions : List CrdVersion)
    → split_versions old new versions ≡ (
      last_version old (select (λ v. v.deprecated) versions),
      last_version new (select (λ v. not v.deprecated) versions),
    )
unfolding split_versions select
split_versions_lem old new [] = refl
split_versions_lem old new (v ∷ versions) =
    ground (arith, split_versions_lem v.name new versions, split_versions_lem old v.name versions)

-- Of several versions of a resource, the last deprecated one is that of version 3, and the last
-- one that is not deprecated is that of version 4; a missing one has the empty name.
pub versions_of_lem :
    (v v' : CrdVersion) (versions : List CrdVersion)
    → versions_of (v ∷ v' ∷ versions) ≡ (
      last_version "" (select (λ v. v.deprecated) (v ∷ v' ∷ versions)),
      last_version "" (select (λ v. not v.deprecated) (v ∷ v' ∷ versions)),
    )
unfolding versions_of
versions_of_lem v v' versions = split_versions_lem "" "" (v ∷ v' ∷ versions)
