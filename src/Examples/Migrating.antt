-- ===== src/Examples/Migrating.antt =====
-- pkg/jobs/iam: the migration of a user.
use ks_upgrade.Base.{ℕ, String, refl, pos, List, [], ◌∷◌, ok, ◌==◌, if◌then◌else◌}
use ks_upgrade.Base.Dict
use ks_upgrade.Base.Dict.{Dict}
use ks_upgrade.Base.Loops.{each, Through}
use ks_upgrade.Storage.{Storage}
use ks_upgrade.Store.{Codec, load_raw}
use ks_upgrade.Jobs.Iam.Cluster.{object_migration, create_upgraded, update_crd_store_version}
use ks_upgrade.Jobs.Iam.Convert.{upgrade_crd_func_map, upgrade_user_func}
use ks_upgrade.Jobs.Iam.Filters.{store_options}
use ks_upgrade.Jobs.Iam.Migration.{
  data_migration, migrate_resource, migrate_items, migrate_item, migrate_upgraded,
}
use ks_upgrade.Jobs.Iam.Migration.Laws.{ResourceMigrated, data_migration-ok}
use ks_upgrade.Jobs.Iam.Objects.{OldObject, resource_user}
use ks_upgrade.Jobs.Iam.Snapshot.{TimestampedData, load_recent_object, recent_data, recent_index}
use ks_upgrade.Examples.Cluster.{admin, Names, cluster, crds, there}

-- One snapshot, of the user.
abbrev snapshots : Codec (List TimestampedData)
snapshots = record {
  marshal = λ datas. ok [];
  decode = λ b. ok (record { data_bytes = []; timestamp = pos 1 } ∷ []);
}

abbrev users : String → Codec (List (OldObject ℕ))
users resource = record { marshal = λ l. ok []; decode = λ b. ok (admin ∷ []) }

abbrev storage : Storage Names
storage = record {
  put = λ k b w. (ok tt, w);
  get = λ k w. (ok (0 ∷ []), w);
  delete = λ k w. (ok tt, w);
}

-- The snapshots of the users hold the user, all others are empty.
abbrev by_resource : String → Codec (List (OldObject ℕ))
by_resource resource = record {
  marshal = λ l. ok [];
  decode = λ b. ok (if resource == resource_user then admin ∷ [] else []);
}

data_migration-ok_example :
    Through
      (ResourceMigrated storage snapshots by_resource crds cluster (λ r. "v1beta1"))
      store_options
      []
      there
unfolding data_migration store_options migrate_resource migrate_items migrate_item migrate_upgraded
    upgrade_crd_func_map update_crd_store_version load_recent_object load_raw recent_data
    recent_index each upgrade_user_func object_migration create_upgraded Dict.lookup Dict.insert
data_migration-ok_example =
    data_migration-ok storage snapshots by_resource crds cluster (λ r. "v1beta1") [] there refl
