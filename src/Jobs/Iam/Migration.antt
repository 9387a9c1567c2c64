-- ===== src/Jobs/Iam/Migration.antt =====
-- `StoreObject` and `DataMigration` of pkg/jobs/iam/iam.go.
pub mod Laws
pub mod Stored
use ks_upgrade.Base.{
  String, ◌<>◌, ◌≡◌, ℤ, Bool, true, false, if◌then◌else◌, List, [], ◌∷◌, Option, none, some, Error,
  Result, ok, err, panic, is_not_found, ◌==◌,
}
use ks_upgrade.Base.Action.{Action, pure, raise, lift, ◌>>=◌, ◌>>◌, continue, on_result, attempt}
use ks_upgrade.Base.Dict
use ks_upgrade.Base.Loops.{each}
use ks_upgrade.Storage.{Storage}
use ks_upgrade.Store.{Codec}
use ks_upgrade.Jobs.Iam.Objects.{OldObject, NewObject}
use ks_upgrade.Jobs.Iam.Convert.{upgrade_crd_func_map}
use ks_upgrade.Jobs.Iam.Filters.{StoreOption, store_options}
use ks_upgrade.Jobs.Iam.Cluster.{Client, CrdClient, object_migration, update_crd_store_version}
use ks_upgrade.Jobs.Iam.Snapshot.{TimestampedData, store_object_with_timestamp, load_recent_object}

-- The items that a filter lets through.
unfoldable pub filter_items : {A : Type 0} → (A → Result Bool) → List A → Result (List A)
filter_items p [] = ok []
filter_items p (a ∷ items) =
    let rest = filter_items p items in
    elim (p a) [
      | err e ↦ err e
      | panic ↦ panic
      | ok keep ↦ elim rest [
        | err e ↦ err e
        | panic ↦ panic
        | ok kept ↦ ok (if keep then a ∷ kept else kept)
      ]
    ]

unfoldable pub filtered_items : {A : Type 0} → Option (A → Result Bool) → List A → Result (List A)
unfolding filter_items
filtered_items none items = ok items
filtered_items (some p) items = filter_items p items

abbrev pub object_key : String → String
object_key resource = "iam-" <> resource

-- `list` reads the objects of a resource, and `lists` has the codec of its lists.
module _ {W Raw : Type 0} (s : Storage W) (now : W → ℤ) (json : Codec (List TimestampedData))
    (lists : String → Codec (List (OldObject Raw)))
    (list : String → Action W (List (OldObject Raw))) where
  unfoldable pub store_option : StoreOption Raw → Action W (Unit {0})
  unfolding filtered_items
  store_option o = list o.resource >>= λ items.
      lift (filtered_items o.filter_func items) >>= λ kept.
      store_object_with_timestamp s now json (lists o.resource) (object_key o.resource) kept

  unfoldable pub store_object : List (StoreOption Raw) → Action W (Unit {0})
  unfolding store_option
  store_object options = each store_option options

-- An object of a built-in resource that is there already is left as it is.
module _ {W Raw : Type 0} (client : Client W (NewObject Raw)) where
  unfoldable pub migrate_upgraded : Bool → NewObject Raw → Action W (Unit {0})
  migrate_upgraded builtin upgraded =
      attempt (client.get upgraded)
        (λ _. if builtin then pure tt else object_migration client upgraded)
        (λ e. if is_not_found e then object_migration client upgraded else raise e)

  unfoldable pub migrate_item :
      Bool → (OldObject Raw → Result (NewObject Raw)) → OldObject Raw → Action W (Unit {0})
  unfolding migrate_upgraded
  migrate_item builtin up_func item =
      lift (up_func item) >>= λ upgraded. migrate_upgraded builtin upgraded

-- `version_v4` is the version of a resource that the object helper found for version 4: the empty
-- text for a built-in one.
module _ {W Raw : Type 0} (s : Storage W) (json : Codec (List TimestampedData))
    (lists : String → Codec (List (OldObject Raw))) (crds : CrdClient W)
    (client : Client W (NewObject Raw)) (version_v4 : String → String) where
  unfoldable pub migrate_items : String → List (OldObject Raw) → Action W (Unit {0})
  migrate_items resource items = elim (Dict.lookup resource upgrade_crd_func_map) [
    | none ↦ pure tt
    | some up_func ↦ each (migrate_item client (version_v4 resource == "") up_func) items
  ]

  unfoldable pub migrate_resource : StoreOption Raw → Action W (Unit {0})
  unfolding migrate_items
  migrate_resource o =
      (if version_v4 o.resource == ""
        then pure tt
        else update_crd_store_version crds o.resource (version_v4 o.resource))
      >> (load_recent_object s json (lists o.resource) (object_key o.resource) >>= λ items.
          migrate_items o.resource items)

  unfoldable pub data_migration : Action W (Unit {0})
  unfolding migrate_resource store_options
  data_migration = each migrate_resource store_options
