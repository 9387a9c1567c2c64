-- ===== src/Jobs/Iam/Migration/Laws.antt =====
-- What a migration that succeeded has done with every object that was stored.
use ks_upgrade.Base.{
  false, Error, String, ◌≡◌, refl, ap, ◌∙◌, ◌⊎◌, inl, inr, Bool, true, Bool-cases, if◌then◌else◌,
  List, [], ◌∷◌, some, Result, ok, err, panic, is_not_found, ◌==◌, none, Option-cases,
}
use ks_upgrade.Base.Action.{pure, raise, ◌>>=◌, on_result, bind-eq-ok, lift-bind-ok}
use ks_upgrade.Base.Dict
use ks_upgrade.Base.Loops.{each, Ran, each-ok, Through, each-Through}
use ks_upgrade.Storage.{Storage}
use ks_upgrade.Store.{Codec}
use ks_upgrade.Jobs.Iam.Objects.{OldObject, NewObject}
use ks_upgrade.Jobs.Iam.Convert.{upgrade_crd_func_map}
use ks_upgrade.Jobs.Iam.Filters.{StoreOption, store_options}
use ks_upgrade.Jobs.Iam.Cluster.{Client, CrdClient, object_migration, update_crd_store_version}
use ks_upgrade.Jobs.Iam.Cluster.Laws.{Created, Updated, object_migration-ok}
use ks_upgrade.Jobs.Iam.Snapshot.{TimestampedData, load_recent_object}
use ks_upgrade.Jobs.Iam.Migration.{
  object_key, migrate_upgraded, migrate_item, migrate_items, migrate_resource, data_migration,
}

module _ {W Raw : Type 0} (client : Client W (NewObject Raw)) where
  -- The object was there, it is of a built-in resource, and it was left.
  abbrev pub Kept : Bool → NewObject Raw → W → W → Type 0
  Kept builtin upgraded u w =
      (builtin ≡ true) × ((old : NewObject Raw) × (client.get upgraded u ≡ (ok old, w)))

  -- It was there and is not of a built-in resource, or it was not there.
  abbrev pub Needed : Bool → NewObject Raw → W → W → Type 0
  Needed builtin upgraded u v =
      ((builtin ≡ false) × ((old : NewObject Raw) × (client.get upgraded u ≡ (ok old, v))))
      ⊎ ((e : Error) × (client.get upgraded u ≡ (err e, v)) × (is_not_found e ≡ true))

  abbrev pub Migrated : Bool → NewObject Raw → W → W → Type 0
  Migrated builtin upgraded u w =
      Kept builtin upgraded u w
      ⊎ ((v : W) × Needed builtin upgraded u v
          × (Updated client upgraded v w ⊎ Created client upgraded v w))

  -- An object whose migration succeeds was converted, and then left if it is there and built in,
  -- or else updated, or created where it was not there.
  pub migrate_item-ok :
      (builtin : Bool) (up_func : OldObject Raw → Result (NewObject Raw)) (item : OldObject Raw)
      (u w : W)
      → migrate_item client builtin up_func item u ≡ (ok tt, w)
      → (upgraded : NewObject Raw) × (up_func item ≡ ok upgraded) × Migrated builtin upgraded u w
  unfolding migrate_item migrate_upgraded
  migrate_item-ok builtin up_func item u w h =
      let (upgraded, converted, rest) =
        lift-bind-ok (up_func item) (λ upgraded. migrate_upgraded client builtin upgraded) h in
      (upgraded, converted, go upgraded (client.get upgraded u) refl rest)
    where
      go :
          (upgraded : NewObject Raw) (a : Result (NewObject Raw) × W)
          → client.get upgraded u ≡ a
          → ◌≡◌ {A = Result (Unit {0}) × W}
              (on_result a.0
                (λ _. if builtin then pure tt else object_migration client upgraded)
                (λ e. if is_not_found e then object_migration client upgraded else raise e)
                a.1)
              (ok tt, w)
          → Migrated builtin upgraded u w
      go upgraded (ok old, v) e h = elim (Bool-cases builtin) [
        | inl there ↦
            let k = rw (there) at h in
            inl (there, (old, e ∙ ap (λ (p : Result (Unit {0}) × W). (ok old, p.1)) k))
        | inr custom ↦
            inr (
              v,
              inl (custom, (old, e)),
              object_migration-ok client upgraded v w (rw (custom) at h),
            )
      ]
      go upgraded (err f, v) e h = elim (Bool-cases (is_not_found f)) [
        | inl missing ↦
            inr
              (v, inr (f, e, missing), object_migration-ok client upgraded v w (rw (missing) at h))
        | inr other ↦ let k = rw (other) at h in cc
      ]
      go upgraded (panic, v) e h = cc

-- A loop over objects whose migration succeeded migrated each of them.
module _ {W Raw : Type 0} (client : Client W (NewObject Raw)) (builtin : Bool)
    (up_func : OldObject Raw → Result (NewObject Raw)) where
  -- The objects of a list were migrated one behind the other.
  pub data AllMigrated : List (OldObject Raw) → W → W → Type 0 where
    none_left : {w : W} → AllMigrated [] w w
    migrated :
        {item : OldObject Raw} {items : List (OldObject Raw)} {upgraded : NewObject Raw} {u v w : W}
        → up_func item ≡ ok upgraded
        → Migrated client builtin upgraded u v
        → AllMigrated items v w
        → AllMigrated (item ∷ items) u w

  Ran→AllMigrated :
      {items : List (OldObject Raw)} {u w : W}
      → Ran (migrate_item client builtin up_func) items u w
      → AllMigrated items u w
  Ran→AllMigrated Ran.done = none_left
  Ran→AllMigrated (Ran.ran {a} {xs} {u} {v} {w} first rest) =
      let (upgraded, converted, moved) = migrate_item-ok client builtin up_func a u v first in
      migrated converted moved (Ran→AllMigrated rest)

module _ {W Raw : Type 0} (s : Storage W) (json : Codec (List TimestampedData))
    (lists : String → Codec (List (OldObject Raw))) (crds : CrdClient W)
    (client : Client W (NewObject Raw)) (version_v4 : String → String) where
  migrate_items_lem :
      (resource : String) (items : List (OldObject Raw))
      (up_func : OldObject Raw → Result (NewObject Raw))
      → Dict.lookup resource upgrade_crd_func_map ≡ some up_func
      → migrate_items s json lists crds client version_v4 resource items
        ≡ each (migrate_item client (version_v4 resource == "") up_func) items
  unfolding migrate_items
  migrate_items_lem resource items up_func found = rw (found, migrate_items) refl

  -- The version of a resource that has one in version 4 was set; for a built-in one, nothing was done.
  abbrev pub Versioned : String → W → W → Type 0
  Versioned resource u v =
      (((version_v4 resource == "") ≡ true) × (u ≡ v))
      ⊎ (((version_v4 resource == "") ≡ false)
          × (update_crd_store_version crds resource (version_v4 resource) u ≡ (ok tt, v)))

  -- The objects of a resource with a conversion were migrated; for one without, nothing was done.
  abbrev pub ItemsMigrated : String → List (OldObject Raw) → W → W → Type 0
  ItemsMigrated resource items u v =
      ((Dict.lookup resource (upgrade_crd_func_map {Raw = Raw}) ≡ none) × (u ≡ v))
      ⊎ ((up_func : OldObject Raw → Result (NewObject Raw)) × (Dict.lookup resource
              upgrade_crd_func_map
            ≡ some up_func)
          × AllMigrated client (version_v4 resource == "") up_func items u v)

  -- The version of a resource was set, then its recent list was loaded, and then its objects were
  -- migrated.
  abbrev pub ResourceMigrated : StoreOption Raw → W → W → Type 0
  ResourceMigrated o u w =
      (v1 v2 : W) × (items : List (OldObject Raw)) × Versioned o.resource u v1
      × (load_recent_object s json (lists o.resource) (object_key o.resource) v1 ≡ (ok items, v2))
      × ItemsMigrated o.resource items v2 w

  set_version-Versioned :
      (resource : String) (u v : W)
      → (if version_v4 resource == ""
            then pure tt
            else update_crd_store_version crds resource (version_v4 resource))
          u
        ≡ (ok tt, v)
      → Versioned resource u v
  set_version-Versioned resource u v h = elim (Bool-cases (version_v4 resource == "")) [
    | inl builtin ↦ inl (builtin, ap (λ (p : Result (Unit {0}) × W). p.1) (rw (builtin) at h))
    | inr custom ↦ inr (custom, rw (custom) at h)
  ]

  migrate_items-ItemsMigrated :
      (resource : String) (items : List (OldObject Raw)) (u v : W)
      → migrate_items s json lists crds client version_v4 resource items u ≡ (ok tt, v)
      → ItemsMigrated resource items u v
  unfolding migrate_items
  migrate_items-ItemsMigrated resource items u v h =
      elim (Option-cases (Dict.lookup resource (upgrade_crd_func_map {Raw = Raw}))) [
        | inl unknown ↦
            inl
              (unknown, ap (λ (p : Result (Unit {0}) × W). p.1) (rw (unknown, migrate_items) at h))
        | inr (up_func, found) ↦ inr (
          up_func,
          found,
          Ran→AllMigrated client (version_v4 resource == "") up_func (
              each-ok (migrate_item client (version_v4 resource == "") up_func) items u v
                (rw (migrate_items_lem resource items up_func found) at h)),
        )
      ]

  migrate_resource-ResourceMigrated :
      (o : StoreOption Raw) (u w : W)
      → migrate_resource s json lists crds client version_v4 o u ≡ (ok tt, w)
      → ResourceMigrated o u w
  unfolding migrate_resource
  migrate_resource-ResourceMigrated o u w h =
      let (x, v, set, rest) =
        bind-eq-ok
          (if version_v4 o.resource == ""
            then pure tt
            else update_crd_store_version crds o.resource (version_v4 o.resource))
          (λ _. load_recent_object s json (lists o.resource) (object_key o.resource) >>= λ items.
            migrate_items s json lists crds client version_v4 o.resource items)
          h in
      let (items, v', loaded, moved) =
        bind-eq-ok (load_recent_object s json (lists o.resource) (object_key o.resource))
          (λ items. migrate_items s json lists crds client version_v4 o.resource items) rest in
      (
        v,
        v',
        items,
        set_version-Versioned o.resource u v set,
        loaded,
        migrate_items-ItemsMigrated o.resource items v' w moved,
      )

  -- If the data migration succeeds, the resources of `StoreOptions` were migrated one behind the
  -- other, in their order: the version of one that is not built in was set, then the recent list of
  -- its objects was loaded, and then, if it has a conversion, each of them was converted, and left if
  -- it is there and built in, or else updated, or created where it was not there.
  pub data_migration-ok :
      (u w : W)
      → data_migration s json lists crds client version_v4 u ≡ (ok tt, w)
      → Through ResourceMigrated store_options u w
  unfolding data_migration
  data_migration-ok u w h =
      each-Through (migrate_resource s json lists crds client version_v4) ResourceMigrated
        migrate_resource-ResourceMigrated store_options u w h
