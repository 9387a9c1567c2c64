-- ===== src/Examples/Staging.antt =====
-- The stored state of pkg/jobs/iam, over a storage in memory.
use ks_upgrade.Base.{
  String, ◌≡◌, refl, sym, subst, ◌⊎◌, ℤ, pos, negsuc, List, [], ◌∷◌, Option, none, some, message,
  Result, ok, err, ok-injective,
}
use ks_upgrade.Base.Action.{Action}
use ks_upgrade.Base.Dict
use ks_upgrade.Base.Dict.{Dict}
use ks_upgrade.Storage.{Bytes}
use ks_upgrade.Store.{Codec, load_raw, save_raw}
use ks_upgrade.Jobs.Iam.Snapshot.{
  TimestampedData, store_object_with_timestamp, load_recent_object, recent_data, stored_raw,
  append_entry, entries_of,
}
use ks_upgrade.Jobs.Iam.Snapshot.Laws.{Reads, load_recent_object-store, recent_data-append}
use ks_upgrade.Jobs.Iam.Status.{
  UpgradeStatus, upgrade_status_success, staged, get_upgrade_status, set_upgrade_status,
  marshalled_or_nothing,
}
use ks_upgrade.Jobs.Iam.Status.Laws.{WritesStatus}
use ks_upgrade.Jobs.Iam.Phases.{Steps, prepare_upgrade, pre_upgrade, post_upgrade}
use ks_upgrade.Base.Loops.{InOrder}
use ks_upgrade.Jobs.Iam.ObjectHelper.{MultiVersion}
use ks_upgrade.Jobs.Iam.Phases.Laws.{Skipped, pre_steps, phases_again, pre_upgrade-ok}
use ks_upgrade.Base.{has_key, ℕ}
use ks_upgrade.Jobs.Iam.Filters.{filtered, role_binding_filter}
use ks_upgrade.Jobs.Iam.Migration.{object_key, store_option, filtered_items, filter_items}
use ks_upgrade.Jobs.Iam.Migration.Stored.{LetThrough, store_option-loaded}
use ks_upgrade.Jobs.Iam.Objects.{OldObject, role_binding, resource_role_binding}
use ks_upgrade.Examples.Memory.{memory, memory-Keeps, memory-Rereads, plain}

-- The snapshots of one resource, as long as there is one.
abbrev written : Bytes → ℤ → Result Bytes
written b (pos n) = ok (n ∷ b)
written b (negsuc n) = err (message "a time before 1970")

abbrev write_snapshots : List TimestampedData → Result Bytes
write_snapshots [] = err (message "no snapshot")
write_snapshots (d ∷ []) = written d.data_bytes d.timestamp
write_snapshots (d ∷ e ∷ datas) = err (message "several snapshots")

abbrev read_snapshots : Bytes → Result (List TimestampedData)
read_snapshots [] = err (message "no content")
read_snapshots (n ∷ b) = ok (record { data_bytes = b; timestamp = pos n } ∷ [])

abbrev snapshots : Codec (List TimestampedData)
snapshots = record { marshal = write_snapshots; decode = read_snapshots }

written-read :
    (b raw : Bytes) (t : ℤ)
    → written b t ≡ ok raw
    → read_snapshots raw ≡ ok (record { data_bytes = b; timestamp = t } ∷ [])
written-read b raw (pos n) h =
    subst (λ x. read_snapshots x ≡ ok (record { data_bytes = b; timestamp = pos n } ∷ []))
      (ok-injective h) refl
written-read b raw (negsuc n) h = cc

snapshots-Reads : Reads snapshots
snapshots-Reads [] raw h = cc
snapshots-Reads (d ∷ []) raw h = written-read d.data_bytes raw d.timestamp h
snapshots-Reads (d ∷ e ∷ datas) raw h = cc

abbrev clock : Dict Bytes → ℤ
clock w = pos 1700000000

load_recent_object-store_example :
    load_recent_object memory snapshots plain "iam" (("iam", 1700000000 ∷ 4 ∷ []) ∷ [])
    ≡ (ok (4 ∷ []), ("iam", 1700000000 ∷ 4 ∷ []) ∷ [])
unfolding store_object_with_timestamp stored_raw append_entry entries_of load_raw save_raw
    Dict.insert Dict.lookup
load_recent_object-store_example =
    load_recent_object-store memory clock snapshots plain memory-Keeps snapshots-Reads
      (λ b raw h. sym h) (λ w. refl) "iam" (4 ∷ []) [] (("iam", 1700000000 ∷ 4 ∷ []) ∷ []) refl

-- A binding without a user, which is not stored.
abbrev binding : OldObject ℕ
binding = role_binding (record {
  meta = record {
    name = "admins";
    namespace = "dev";
    labels = none;
    annotations = none;
    finalizers = [];
    resource_version = "";
  };
  subjects = [];
  role_ref = record { api_group = ""; kind = "Role"; name = "admin" };
})

abbrev list_bindings : String → Action (Dict Bytes) (List (OldObject ℕ))
list_bindings resource w = (ok (binding ∷ []), w)

-- Empty lists only.
abbrev write_empty : List (OldObject ℕ) → Result Bytes
write_empty [] = ok []
write_empty (o ∷ objects) = err (message "several objects")

abbrev empty_lists : String → Codec (List (OldObject ℕ))
empty_lists resource = record { marshal = write_empty; decode = λ b. ok [] }

empty_lists-Reads : (resource : String) → Reads (empty_lists resource)
empty_lists-Reads resource [] raw h = refl
empty_lists-Reads resource (o ∷ objects) raw h = cc

abbrev key : String
key = object_key resource_role_binding

store_option-loaded_example :
    (items kept : List (OldObject ℕ)) × (v : Dict Bytes) × (list_bindings resource_role_binding []
      ≡ (ok items, v))
    × LetThrough (some role_binding_filter) items kept
    × (load_recent_object memory snapshots
          (empty_lists resource_role_binding)
          key
          ((key, 1700000000 ∷ []) ∷ [])
        ≡ (ok kept, (key, 1700000000 ∷ []) ∷ []))
unfolding store_option filtered_items filter_items role_binding_filter store_object_with_timestamp
    stored_raw append_entry entries_of load_raw save_raw has_key Dict.insert Dict.lookup
store_option-loaded_example =
    store_option-loaded memory clock snapshots empty_lists list_bindings memory-Keeps
      snapshots-Reads empty_lists-Reads (λ w. refl)
      (filtered resource_role_binding role_binding_filter) [] ((key, 1700000000 ∷ []) ∷ []) refl

abbrev snapshot : ℤ → Bytes → TimestampedData
snapshot t b = record { data_bytes = b; timestamp = t }

-- The second snapshot has the earlier time.
recent_data-append_example :
    recent_data (snapshot (pos 9) (1 ∷ []) ∷ snapshot (pos 5) (2 ∷ []) ∷ []) ≡ ok (2 ∷ [])
recent_data-append_example =
    recent_data-append (snapshot (pos 9) (1 ∷ []) ∷ []) (snapshot (pos 5) (2 ∷ [])) refl

abbrev write_time : Option ℤ → Result Bytes
write_time none = err (message "no time")
write_time (some (pos n)) = ok (n ∷ [])
write_time (some (negsuc n)) = ok (n ∷ 0 ∷ [])

abbrev success : Option ℤ → UpgradeStatus
success t = record { status = upgrade_status_success; time = t }

abbrev read_status : Bytes → Result UpgradeStatus
read_status [] = err (message "no content")
read_status (n ∷ []) = ok (success (some (pos n)))
read_status (n ∷ s ∷ b) = ok (success (some (negsuc n)))

-- The statuses of successes.
abbrev statuses : Codec UpgradeStatus
statuses = record { marshal = λ a. write_time a.time; decode = read_status }

statuses-WritesStatus : WritesStatus statuses
statuses-WritesStatus (pos n) = (n ∷ [], refl, refl)
statuses-WritesStatus (negsuc n) = (n ∷ 0 ∷ [], refl, refl)

abbrev add : String → Action (Dict Bytes) (Unit {0})
add k w = (ok tt, Dict.insert k [] w)

abbrev fail : Action (Dict Bytes) (Unit {0})
fail w = (err (message "boom"), w)

abbrev steps : Action (Dict Bytes) (Unit {0}) → Steps (Dict Bytes)
steps m = record {
  fix_helm_managed_resource_annotations = m;
  fix_conflict_resources = m;
  new_object_helper = λ w. (ok [], w);
  store_object = m;
  data_migration = λ helper. m;
  delete_role_templates = λ helper. m;
  delete_legacy_roles = m;
  remove_kube_fed_resources = m;
  migrate_identity_providers = m;
  default_custom_roles = m;
  update_user_global_role_annotation = m;
  delete_deprecated_crds = λ helper. m;
}

abbrev prepared : Dict Bytes
prepared = ("step", []) ∷ ("iam-upgrade-status-prepare-upgrade", 1700000000 ∷ []) ∷ []

prepare_upgrade-prepared :
    prepare_upgrade memory statuses clock (steps (add "step")) [] ≡ (ok tt, prepared)
unfolding prepare_upgrade staged get_upgrade_status set_upgrade_status marshalled_or_nothing
    load_raw save_raw Dict.insert Dict.lookup
prepare_upgrade-prepared = refl

-- The steps of the second run would fail.
phases_again_example :
    (prepare_upgrade memory statuses clock (steps (add "step")) [] ≡ (ok tt, prepared)
      → prepare_upgrade memory statuses clock (steps fail) prepared ≡ (ok tt, prepared))
    × (pre_upgrade memory statuses clock (steps (add "step")) [] ≡ (ok tt, prepared)
        → pre_upgrade memory statuses clock (steps fail) prepared ≡ (ok tt, prepared))
    × (post_upgrade memory statuses clock (steps (add "step")) [] ≡ (ok tt, prepared)
        → post_upgrade memory statuses clock (steps fail) prepared ≡ (ok tt, prepared))
phases_again_example =
    phases_again memory statuses memory-Keeps memory-Rereads statuses-WritesStatus clock clock
      (steps (add "step")) (steps fail) [] prepared

abbrev pre_upgraded : Dict Bytes
pre_upgraded = ("step", []) ∷ ("iam-upgrade-status-pre-upgrade", 1700000000 ∷ []) ∷ []

pre_upgrade-ok_example :
    Skipped memory statuses clock "pre-upgrade" [] pre_upgraded
    ⊎ ((helper : Dict MultiVersion) × (v v1 v2 : Dict Bytes) × ((steps
              (add "step")).new_object_helper
            v
          ≡ (ok helper, v1))
        × InOrder (pre_steps memory statuses clock (steps (add "step")) helper) v1 v2
        × (set_upgrade_status memory statuses clock "pre-upgrade" upgrade_status_success v2
            ≡ (ok tt, pre_upgraded)))
unfolding pre_upgrade staged get_upgrade_status set_upgrade_status marshalled_or_nothing load_raw
    save_raw Dict.insert Dict.lookup
pre_upgrade-ok_example =
    pre_upgrade-ok memory statuses clock (steps (add "step")) [] pre_upgraded refl
