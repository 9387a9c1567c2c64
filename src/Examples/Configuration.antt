-- ===== src/Examples/Configuration.antt =====
-- pkg/executor/config.go: two documents, and files that are there or not.
use ks_upgrade.Base.{
  String, ◌==◌, pos, true, false, if◌then◌else◌, [], ◌∷◌, Option, none, some, ◌≡◌, refl, ◌⊎◌,
  message, not_exist, Result, ok, err,
}
use ks_upgrade.Config.{
  Config, ValidatorConfig, validate, no_validators, new_default_config, with_validators,
  merge_files, load_from_file, load_config,
}
use ks_upgrade.Config.Laws.{
  IsValidated, validate_idem, load_config_missing, load_config-IsValidated,
}
use ks_upgrade.Config.Merge.{
  flag, num, str, object, Fields, end, field, lookup, insert, has, merge_value, merge_into, merge,
}
use ks_upgrade.Config.Merge.Laws.{distinct, chosen, lookup-merge, at_value, at-merge_value}

abbrev base : Fields
base =
    field "jobs"
      (object (
        field "iam" (object (field "enabled" (flag true) (field "priority" (num (pos 800)) end)))
          end))
      (field "storage" (str "local") end)

abbrev override : Fields
override = field "jobs" (object (field "iam" (object (field "enabled" (flag false) end)) end)) end

merge-override :
    merge (some base) (some override)
    ≡ some (
        field "jobs"
          (object (
            field "iam"
              (object (field "enabled" (flag false) (field "priority" (num (pos 800)) end)))
              end))
          (field "storage" (str "local") end))
unfolding merge merge_into insert lookup
merge-override = refl

lookup-merge_example :
    lookup "storage" (merge_into base base override)
    ≡ chosen (lookup "storage" base) (lookup "storage" override)
unfolding distinct has
lookup-merge_example = lookup-merge base override "storage" refl

at-merge_value_example :
    at_value ("jobs" ∷ "iam" ∷ "enabled" ∷ []) (merge_value (some (object base)) (object override))
    ≡ some (flag false)
unfolding distinct has lookup
at-merge_value_example =
    at-merge_value ("jobs" ∷ "iam" ∷ "enabled" ∷ []) (some (object base)) (object override)
      (flag false) refl refl refl

abbrev read : String → Result (Option Fields)
read file =
    if file == "a.yaml"
    then ok (some base)
    else if file == "b.yaml"
    then err (message "permission denied")
    else err not_exist

abbrev decode : Option Fields → Config (Unit {0}) → Result (Config (Unit {0}))
decode merged c = ok (record c { storage_options = none })

validate_idem_example : validate (validate no_validators) ≡ validate no_validators
validate_idem_example = validate_idem no_validators

load_config_missing_example :
    load_config read decode ("a.yaml" ∷ "gone.yaml" ∷ []) ≡ ok new_default_config
load_config_missing_example =
    load_config_missing read decode ("a.yaml" ∷ []) [] "gone.yaml" ((some base, refl), tt) refl

abbrev loaded : Config (Unit {0})
loaded = record {
  storage_options = none;
  job_options = [];
  validator = some (record {
    extensions_museum = record {
      enabled = false;
      namespace = "kubesphere-system";
      name = "extensions-museum";
      sync_interval = pos 0;
      watch_timeout = pos 300_000_000_000;
    };
    ks_version = record { enabled = false };
  });
}

load_config-a : load_config read decode ("a.yaml" ∷ []) ≡ ok loaded
unfolding load_config load_from_file merge_files merge with_validators validate
load_config-a = refl

load_config-IsValidated_example :
    (loaded ≡ new_default_config)
    ⊎ ((v : ValidatorConfig) × (loaded.validator ≡ some v) × IsValidated v.extensions_museum)
load_config-IsValidated_example =
    load_config-IsValidated read decode ("a.yaml" ∷ []) loaded load_config-a
