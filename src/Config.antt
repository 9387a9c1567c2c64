-- ===== src/Config.antt =====
-- pkg/executor/config.go: the configuration, its defaults, and how it is loaded from files.
pub mod Merge
pub mod Laws
use ks_upgrade.Base.{
  ℕ, String, ◌==◌, ℤ, pos, eq_int, Bool, true, false, if◌then◌else◌, List, [], ◌∷◌, Option, none,
  some, Error, is_not_exist, Result, ok, err, panic,
}
use ks_upgrade.Base.Dict.{Dict}
use ks_upgrade.Config.Merge.{Fields, merge}
use ks_upgrade.Executor.Job.{JobOptions}
use ks_upgrade.Storage.{StorageOptions}

-- Durations are in nanoseconds.
pub record ExtensionsMuseumConfig : Type 0 where
  pub enabled : Bool
  pub namespace : String
  pub name : String
  pub sync_interval : ℤ
  pub watch_timeout : ℤ

pub record KsVersionConfig : Type 0 where
  pub enabled : Bool

pub record ValidatorConfig : Type 0 where
  pub extensions_museum : ExtensionsMuseumConfig
  pub ks_version : KsVersionConfig

-- The pointers of a configuration may be nil.
pub record Config (Options : Type 0) : Type 0 where
  pub storage_options : Option StorageOptions
  pub job_options : Dict (JobOptions Options)
  pub validator : Option ValidatorConfig

abbrev pub five_minutes : ℤ
five_minutes = pos 300_000_000_000

-- `ExtensionsMuseumConfig.Validate`
unfoldable pub validate_museum : ExtensionsMuseumConfig → ExtensionsMuseumConfig
validate_museum c = record c {
  namespace = if c.namespace == "" then "kubesphere-system" else c.namespace;
  name = if c.name == "" then "extensions-museum" else c.name;
  sync_interval = if eq_int c.sync_interval (pos 0) then pos 0 else c.sync_interval;
  watch_timeout = if eq_int c.watch_timeout (pos 0) then five_minutes else c.watch_timeout;
}

-- `KsVersionConfig.Validate`
abbrev pub validate_ks_version_config : KsVersionConfig → KsVersionConfig
validate_ks_version_config c = c

-- `ValidatorConfig.Validate`
unfoldable pub validate : ValidatorConfig → ValidatorConfig
unfolding validate_museum
validate c = record {
  extensions_museum = validate_museum c.extensions_museum;
  ks_version = validate_ks_version_config c.ks_version;
}

-- `&ValidatorConfig{}`
abbrev pub no_validators : ValidatorConfig
no_validators = record {
  extensions_museum = record {
    enabled = false;
    namespace = "";
    name = "";
    sync_interval = pos 0;
    watch_timeout = pos 0;
  };
  ks_version = record { enabled = false };
}

module _ {Options : Type 0} where
  abbrev pub new_default_config : Config Options
  new_default_config = record {
    storage_options = some (record {
      s3_options = none;
      file_storage_options = some (record { storage_path = "/tmp/ks-upgrade" });
    });
    job_options = [];
    validator = some no_validators;
  }

  -- The end of `LoadFromFile`: validators that the files set to null are replaced, and all are
  -- validated.
  unfoldable pub with_validators : Config Options → Config Options
  with_validators c = elim c.validator [
    | none ↦ record c { validator = some (validate no_validators) }
    | some v ↦ record c { validator = some (validate v) }
  ]

  -- `read` opens a file and decodes its first document, where null is a nil map; `decode` writes
  -- the merged document over a configuration.
  module _ (read : String → Result (Option Fields))
      (decode : Option Fields → Config Options → Result (Config Options)) where
    -- The loop over the files, which an error ends.
    unfoldable pub merge_files : Option Fields → List String → Result (Option Fields)
    merge_files merged [] = ok merged
    merge_files merged (file ∷ files) = elim (read file) [
      | ok override ↦ merge_files (merge merged override) files
      | err e ↦ err e
      | panic ↦ panic
    ]

    unfoldable pub load_from_file : List String → Config Options → Result (Config Options)
    load_from_file files c = elim (merge_files none files) [
      | ok merged ↦ elim (decode merged c) [
        | ok c' ↦ ok (with_validators c')
        | err e ↦ err e
        | panic ↦ panic
      ]
      | err e ↦ err e
      | panic ↦ panic
    ]

    -- A file that does not exist leaves the default configuration.
    unfoldable pub load_config : List String → Result (Config Options)
    load_config files = elim (load_from_file files new_default_config) [
      | ok c ↦ ok c
      | err e ↦ if is_not_exist e then ok new_default_config else err e
      | panic ↦ panic
    ]
