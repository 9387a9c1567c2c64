-- ===== src/Jobs/Events.antt =====
-- pkg/jobs/events/events.go: the events of version 3 are kept and removed, and the extension is
-- installed on the clusters that had them.
use ks_upgrade.Base.{
  String, Bool, true, if◌then◌else◌, Option, none, some, List, [], ◌∷◌, Result, ok, is_not_found,
  is_release_not_found,
}
use ks_upgrade.Base.Action.{Action, pure, raise, lift, ◌>>=◌, ◌>>◌, attempt}
use ks_upgrade.Core.{ExtensionRef}
use ks_upgrade.Executor.Job.{UpgradeJob}
use ks_upgrade.Storage.{Bytes, Storage}
use ks_upgrade.Store.{Codec, save}
use ks_upgrade.Jobs.Objects.{Object, is_empty, is_absent, is_host_cluster_object}
use ks_upgrade.Jobs.Plans.{Flags, logged_extension, unless_exists}
use ks_upgrade.Jobs.Done.{unless_done, save_done}

-- What the job is given, and the clients and codecs that it calls.
pub record EventsClients (W Raw Rule Ruler Exporter Release S : Type 0) : Type 0 where
  pub storage : Storage W
  pub now : W → Bytes
  pub rerun : Bool
  pub extension : Option (ExtensionRef Raw)
  pub list_rules : Action W (List Rule)
  pub list_rulers : Action W (List Ruler)
  pub list_exporters : Action W (List Exporter)
  pub rules : Codec (List Rule)
  pub rulers : Codec (List Ruler)
  pub exporters : Codec (List Exporter)
  pub get_flags : Action W Flags
  pub get_release : Action W Release
  pub uninstall : Action W (Unit {0})
  pub delete_crd : String → Action W (Unit {0})
  pub is_host_cluster : Action W Bool
  pub list_cluster : Action W (List (Object S))
  pub flags_of : Object S → Action W Flags
  pub create_plan : ExtensionRef Raw → Action W (Unit {0})

-- A list that is absent or empty is not kept.
unfoldable pub backup_some :
    {W A : Type 0} → Storage W → Codec (List A) → String → Action W (List A) → Action W (Unit {0})
unfolding save
backup_some s codec key list =
    attempt list (λ items. if is_empty items then pure tt else save s codec key items)
      (λ e. if is_absent e then pure tt else raise e)

module _ {W Raw Rule Ruler Exporter Release S : Type 0}
    (env : EventsClients W Raw Rule Ruler Exporter Release S) where
  unfoldable pub backup_events : Action W (Unit {0})
  unfolding backup_some
  backup_events =
      backup_some env.storage env.rules "events-Rules" env.list_rules
      >> backup_some env.storage env.rulers "events-Rulers" env.list_rulers
      >> backup_some env.storage env.exporters "events-Exporters" env.list_exporters

  -- The release is uninstalled where the flag and the release could be read.
  unfoldable pub remove_release : Flags → Action W (Unit {0})
  remove_release flags = remove (flags "spec.events.enabled")
    where
      remove : Result Bool → Action W (Unit {0})
      remove (ok true) =
          attempt env.get_release
            (λ _.
              attempt env.uninstall pure (λ e. if is_release_not_found e then pure tt else raise e))
            (λ _. pure tt)
      remove _ = pure tt

  abbrev pub delete_events_crd : String → Action W (Unit {0})
  delete_events_crd name =
      attempt (env.delete_crd name) pure (λ e. if is_not_found e then pure tt else raise e)

  unfoldable pub uninstall_crd : Action W (Unit {0})
  uninstall_crd =
      delete_events_crd "exporters.events.kubesphere.io"
      >> delete_events_crd "rulers.events.kubesphere.io"
      >> delete_events_crd "rules.events.kubesphere.io"

  -- The names of the clusters whose events are enabled.
  unfoldable pub enabled_clusters : Flags → List (Object S) → Action W (List String)
  enabled_clusters own [] w = (ok [], w)
  enabled_clusters own (o ∷ clusters) w =
      ((if is_host_cluster_object o then pure own else env.flags_of o) >>= λ flags.
      lift (flags "spec.events.enabled") >>= λ enabled. enabled_clusters own clusters >>= λ names.
      pure (if enabled then o.meta.name ∷ names else names))
        w

  unfoldable pub scheduled_extension : Flags → ExtensionRef Raw → Action W (ExtensionRef Raw)
  unfolding enabled_clusters
  scheduled_extension own extension = elim extension.cluster_scheduling [
    | some scheduling ↦ pure extension
    | none ↦ env.list_cluster >>= λ items. enabled_clusters own items >>= λ names.
        pure (record extension {
          cluster_scheduling = some (record {
            placement = some (record { clusters = names; cluster_selector = none });
            overrides = [];
          });
        })
  ]

  unfoldable pub create_events_plan : ExtensionRef Raw → Action W (Unit {0})
  unfolding scheduled_extension
  create_events_plan extension = env.get_flags >>= λ own.
      scheduled_extension own extension >>= λ scheduled. unless_exists (env.create_plan scheduled)

  unfoldable pub events_post_steps : Action W (Unit {0})
  unfolding remove_release uninstall_crd create_events_plan
  events_post_steps = env.get_flags >>= λ flags.
      remove_release flags
      >> (uninstall_crd
          >> (logged_extension env.extension >>= λ extension. env.is_host_cluster >>= λ is_host.
              if is_host then create_events_plan extension else pure tt))

  unfoldable pub events_pre_upgrade : Action W (Unit {0})
  unfolding unless_done backup_events
  events_pre_upgrade = unless_done env.storage env.rerun "whizard-events-done" backup_events

  unfoldable pub events_post_upgrade : Action W (Unit {0})
  unfolding unless_done save_done events_post_steps
  events_post_upgrade =
      unless_done env.storage env.rerun "whizard-events-done"
        (events_post_steps >> save_done env.storage env.now "whizard-events-done")

  -- The job that the factory creates.
  unfoldable pub events_job : UpgradeJob W
  unfolding events_pre_upgrade events_post_upgrade
  events_job = record {
    condition = none;
    prepare_upgrade = none;
    pre_upgrade = events_pre_upgrade;
    post_upgrade = events_post_upgrade;
    dynamic_upgrade = none;
    roll_back = none;
  }
