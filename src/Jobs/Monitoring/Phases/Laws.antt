-- ===== src/Jobs/Monitoring/Phases/Laws.antt =====
-- A job that is done is left alone.
use ks_upgrade.Base.{◌≡◌, false, ok}
use ks_upgrade.Storage.{Keeps, Rereads}
use ks_upgrade.Jobs.Objects.{is_empty}
use ks_upgrade.Jobs.Done.Laws.{unless_done_again}
use ks_upgrade.Jobs.Monitoring.Phases.{Environment, monitoring_pre_upgrade, monitoring_post_upgrade}

module _ {W Raw Json Kind Untyped Release S : Type 0}
    (env : Environment W Raw Json Kind Untyped Release S) (keeps : Keeps env.storage)
    (rereads : Rereads env.storage) (timed : (x : W) → is_empty (env.now x) ≡ false) where
  -- If the storage keeps what was put and reads again what it read, and a time is never printed as
  -- the empty text, then behind a post-upgrade of the monitoring job that succeeded, its
  -- pre-upgrade and its post-upgrade, if they are not asked to run again, succeed and change
  -- nothing.
  pub monitoring_phases_again :
      (u w : W)
      → env.rerun ≡ false
      → monitoring_post_upgrade env u ≡ (ok tt, w)
      → (monitoring_pre_upgrade env w ≡ (ok tt, w)) × (monitoring_post_upgrade env w ≡ (ok tt, w))
  unfolding monitoring_pre_upgrade monitoring_post_upgrade
  monitoring_phases_again u w once h = (
    rw (once) (
        unless_done_again env.storage keeps rereads env.now "whizard-monitoring-done" env.rerun _ _
          u w timed h),
    rw (once) (
        unless_done_again env.storage keeps rereads env.now "whizard-monitoring-done" env.rerun _ _
          u w timed h),
  )
