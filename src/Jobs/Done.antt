-- ===== src/Jobs/Done.antt =====
-- The frame of the phases of most jobs below pkg/jobs: a job whose time of completion is stored is
-- not run again, unless its options ask for it (here after pkg/jobs/gateway/gateway.go).
pub mod Laws
use ks_upgrade.Base.{
  String, Bool, true, false, if◌then◌else◌, [], Error, Result, is_backup_key_not_found,
}
use ks_upgrade.Base.Action.{Action, pure, raise, ◌>>=◌, ◌>>◌, attempt}
use ks_upgrade.Storage.{Bytes, Storage}
use ks_upgrade.Store.{delete, load_raw, save_raw}
use ks_upgrade.Jobs.Objects.{is_empty}

module _ {W : Type 0} (s : Storage W) where
  unfoldable pub clear_done : Bool → String → Action W (Unit {0})
  unfolding delete
  clear_done rerun key =
      if rerun
      then attempt (delete s key) pure (λ e. if is_backup_key_not_found e then pure tt else raise e)
      else pure tt

  -- A missing time reads as the empty one.
  unfoldable pub load_done : String → Action W Bytes
  unfolding load_raw
  load_done key =
      attempt (load_raw s key) pure (λ e. if is_backup_key_not_found e then pure [] else raise e)

  unfoldable pub unless_done : Bool → String → Action W (Unit {0}) → Action W (Unit {0})
  unfolding clear_done load_done
  unless_done rerun key steps =
      clear_done rerun key >> load_done key >>= λ date. if is_empty date then steps else pure tt

  -- `now` prints the time.
  unfoldable pub save_done : (W → Bytes) → String → Action W (Unit {0})
  unfolding save_raw
  save_done now key w = save_raw s key (now w) w
