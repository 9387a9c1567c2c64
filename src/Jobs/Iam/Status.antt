-- ===== src/Jobs/Iam/Status.antt =====
-- `GetUpgradeStatus` and `SetUpgradeStatus` of pkg/jobs/iam/upgrade.go, and the frame of the
-- phases of pkg/jobs/iam/iam.go: a phase that is recorded as a success is skipped.
pub mod Laws
use ks_upgrade.Base.{
  String, ◌<>◌, ◌≡◌, ℤ, Bool, true, false, if◌then◌else◌, List, [], Option, none, some, Error,
  Result, ok, err, panic, is_backup_key_not_found, ◌==◌,
}
use ks_upgrade.Base.Action.{Action, pure, raise, lift, ◌>>=◌, ◌>>◌, continue, on_result, attempt}
use ks_upgrade.Storage.{Bytes, Storage}
use ks_upgrade.Store.{Codec, load_raw, save_raw}

-- The zero time is `none`.
pub record UpgradeStatus : Type 0 where
  pub status : String
  pub time : Option ℤ

abbrev pub upgrade_status_success : String
upgrade_status_success = "success"

abbrev pub status_key : String → String
status_key staging = "iam-upgrade-status-" <> staging

module _ {W : Type 0} (s : Storage W) (json : Codec UpgradeStatus) where
  unfoldable pub get_upgrade_status : String → Action W UpgradeStatus
  unfolding load_raw
  get_upgrade_status staging =
      attempt (load_raw s (status_key staging)) (λ raw. lift (json.decode raw))
        (λ e.
          if is_backup_key_not_found e then pure (record { status = ""; time = none }) else raise e)

-- `data, _ := json.Marshal(upgradeStatus)`: an error leaves nothing.
unfoldable pub marshalled_or_nothing : {A : Type 0} → Codec A → A → Result Bytes
marshalled_or_nothing json a = elim (json.marshal a) [
  | ok raw ↦ ok raw
  | err e ↦ ok []
  | panic ↦ panic
]

module _ {W : Type 0} (s : Storage W) (json : Codec UpgradeStatus) (now : W → ℤ) where
  unfoldable pub set_upgrade_status : String → String → Action W (Unit {0})
  unfolding save_raw marshalled_or_nothing
  set_upgrade_status staging status w =
      (lift (marshalled_or_nothing json (record { status = status; time = some (now w) }))
          >>= λ raw. save_raw s (status_key staging) raw)
        w

  -- A phase: its steps, then the record of its success, unless that is there already.
  unfoldable pub staged : String → Action W (Unit {0}) → Action W (Unit {0})
  unfolding get_upgrade_status set_upgrade_status
  staged staging steps = get_upgrade_status s json staging >>= λ status.
      if status.status == upgrade_status_success
      then pure tt
      else steps >> set_upgrade_status staging upgrade_status_success
