-- ===== src/Storage/Local.antt =====
-- pkg/storage/filepath.go. Opening a file leaves no trace in the model.
pub mod Laws
use ks_upgrade.Base.{
  String, ◌≡◌, Bool, true, false, if◌then◌else◌, Option, none, some, message, described, Error,
  Result, ok, err, panic, is_not_exist, backup_key_not_found, ◌<>◌,
}
use ks_upgrade.Base.Action.{Action, pure, raise, ◌>>=◌, ◌>>◌, on_result, attempt, continue}
use ks_upgrade.Storage.{Bytes, Storage, LocalFileStorageOptions}

-- The calls of the package os. `open_truncated` opens a file for writing: it is created where it
-- is missing and emptied where it is not. `write` fills it, `read_file` opens a file and reads
-- all of it. `stat` gives the error of `os.Stat`.
pub record FileSystem (W : Type 0) : Type 0 where
  pub join : String → String → String
  pub open_truncated : String → Action W (Unit {0})
  pub write : String → Bytes → Action W (Unit {0})
  pub open_file : String → Action W (Unit {0})
  pub read_from : String → Action W Bytes
  pub remove : String → Action W (Unit {0})
  pub stat : String → Action W (Unit {0})
  pub mkdir_all : String → Action W (Unit {0})

-- The error of a key whose file does not exist.
unfoldable pub key_error : Error → Error
key_error e = if is_not_exist e then backup_key_not_found else e

module _ {W : Type 0} (fs : FileSystem W) where
  unfoldable pub put : String → String → Bytes → Action W (Unit {0})
  put path k object = fs.open_truncated (fs.join path k) >> fs.write (fs.join path k) object

  unfoldable pub get : String → String → Action W Bytes
  unfolding key_error
  get path k =
      attempt (fs.open_file (fs.join path k)) (λ _. fs.read_from (fs.join path k))
        (λ e. raise (key_error e))

  unfoldable pub delete : String → String → Action W (Unit {0})
  unfolding key_error
  delete path k = attempt (fs.remove (fs.join path k)) pure (λ e. raise (key_error e))

  unfoldable pub local_file_storage : String → Storage W
  local_file_storage path = record { put = put path; get = get path; delete = delete path }

  -- `NewLocalFileStorage`: only an error that says that the path does not exist has it created.
  unfoldable pub new_local_file_storage : LocalFileStorageOptions → Action W (Storage W)
  unfolding local_file_storage
  new_local_file_storage o =
      attempt (fs.stat o.storage_path) (λ _. pure (local_file_storage o.storage_path))
        λ e.
          if is_not_exist e
          then attempt (fs.mkdir_all o.storage_path) (λ _. pure (local_file_storage o.storage_path))
              (λ e'. raise (described "[Storage] Create LocalFileStorage failed" e'))
          else pure (local_file_storage o.storage_path)
