-- ===== src/Storage.antt =====
-- pkg/storage: the interface `Storage`, its errors and options, and `NewStorage`.
pub mod Local
pub mod ObjectStore
use ks_upgrade.Base.{
  ℕ, String, ◌≡◌, Bool, Option, none, some, List, Error, Result, ok, err, panic,
  backup_key_not_found,
}
use ks_upgrade.Base.Action.{Action}

abbrev pub Bytes : Type 0
Bytes = List ℕ

pub record S3StorageOptions : Type 0 where
  pub endpoint : String
  pub region : String
  pub disable_ssl : Bool
  pub force_path_style : Bool
  pub access_key_id : String
  pub secret_access_key : String
  pub session_token : String
  pub bucket : String

pub record LocalFileStorageOptions : Type 0 where
  pub storage_path : String

pub record StorageOptions : Type 0 where
  pub s3_options : Option S3StorageOptions
  pub file_storage_options : Option LocalFileStorageOptions

-- The interface.
pub record Storage (W : Type 0) : Type 0 where
  pub put : String → Bytes → Action W (Unit {0})
  pub get : String → Action W Bytes
  pub delete : String → Action W (Unit {0})

-- What its clients rely on: an object that was put is what a `Get` of its key reads at once,
-- without a change of the world.
abbrev pub Keeps : {W : Type 0} → Storage W → Type 0
Keeps {W} s =
    (k : String) (object : Bytes) (u w : W)
    → s.put k object u ≡ (ok tt, w)
    → s.get k w ≡ (ok object, w)

-- An object that was read is read again, and reading changes nothing the second time.
abbrev pub Rereads : {W : Type 0} → Storage W → Type 0
Rereads {W} s =
    (k : String) (object : Bytes) (u w : W)
    → s.get k u ≡ (ok object, w)
    → s.get k w ≡ (ok object, w)

-- `NewStorage`, over the constructors of the two implementations. `panic`: neither is configured,
-- and `NewLocalFileStorage` reads a field of a nil pointer.
unfoldable pub new_storage :
    {W : Type 0}
    → (S3StorageOptions → Action W (Storage W))
    → (LocalFileStorageOptions → Action W (Storage W))
    → StorageOptions
    → Action W (Storage W)
new_storage new_s3 new_local o w = elim o.s3_options [
  | some s3 ↦ new_s3 s3 w
  | none ↦ elim o.file_storage_options [ some local ↦ new_local local w | none ↦ (panic, w) ]
]
