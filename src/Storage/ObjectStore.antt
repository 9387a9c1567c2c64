-- ===== src/Storage/ObjectStore.antt =====
-- pkg/storage/object_storage.go and the concurrency of pkg/storage/s3.go.
pub mod Laws
use ks_upgrade.Base.{
  ℕ, suc, ◌+◌, ◌-◌, ◌*◌, ◌/◌, String, ◌≡◌, Bool, true, false, if◌then◌else◌, ltb, eqb, ℤ, pos,
  negsuc, Option, none, some, Error, message, described, not_exist, backup_key_not_found,
  backup_not_found, no_deployed_releases, release_not_found, status, request_failure, aggregate,
  Result, ok, err, panic, of_error, is_backup_not_found, length, ◌==◌, List, [], ◌∷◌,
}
use ks_upgrade.Base.Action.{Action, pure, raise, ◌>>=◌, ◌>>◌, on_result, attempt, continue, lift}
use ks_upgrade.Storage.{Bytes, Storage, S3StorageOptions}

-- The methods of `Interface` that `ObjectStorage` calls. `upload` reads from a buffer: it gives
-- its error and what it left unread.
pub record S3Client (W : Type 0) : Type 0 where
  pub read : String → Action W Bytes
  pub upload : String → String → Bytes → ℕ → W → (Option Error × Bytes) × W
  pub delete : String → Action W (Unit {0})
  pub create_bucket : Action W (Unit {0})

-- `handlerAwsErr`, on an error that is there.
unfoldable pub handler_aws_err : Error → Error
handler_aws_err (request_failure code reason) =
    if eqb code 404
    then if reason == "NoSuchKey"
      then backup_key_not_found
      else if reason == "NoSuchBucket"
      then backup_not_found
      else request_failure code reason
    else request_failure code reason
handler_aws_err e = e

-- The error of an upload.
abbrev pub outcome : {W : Type 0} → (Option Error × Bytes) × W → Result (Unit {0}) × W
outcome ((e, unread), w) = (of_error e, w)

module _ {W : Type 0} (client : S3Client W) where
  -- The second upload, from the buffer that the first one has read from.
  unfoldable pub retry : String → Bytes → Bytes → Action W (Unit {0})
  retry k object unread =
      client.create_bucket >> λ w. outcome (client.upload k k unread (length object) w)

  -- What `Put` does with the error of the first upload.
  unfoldable pub uploaded : String → Bytes → Option Error × Bytes → Action W (Unit {0})
  unfolding retry handler_aws_err
  uploaded k object (none, unread) = pure tt
  uploaded k object (some e, unread) =
      if is_backup_not_found (handler_aws_err e)
      then retry k object unread
      else raise (handler_aws_err e)

  unfoldable pub put : String → Bytes → Action W (Unit {0})
  unfolding uploaded
  put k object w =
      let (answer, w') = client.upload k k object (length object) w in uploaded k object answer w'

  unfoldable pub get : String → Action W Bytes
  unfolding handler_aws_err
  get k = attempt (client.read k) pure (λ e. raise (handler_aws_err e))

  unfoldable pub delete : String → Action W (Unit {0})
  unfolding handler_aws_err
  delete k = attempt (client.delete k) pure (λ e. raise (handler_aws_err e))

  unfoldable pub object_storage : Storage W
  object_storage = record { put = put; get = get; delete = delete }

-- `NewS3Storage`, over `NewS3Client`.
unfoldable pub new_s3_storage :
    {W : Type 0}
    → (S3StorageOptions → Action W (S3Client W))
    → S3StorageOptions
    → Action W (Storage W)
unfolding object_storage
new_s3_storage new_client o = new_client o >>= λ client. pure (object_storage client)

-- `DefaultPartSize`, with megabytes of 2 ^ 20 bytes, `MinConcurrency` and `MaxConcurrency`.
abbrev pub default_part_size : ℕ
default_part_size = 5 * 1048576

abbrev pub min_concurrency : ℕ
min_concurrency = 5

abbrev pub max_concurrency : ℕ
max_concurrency = 128

-- `calculateConcurrency`. The quotient of two floats, rounded up, is the one of the integers as
-- long as a float holds the size exactly, which is so below 2 ^ 53 bytes.
unfoldable pub calculate_concurrency : ℤ → ℕ
calculate_concurrency (negsuc n) = min_concurrency
calculate_concurrency (pos ℕ.zero) = min_concurrency
calculate_concurrency (pos (suc n)) =
    let c = (suc n + (default_part_size - 1)) / default_part_size in
    if ltb c min_concurrency
    then min_concurrency
    else if ltb max_concurrency c
    then max_concurrency
    else c
