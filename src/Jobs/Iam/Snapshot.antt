-- ===== src/Jobs/Iam/Snapshot.antt =====
-- `storeObjectWithTimestamp` and `LoadRecentObject` of pkg/jobs/iam/iam.go: under its key, a
-- resource has all the lists of its objects that were stored, each with its time.
pub mod Laws
use ks_upgrade.Base.{
  ℕ, suc, ◌+◌, String, ◌≡◌, ℤ, pos, lt_int, Bool, true, false, if◌then◌else◌, List, [], ◌∷◌, ◌++◌,
  Option, none, some, Error, Result, ok, err, panic, get_elem?, is_backup_key_not_found,
}
use ks_upgrade.Base.Action.{Action, pure, raise, lift, ◌>>=◌, ◌>>◌, continue, on_result, attempt}
use ks_upgrade.Storage.{Bytes, Storage}
use ks_upgrade.Store.{Codec, load_raw, save_raw}

pub record TimestampedData : Type 0 where
  pub data_bytes : Bytes
  pub timestamp : ℤ

-- The loop of `LoadRecentObject`, at the index of the first of the entries that are left. It does
-- not update `recent`.
unfoldable pub recent_index : ℤ → ℕ → ℕ → List TimestampedData → ℕ
recent_index recent index i [] = index
recent_index recent index i (d ∷ datas) =
    recent_index recent (if lt_int recent d.timestamp then i else index) (suc i) datas

-- `datas[recentIndex].Data`
unfoldable pub recent_data : List TimestampedData → Result Bytes
unfolding recent_index
recent_data datas = elim (get_elem? datas (recent_index (pos 0) 0 0 datas)) [
  | some d ↦ ok d.data_bytes
  | none ↦ panic
]

-- The content of a key: no content is no entries.
unfoldable pub entries_of : Codec (List TimestampedData) → Bytes → Result (List TimestampedData)
entries_of json [] = ok []
entries_of json (b ∷ raw) = json.decode (b ∷ raw)

module _ {W : Type 0} (s : Storage W) where
  -- What is stored under a key; a key that was not found has no content.
  unfoldable pub stored_raw : String → Action W Bytes
  unfolding load_raw
  stored_raw key =
      attempt (load_raw s key) pure (λ e. if is_backup_key_not_found e then pure [] else raise e)

module _ {W : Type 0} (s : Storage W) (now : W → ℤ) (json : Codec (List TimestampedData)) where
  unfoldable pub append_entry : String → Bytes → List TimestampedData → Action W (Unit {0})
  unfolding save_raw
  append_entry key list_raw datas w =
      (lift (json.marshal (datas ++ record { data_bytes = list_raw; timestamp = now w } ∷ []))
          >>= λ raw. save_raw s key raw)
        w

  module _ {L : Type 0} (list_json : Codec L) where
    unfoldable pub store_object_with_timestamp : String → L → Action W (Unit {0})
    unfolding stored_raw append_entry entries_of
    store_object_with_timestamp key list = stored_raw s key >>= λ b.
        lift (entries_of json b) >>= λ datas.
        lift (list_json.marshal list) >>= λ list_raw. append_entry key list_raw datas

module _ {W L : Type 0} (s : Storage W) (json : Codec (List TimestampedData))
    (list_json : Codec L) where
  unfoldable pub load_recent_object : String → Action W L
  unfolding load_raw recent_data
  load_recent_object key = load_raw s key >>= λ b. lift (json.decode b) >>= λ datas.
      lift (recent_data datas) >>= λ raw. lift (list_json.decode raw)
