-- ===== src/Jobs/Iam/Snapshot/Laws.antt =====
-- The list that is loaded is the one that was stored last, and storing keeps the earlier ones.
use ks_upgrade.Base.{
  ℕ, suc, ◌+◌, String, ◌≡◌, refl, ap, ◌∙◌, ℤ, pos, lt_int, true, if◌then◌else◌, List, [], ◌∷◌, ◌++◌,
  some, Result, ok, get_elem?, length, arith,
}
use ks_upgrade.Base.Action.{lift, ◌>>=◌, continue, bind-eq-ok, lift-bind-ok}
use ks_upgrade.Storage.{Bytes, Storage, Keeps}
use ks_upgrade.Store.{Codec, load_raw, save_raw}
use ks_upgrade.Jobs.Iam.Snapshot.{
  TimestampedData, recent_index, recent_data, entries_of, stored_raw, append_entry,
  store_object_with_timestamp, load_recent_object,
}

recent_index-append :
    (recent : ℤ) (index i : ℕ) (datas : List TimestampedData) (d : TimestampedData)
    → lt_int recent d.timestamp ≡ true
    → recent_index recent index i (datas ++ d ∷ []) ≡ i + length datas
unfolding recent_index
recent_index-append recent index i [] d h = rw (h) (omega arith)
recent_index-append recent index i (x ∷ datas) d h =
    recent_index-append recent (if lt_int recent x.timestamp then i else index) (suc i) datas d h
    ∙ omega arith

get_elem?-append :
    (datas : List TimestampedData) (d : TimestampedData)
    → get_elem? (datas ++ d ∷ []) (length datas) ≡ some d
get_elem?-append [] d = refl
get_elem?-append (x ∷ datas) d = get_elem?-append datas d

-- Whatever the times of the entries before it, the last entry is the recent one if its time is
-- positive.
pub recent_data-append :
    (datas : List TimestampedData) (d : TimestampedData)
    → lt_int (pos 0) d.timestamp ≡ true
    → recent_data (datas ++ d ∷ []) ≡ ok d.data_bytes
unfolding recent_data
recent_data-append datas d h =
    let last : recent_index (pos 0) 0 0 (datas ++ d ∷ []) ≡ length datas =
      omega (arith, recent_index-append (pos 0) 0 0 datas d h) in
    rw (last, recent_data, get_elem?-append) refl

-- What a codec is relied on for: it decodes what it marshalled.
abbrev pub Reads : {A : Type 0} → Codec A → Type 0
Reads {A} json = (a : A) (raw : Bytes) → json.marshal a ≡ ok raw → json.decode raw ≡ ok a

module _ {W L : Type 0} (s : Storage W) (now : W → ℤ) (json : Codec (List TimestampedData))
    (list_json : Codec L) where
  -- Storing a list adds an entry to those that its key had, with the time of the clock, and
  -- changes none of them.
  pub store_object_with_timestamp-ok :
      (key : String) (list : L) (u w : W)
      → store_object_with_timestamp s now json list_json key list u ≡ (ok tt, w)
      → (b : Bytes) × (v : W) × (datas : List TimestampedData) × (list_raw raw : Bytes)
        × (stored_raw s key u ≡ (ok b, v))
        × (entries_of json b ≡ ok datas)
        × (list_json.marshal list ≡ ok list_raw)
        × (json.marshal (datas ++ record { data_bytes = list_raw; timestamp = now v } ∷ [])
            ≡ ok raw)
        × (s.put key raw v ≡ (ok tt, w))
  unfolding store_object_with_timestamp append_entry save_raw
  store_object_with_timestamp-ok key list u w h =
      let (b, v, found, h1) =
        bind-eq-ok (stored_raw s key)
          (λ b. lift (entries_of json b) >>= λ datas. lift (list_json.marshal list) >>= λ list_raw.
            append_entry s now json key list_raw datas)
          h in
      let (datas, read, h2) =
        lift-bind-ok (entries_of json b)
          (λ datas. lift (list_json.marshal list) >>= λ list_raw.
            append_entry s now json key list_raw datas)
          h1 in
      let (list_raw, marshalled, h3) =
        lift-bind-ok (list_json.marshal list)
          (λ list_raw. append_entry s now json key list_raw datas) h2 in
      let (raw, written, h4) =
        lift-bind-ok
          (json.marshal (datas ++ record { data_bytes = list_raw; timestamp = now v } ∷ []))
          (λ raw. s.put key raw) h3 in
      (b, v, datas, list_raw, raw, found, read, marshalled, written, h4)

  -- If the storage keeps what was put, the decoders read what `Marshal` wrote and the clock shows
  -- a time behind 1970, a list that was stored is the one that is loaded next.
  pub load_recent_object-store :
      Keeps s
      → Reads json
      → Reads list_json
      → ((w : W) → lt_int (pos 0) (now w) ≡ true)
      → (key : String) (list : L) (u w : W)
      → store_object_with_timestamp s now json list_json key list u ≡ (ok tt, w)
      → load_recent_object s json list_json key w ≡ (ok list, w)
  unfolding load_recent_object load_raw
  load_recent_object-store keeps reads list_reads later key list u w h =
      let (b, v, datas, list_raw, raw, found, read, marshalled, written, put) =
        store_object_with_timestamp-ok key list u w h in
      let datas' = datas ++ record { data_bytes = list_raw; timestamp = now v } ∷ [] in
      ap
        (λ (p : Result Bytes × W).
          continue p.0
            (λ b. lift (json.decode b) >>= λ datas.
              lift (recent_data datas) >>= λ raw. lift (list_json.decode raw))
            p.1)
        (keeps key raw v w put)
      ∙ ap
          (λ (r : Result (List TimestampedData)).
            continue r (λ datas. lift (recent_data datas) >>= λ raw. lift (list_json.decode raw)) w)
          (reads datas' raw written)
      ∙ ap (λ (r : Result Bytes). continue r (λ raw. lift (list_json.decode raw)) w)
          (recent_data-append datas (record { data_bytes = list_raw; timestamp = now v }) (later v))
      ∙ ap (λ (r : Result L). (r, w)) (list_reads list list_raw marshalled)
