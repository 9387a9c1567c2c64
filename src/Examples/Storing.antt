-- ===== src/Examples/Storing.antt =====
-- pkg/storage, pkg/store and pkg/model/factory.go, over a storage in memory, files and a bucket.
use ks_upgrade.Base.{
  arith, message, Bool, true, false, ◌&&◌, ◌==◌, eq_iff, sym, Option, none, ◌+◌, ◌*◌, ◌≤◌, ◌<◌,
  String, ◌≡◌, refl, ap, sym, subst, ◌⊎◌, pos, [], ◌∷◌, Option, none, some, Error,
  backup_key_not_found, not_exist, request_failure, Result, ok, err, eq_refl,
}
use ks_upgrade.Base.Action.{Action}
use ks_upgrade.Base.Dict
use ks_upgrade.Base.Dict.{Dict}
use ks_upgrade.Storage.{Bytes, Keeps}
use ks_upgrade.Storage.Local.{FileSystem, local_file_storage}
use ks_upgrade.Storage.Local.Laws.{FileLaws, Forgets, local_file_storage-Keeps}
use ks_upgrade.Storage.ObjectStore.{
  S3Client, put, uploaded, retry, handler_aws_err, calculate_concurrency, default_part_size,
  min_concurrency, max_concurrency,
}
use ks_upgrade.Storage.ObjectStore.Laws.{Uploaded, Retried, put-ok, calculate_concurrency_lem}
use ks_upgrade.Store.{
  RestClient, RestConfig, ClientConfig, ClientContext, ClientCluster, AuthInfo,
  create_kube_config_file_for_rest_config, get_rest_config, fresh_config, load_raw, save_raw,
  kube_config_backup_key,
}
use ks_upgrade.Store.Laws.{get_rest_config-cached, KubeConfigLaws}
use ks_upgrade.Examples.Memory.{memory, memory-Keeps}

-- A configuration with a token; `others` is the name of its server.
abbrev rest_config : String → RestConfig String
rest_config others = record {
  host = "https://ks";
  ca_data = [];
  cert_data = [];
  key_data = [];
  bearer_token = "t";
  others = others;
}

-- Only the file of that configuration is written.
abbrev written : Bool → Result Bytes
written true = ok (7 ∷ [])
written false = err (message "another file")

abbrev is_empty : Bytes → Bool
is_empty [] = true
is_empty (x ∷ xs) = false

abbrev is_written : Option AuthInfo → Option ClientCluster → Bool
is_written (some user) (some cluster) =
    (user.token == "t")
    && ((cluster.server == "https://ks")
        && (is_empty cluster.certificate_authority_data
            && (is_empty user.client_certificate_data && is_empty user.client_key_data)))
is_written _ none = false
is_written none _ = false

abbrev user_of : ClientConfig → Option ClientContext → Option AuthInfo
user_of file none = none
user_of file (some context) = Dict.lookup context.auth_info file.auth_infos

abbrev cluster_of : ClientConfig → Option ClientContext → Option ClientCluster
cluster_of file none = none
cluster_of file (some context) = Dict.lookup context.cluster file.clusters

abbrev context_of : ClientConfig → Option ClientContext
context_of file = Dict.lookup file.current_context file.contexts

abbrev rest : RestClient (Dict Bytes) String
rest = record {
  get_config = λ w. (ok (rest_config ""), w);
  load_tls_files = λ c w. (ok (rest_config "server name"), w);
  write = λ file.
      written (is_written (user_of file (context_of file)) (cluster_of file (context_of file)));
  from_kube_config = λ raw. ok (rest_config "");
}

empty : (b : Bytes) → is_empty b ≡ true → [] ≡ b
empty [] h = refl
empty (x ∷ xs) h = cc

was_written :
    (user : AuthInfo) (cluster : ClientCluster) (raw : Bytes)
    → written (is_written (some user) (some cluster)) ≡ ok raw
    → is_written (some user) (some cluster) ≡ true
was_written user cluster raw h = go (is_written (some user) (some cluster)) h
  where
    go : (b : Bool) → written b ≡ ok raw → b ≡ true
    go true h = refl
    go false h = cc

both_true : {a b : Bool} → (a && b) ≡ true → (a ≡ true) × (b ≡ true)
both_true {a} {b} h = ground arith

rest-KubeConfigLaws : KubeConfigLaws rest "" (λ server. true)
rest-KubeConfigLaws = record {
  reads = λ file context cluster user raw h c k a plain paired.
      let all = was_written user cluster raw (rw (c, k, a) at h) in
      let (token, all1) = both_true all in
      let (server, all2) = both_true all1 in
      let (authority, all3) = both_true all2 in
      let (certificate, key) = both_true all3 in
      same (sym ((eq_iff cluster.server "https://ks").0 server))
        (empty cluster.certificate_authority_data authority)
        (empty user.client_certificate_data certificate) (empty user.client_key_data key)
        (sym ((eq_iff user.token "t").0 token));
}
  where
    same :
        {host token : String} {ca cert key : Bytes}
        → "https://ks" ≡ host
        → [] ≡ ca
        → [] ≡ cert
        → [] ≡ key
        → "t" ≡ token
        → ok (rest_config "")
          ≡ ok (record {
            host = host;
            ca_data = ca;
            cert_data = cert;
            key_data = key;
            bearer_token = token;
            others = "";
          })
    same h1 h2 h3 h4 h5 = λ i. ok (record {
      host = h1 i;
      ca_data = h2 i;
      cert_data = h3 i;
      key_data = h4 i;
      bearer_token = h5 i;
      others = "";
    })

-- The name of the server is not in the cache.
get_rest_config-cached_example :
    get_rest_config memory rest ((kube_config_backup_key, 7 ∷ []) ∷ [])
    ≡ (ok (rest_config ""), (kube_config_backup_key, 7 ∷ []) ∷ [])
unfolding get_rest_config fresh_config load_raw save_raw create_kube_config_file_for_rest_config
    Dict.insert Dict.lookup
get_rest_config-cached_example =
    get_rest_config-cached memory memory-Keeps rest "" (λ server. true) rest-KubeConfigLaws [] []
      ((kube_config_backup_key, 7 ∷ []) ∷ []) (rest_config "server name") backup_key_not_found refl
      (λ h. h, λ h. h) refl refl refl

-- A directory of files.
abbrev opened : Option Bytes → Action (Dict Bytes) (Unit {0})
opened none w = (err not_exist, w)
opened (some b) w = (ok tt, w)

abbrev content : Option Bytes → Action (Dict Bytes) Bytes
content none w = (err not_exist, w)
content (some b) w = (ok b, w)

abbrev files : FileSystem (Dict Bytes)
files = record {
  join = λ a b. b;
  open_truncated = λ f w. (ok tt, Dict.insert f [] w);
  write = λ f b w. (ok tt, Dict.insert f b w);
  open_file = λ f w. opened (Dict.lookup f w) w;
  read_from = λ f w. content (Dict.lookup f w) w;
  remove = λ f w. (ok tt, Dict.erase f w);
  stat = λ f w. (ok tt, w);
  mkdir_all = λ f w. (ok tt, w);
}

abbrev held : Dict Bytes → String → Option Bytes
held w file = Dict.lookup file w

changed :
    (d w : Dict Bytes) (file : String) (o : Option Bytes)
    → ◌≡◌ {A = Result (Unit {0}) × Dict Bytes} (ok tt, d) (ok tt, w)
    → Dict.lookup file d ≡ o
    → Dict.lookup file w ≡ o
changed d w file o h there =
    subst (λ x. Dict.lookup file x ≡ o) (ap (λ (p : Result (Unit {0}) × Dict Bytes). p.1) h) there

files-FileLaws : FileLaws files held
files-FileLaws = record {
  truncates = λ f u v h.
      changed (Dict.insert f [] u) v f (some []) h (rw (Dict.lookup-insert, eq_refl f) refl);
  fills = λ f b v w e h.
      changed (Dict.insert f b v) w f (some b) h (rw (Dict.lookup-insert, eq_refl f) refl);
  removes = λ f u w h. changed (Dict.erase f u) w f none h (rw (Dict.lookup-erase, eq_refl f) refl);
  opens = λ f b w h. ap (λ o. opened o w) h;
  reads = λ f b w h. ap (λ o. content o w) h;
  misses = λ f w h. ap (λ o. opened o w) h;
}

local_file_storage-Keeps_example :
    Keeps (local_file_storage files "backup") × Forgets (local_file_storage files "backup")
local_file_storage-Keeps_example = local_file_storage-Keeps files held files-FileLaws "backup"

-- An object store without or with a bucket. An upload reads the whole body before it fails.
abbrev upload_to :
    Option (Dict Bytes) → String → Bytes → (Option Error × Bytes) × Option (Dict Bytes)
upload_to none k b = ((some (request_failure 404 "NoSuchBucket"), []), none)
upload_to (some objects) k b = ((none, []), some (Dict.insert k b objects))

abbrev bucket : S3Client (Option (Dict Bytes))
bucket = record {
  read = λ k w. (err (request_failure 404 "NoSuchKey"), w);
  upload = λ k name b size w. upload_to w k b;
  delete = λ k w. (ok tt, w);
  create_bucket = λ w. (ok tt, some []);
}

-- The bucket is missing, and the object that is stored in the end is empty.
put-ok_example :
    Uploaded bucket "iam" (1 ∷ 2 ∷ []) none (some (("iam", []) ∷ []))
    ⊎ Retried bucket "iam" (1 ∷ 2 ∷ []) none (some (("iam", []) ∷ []))
unfolding put uploaded retry handler_aws_err Dict.insert
put-ok_example = put-ok bucket "iam" (1 ∷ 2 ∷ []) none (some (("iam", []) ∷ [])) refl

calculate_concurrency_lem_example :
    (min_concurrency ≤ calculate_concurrency (pos 40000000))
    × (calculate_concurrency (pos 40000000) ≤ max_concurrency)
    × ((min_concurrency < calculate_concurrency (pos 40000000))
        → calculate_concurrency (pos 40000000) < max_concurrency
        → (40000000 ≤ calculate_concurrency (pos 40000000) * default_part_size)
          × (calculate_concurrency (pos 40000000) * default_part_size
              < 40000000 + default_part_size))
calculate_concurrency_lem_example = calculate_concurrency_lem 40000000
