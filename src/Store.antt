-- ===== src/Store.antt =====
-- pkg/store/store.go, and the cached client configuration of pkg/model/factory.go.
pub mod Laws
use ks_upgrade.Base.{
  String, ◌≡◌, Bool, true, false, if◌then◌else◌, List, [], ◌∷◌, Option, none, some, Error, Result,
  ok, err, panic, is_backup_key_not_found,
}
use ks_upgrade.Base.Action.{Action, pure, raise, lift, ◌>>=◌, ◌>>◌, on_result, attempt, continue}
use ks_upgrade.Base.Dict.{Dict}
use ks_upgrade.Storage.{Bytes, Storage}

-- The codec of a type of objects: `json.Marshal`, and the YAML or JSON decoder.
pub record Codec (A : Type 0) : Type 0 where
  pub marshal : A → Result Bytes
  pub decode : Bytes → Result A

module _ {W : Type 0} (s : Storage W) where
  unfoldable pub load_raw : String → Action W Bytes
  load_raw key = s.get key

  unfoldable pub save_raw : String → Bytes → Action W (Unit {0})
  save_raw key raw = s.put key raw

  unfoldable pub delete : String → Action W (Unit {0})
  delete key = s.delete key

  module _ {A : Type 0} (codec : Codec A) where
    unfoldable pub load : String → Action W A
    load key = s.get key >>= λ raw. lift (codec.decode raw)

    unfoldable pub save : String → A → Action W (Unit {0})
    save key object = lift (codec.marshal object) >>= λ raw. s.put key raw

-- The configuration of a client. `Raw` is all that `CreateKubeConfigFileForRestConfig` leaves out,
-- such as the name of the server, the files of tokens and the credentials by name and password.
pub record RestConfig (Raw : Type 0) : Type 0 where
  pub host : String
  pub ca_data : Bytes
  pub cert_data : Bytes
  pub key_data : Bytes
  pub bearer_token : String
  pub others : Raw

-- A kubeconfig file, as far as the code fills it.
pub record ClientCluster : Type 0 where
  pub server : String
  pub certificate_authority_data : Bytes

pub record ClientContext : Type 0 where
  pub cluster : String
  pub auth_info : String

pub record AuthInfo : Type 0 where
  pub client_certificate_data : Bytes
  pub client_key_data : Bytes
  pub token : String

pub record ClientConfig : Type 0 where
  pub kind : String
  pub api_version : String
  pub clusters : Dict ClientCluster
  pub contexts : Dict ClientContext
  pub current_context : String
  pub auth_infos : Dict AuthInfo

unfoldable pub create_kube_config_file_for_rest_config :
    {Raw : Type 0} → RestConfig Raw → ClientConfig
create_kube_config_file_for_rest_config config = record {
  kind = "Config";
  api_version = "v1";
  clusters =
      ("kubernetes", record { server = config.host; certificate_authority_data = config.ca_data })
      ∷ [];
  contexts =
      (
        "kubernetes-admin@kubernetes",
        record { cluster = "kubernetes"; auth_info = "kubernetes-admin" },
      )
      ∷ [];
  current_context = "kubernetes-admin@kubernetes";
  auth_infos =
      (
        "kubernetes-admin",
        record {
          client_certificate_data = config.cert_data;
          client_key_data = config.key_data;
          token = config.bearer_token;
        },
      )
      ∷ [];
}

-- The calls of client-go that `GetRestConfig` makes: the configuration of the environment, its
-- TLS files, and a kubeconfig file, written and read.
pub record RestClient (W Raw : Type 0) : Type 0 where
  pub get_config : Action W (RestConfig Raw)
  pub load_tls_files : RestConfig Raw → Action W (RestConfig Raw)
  pub write : ClientConfig → Result Bytes
  pub from_kube_config : Bytes → Result (RestConfig Raw)

abbrev pub kube_config_backup_key : String
kube_config_backup_key = "factory.kubeconfig"

module _ {W Raw : Type 0} (s : Storage W) (rest : RestClient W Raw) where
  -- No cache: the configuration is read, and its kubeconfig file is saved as the cache.
  unfoldable pub fresh_config : Action W (RestConfig Raw)
  unfolding save_raw create_kube_config_file_for_rest_config
  fresh_config = rest.get_config >>= λ config. rest.load_tls_files config >>= λ config'.
      lift (rest.write (create_kube_config_file_for_rest_config config')) >>= λ raw.
      save_raw s kube_config_backup_key raw >> pure config'

  -- A cache that does not parse is not used, and not replaced.
  unfoldable pub cached_config : Bytes → Action W (RestConfig Raw)
  cached_config raw = attempt (lift (rest.from_kube_config raw)) pure (λ e. rest.get_config)

  -- `GetRestConfig`
  unfoldable pub get_rest_config : Action W (RestConfig Raw)
  unfolding load_raw fresh_config cached_config
  get_rest_config =
      attempt (load_raw s kube_config_backup_key) cached_config
        (λ e. if is_backup_key_not_found e then fresh_config else raise e)
