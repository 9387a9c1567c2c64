-- ===== src/Jobs/Gateway/Backup.antt =====
-- pkg/jobs/gateway/gateway.go: what is kept of the gateways of version 3, and their configuration.
use ks_upgrade.Base.{
  String, ◌<>◌, ℤ, if◌then◌else◌, not, Option, none, some, List, [], ◌∷◌, message, described,
  Result, ok, is_backup_key_not_found, is_not_found, ◌==◌,
}
use ks_upgrade.Base.Action.{Action, pure, raise, lift, ◌>>=◌, ◌>>◌, attempt}
use ks_upgrade.Base.Dict
use ks_upgrade.Base.Dict.{Dict}
use ks_upgrade.Config.Merge
use ks_upgrade.Config.Merge.{Fields, Value}
use ks_upgrade.Storage.{Bytes, Storage}
use ks_upgrade.Store.{Codec, load, save, load_raw}
use ks_upgrade.Jobs.Objects.{Object, entries, is_absent}
use ks_upgrade.Jobs.Gateway.Objects.{GatewaySpec}

module _ {W A : Type 0} (s : Storage W) (codec : Codec A) where
  -- An error other than that of a missing key is passed over.
  unfoldable pub backup_object_list : String → A → Action W (Unit {0})
  unfolding load save
  backup_object_list key items =
      attempt (load s codec key) (λ _. pure tt)
        (λ e. if is_backup_key_not_found e then save s codec key items else pure tt)

  -- The list that is read is changed by `adjust` before it is kept.
  unfoldable pub backup_list : Action W A → (A → Action W A) → String → Action W (Unit {0})
  unfolding backup_object_list
  backup_list list adjust key =
      attempt list (λ items. adjust items >>= backup_object_list key)
        (λ e. if is_absent e then pure tt else raise e)

-- A service, as far as the backup of a gateway reads it: its type, and its ports by their names.
pub record Service : Type 0 where
  pub type : String
  pub ports : List (String × ℤ)

-- The last port of a name, printed by `itoa`.
unfoldable pub node_port : (ℤ → String) → String → String → List (String × ℤ) → String
node_port itoa name found [] = found
node_port itoa name found ((n, port) ∷ ports) =
    node_port itoa name (if n == name then itoa port else found) ports

module _ {W Raw : Type 0} (itoa : ℤ → String)
    (get_service : String → String → Action W Service) where
  unfoldable pub with_ports : Service → Object (GatewaySpec Raw) → Object (GatewaySpec Raw)
  unfolding node_port
  with_ports service o = record o {
    spec = record o.spec {
      service = record o.spec.service {
        annotations = some (
            Dict.insert "gateway.kubesphere.io/https-nodeport"
              (node_port itoa "https" "" service.ports)
              (Dict.insert "gateway.kubesphere.io/http-nodeport"
                (node_port itoa "http" "" service.ports) (entries o.spec.service.annotations)));
      };
    };
  }

  unfoldable pub with_node_ports : Object (GatewaySpec Raw) → Action W (Object (GatewaySpec Raw))
  unfolding with_ports
  with_node_ports o =
      if o.spec.service.type == "NodePort"
      then (get_service o.meta.namespace o.meta.name >>= λ service.
          pure (if not (service.type == "NodePort") then o else with_ports service o))
      else pure o

  unfoldable pub all_node_ports :
      List (Object (GatewaySpec Raw)) → Action W (List (Object (GatewaySpec Raw)))
  unfolding with_node_ports
  all_node_ports [] = pure []
  all_node_ports (o ∷ items) =
      with_node_ports o >>= λ o'. all_node_ports items >>= λ items'. pure (o' ∷ items')

-- The definitions of the two kinds; one that is not found ends the loop.
unfoldable pub backup_crds :
    {W Crd : Type 0}
    → Storage W
    → Codec Crd
    → (String → Action W Crd)
    → List String
    → Action W (Unit {0})
unfolding load save
backup_crds s codec get_crd [] w = (ok tt, w)
backup_crds s codec get_crd (name ∷ names) w =
    let rest = backup_crds s codec get_crd names in
    let key = "gateway-" <> name in
    attempt (load s codec key) (λ _. rest)
      (λ e.
        if is_backup_key_not_found e
        then attempt (get_crd name) (λ crd. save s codec key crd >> rest)
            (λ f. if is_absent f then pure tt else raise f)
        else rest)
      w

-- `get` reads the data of the backup of the old configuration, and `create` makes it with a text.
module _ {W : Type 0} (s : Storage W) (get : Action W (Dict String))
    (create : String → Action W (Unit {0})) (unmarshal : Bytes → Result Fields)
    (marshal : Value → Result String) where
  unfoldable pub create_config : Option Value → Action W (Unit {0})
  create_config none = raise (message "failed to get gateway config from kubesphere.yaml")
  create_config (some config) = lift (marshal config) >>= create

  unfoldable pub config_from_store : Action W (Unit {0})
  unfolding load_raw create_config
  config_from_store =
      attempt (load_raw s "kubesphere-config")
        (λ raw.
          attempt (lift (unmarshal raw)) (λ fields. create_config (Merge.lookup "gateway" fields))
            (λ e. raise (described "failed to unmarshal value from ksConfig" e)))
        (λ e.
          if is_backup_key_not_found e
          then raise
              (message "kubesphere-config not found in backup, please enable core upgrade job")
          else raise e)

  unfoldable pub backup_gateway_config : Action W (Unit {0})
  unfolding config_from_store
  backup_gateway_config =
      attempt get (λ _. pure tt) (λ e. if is_not_found e then config_from_store else raise e)

unfoldable pub get_old_gateway_config :
    {W : Type 0} → Action W (Dict String) → (String → Result Fields) → Action W Fields
get_old_gateway_config get unmarshal = get >>= λ config.
    elim (Dict.lookup "kubesphere.yaml" config) [
      | none ↦ raise (message "failed to get gateway config from configmap")
      | some text ↦ lift (unmarshal text)
    ]
