-- ===== src/Jobs/Gateway/Convert.antt =====
-- pkg/jobs/gateway/gateway.go: the conversion of a gateway to version 4, and its creation.
pub mod Laws
use ks_upgrade.Base.{
  String, ◌<>◌, Bool, true, false, if◌then◌else◌, not, Option, none, some, List, [], ◌∷◌, Error,
  message, Result, ok, err, panic, ◌==◌, starts_with,
}
use ks_upgrade.Base.Action.{Action, pure, raise, lift, ◌>>=◌, ◌>>◌}
use ks_upgrade.Base.Dict
use ks_upgrade.Base.Dict.{Dict}
use ks_upgrade.Base.Text.{trim_prefix, remove_all}
use ks_upgrade.Config.Merge
use ks_upgrade.Config.Merge.{Fields, Value, str}
use ks_upgrade.Jobs.Objects.{ObjectMeta, Object, Api, entries, text_of}
use ks_upgrade.Jobs.Gateway.Objects.{ControllerSpec, GatewaySpec, NewGatewaySpec}

abbrev pub label_gateway_type : String
label_gateway_type = "kubesphere.io/gateway-type"

abbrev pub workspace_label_key : String
workspace_label_key = "kubesphere.io/workspace"

abbrev pub new_cluster_gateway_name : String
new_cluster_gateway_name = "kubesphere-router-cluster"

abbrev pub old_cluster_gateway_name : String
old_cluster_gateway_name = "kubesphere-router-kubesphere-system"

abbrev pub kubesphere_router_prefix : String
kubesphere_router_prefix = "kubesphere-router-"

abbrev pub workspace_gateway_prefix : String
workspace_gateway_prefix = "kubesphere-router-workspace-"

-- The label of a cluster gateway is looked at before it is written again.
abbrev pub is_cluster_labelled : {S : Type 0} → Object S → Bool
is_cluster_labelled o =
    text_of (Dict.lookup label_gateway_type (entries o.meta.labels)) == "cluster"

abbrev pub new_name : {S : Type 0} → Object S → String
new_name o = if is_cluster_labelled o then new_cluster_gateway_name else o.meta.name

abbrev pub gateway_type : String → String
gateway_type name = if name == old_cluster_gateway_name then "cluster" else "project"

-- What the template is filled with.
abbrev pub with_controller : {Raw : Type 0} → String → Object (GatewaySpec Raw) → GatewaySpec Raw
with_controller repository o = record o.spec {
  controller = record o.spec.controller { fullname_override = new_name o; repository = repository };
}

-- The label of the workspace of a namespace, if it has one.
abbrev pub labelled_with : String → Dict String → Dict String
labelled_with workspace labels =
    if not (workspace == "") then Dict.insert workspace_label_key workspace labels else labels

-- The last step of the labels: the workspace that the name of a gateway tells.
abbrev pub labelled_by_name : String → Dict String → Dict String
labelled_by_name name labels =
    if starts_with name workspace_gateway_prefix
    then Dict.insert workspace_label_key (trim_prefix name workspace_gateway_prefix) labels
    else labels

abbrev pub new_gateway :
    {Raw : Type 0} → Object (GatewaySpec Raw) → Dict String → String → Object NewGatewaySpec
new_gateway o labels values = record {
  meta = record {
    name = new_name o;
    namespace = o.meta.namespace;
    labels = some (labelled_by_name o.meta.name labels);
    annotations = o.meta.annotations;
    finalizers = [];
    owner_references = [];
    deletion_timestamp = none;
    resource_version = "";
  };
  spec = record { app_version = "kubesphere-nginx-ingress-4.12.1"; values = values };
}

-- `NestedString` of one field: a missing one reads as the empty text.
abbrev pub nested_string : String → Fields → Result String
nested_string name fields = elim (Merge.lookup name fields) [
  | none ↦ ok ""
  | some (str s) ↦ ok s
  | some _ ↦ err (message "accessor error")
]

module _ {W Raw : Type 0} (template : GatewaySpec Raw → Result String)
    (namespaces : Api W (Unit {0})) where
  abbrev pub typed_labels : Object (GatewaySpec Raw) → Dict String
  typed_labels o = Dict.insert label_gateway_type (gateway_type o.meta.name) (entries o.meta.labels)

  -- The labels of a gateway of a project need its namespace.
  unfoldable pub gateway_labels : Object (GatewaySpec Raw) → Action W (Dict String)
  gateway_labels o =
      if gateway_type o.meta.name == "project"
      then (namespaces.get "kubesphere-system" (remove_all o.meta.name kubesphere_router_prefix)
          >>= λ ns. pure (
              labelled_with (text_of (Dict.lookup workspace_label_key (entries ns.meta.labels)))
                (typed_labels o)))
      else pure (typed_labels o)

  unfoldable pub convert_gateway :
      String → Object (GatewaySpec Raw) → Action W (Object NewGatewaySpec)
  unfolding gateway_labels
  convert_gateway repository o = lift (template (with_controller repository o)) >>= λ values.
      gateway_labels o >>= λ labels. pure (new_gateway o labels values)

unfoldable pub find_named : {S : Type 0} → String → List (Object S) → Option (Object S)
find_named name [] = none
find_named name (o ∷ items) =
    let rest = find_named name items in if name == o.meta.name then some o else rest

module _ {W Raw : Type 0} (template : GatewaySpec Raw → Result String)
    (namespaces : Api W (Unit {0})) (gateways : Api W NewGatewaySpec) where
  unfoldable pub create_gateway :
      String → String → Option (Object (GatewaySpec Raw)) → Action W (Unit {0})
  unfolding convert_gateway
  create_gateway name repository none = raise (message ("failed to find gateway " <> name))
  create_gateway name repository (some o) =
      convert_gateway template namespaces repository o >>= gateways.create

  -- `load` gives the gateways that were backed up, and `get_config` their old configuration.
  unfoldable pub upgrade_gateway :
      Action W (List (Object (GatewaySpec Raw))) → Action W Fields → String → Action W (Unit {0})
  unfolding create_gateway find_named
  upgrade_gateway load get_config name = load >>= λ items. get_config >>= λ config.
      lift (nested_string "repository" config) >>= λ repository.
      create_gateway name repository (find_named name items)
