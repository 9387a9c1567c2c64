-- ===== src/Jobs/Gateway/Ingress.antt =====
-- pkg/jobs/gateway/gateway.go: the class of the ingresses of a gateway.
pub mod Laws
use ks_upgrade.Base.{
  String, Bool, true, false, if◌then◌else◌, not, Option, none, some, List, [], ◌∷◌, Error, Result,
  ok, err, panic, ◌==◌,
}
use ks_upgrade.Base.Action.{Action, pure, ◌>>=◌, attempt}
use ks_upgrade.Base.Loops.{each}
use ks_upgrade.Jobs.Objects.{ObjectMeta, Object, Api, is_set}
use ks_upgrade.Jobs.Gateway.Objects.{Scope, ControllerSpec, GatewaySpec}
use ks_upgrade.Jobs.Gateway.Convert.{new_cluster_gateway_name, find_named}

-- The specification of an ingress is its class and what is not looked into.
pub record IngressSpec (Raw : Type 0) : Type 0 where
  pub ingress_class_name : Option String
  pub others : Raw

-- A call whose error is dropped.
abbrev pub dropping : {W : Type 0} → Action W (Unit {0}) → Action W (Unit {0})
dropping m = attempt m pure (λ e. pure tt)

module _ {W Raw : Type 0} (update : Object (IngressSpec Raw) → Action W (Unit {0})) where
  abbrev pub with_class : String → Object (IngressSpec Raw) → Object (IngressSpec Raw)
  with_class name o = record {
    meta = record o.meta { resource_version = "" };
    spec = record o.spec { ingress_class_name = some name };
  }

  unfoldable pub set_class : String → Object (IngressSpec Raw) → Action W (Unit {0})
  set_class name o =
      if is_set o.spec.ingress_class_name then pure tt else update (with_class name o)

  -- An ingress that has a class is left as it is.
  unfoldable pub update_ingress : List (Object (IngressSpec Raw)) → String → Action W (Unit {0})
  unfolding set_class
  update_ingress items name = each (set_class name) items

-- `list_in` gives the ingresses of a namespace, `list_all` those of the cluster, and `select` the
-- names of the namespaces that a selector chooses.
module _ {W Raw : Type 0} (update : Object (IngressSpec Raw) → Action W (Unit {0}))
    (list_in : String → Action W (List (Object (IngressSpec Raw))))
    (list_all : Action W (List (Object (IngressSpec Raw))))
    (select : String → Action W (List String)) where
  unfoldable pub upgrade_project_gateway_ingress : String → String → Action W (Unit {0})
  unfolding update_ingress
  upgrade_project_gateway_ingress name space =
      list_in space >>= λ items. update_ingress update items name

  unfoldable pub upgrade_workspace_gateway_ingress : String → String → Action W (Unit {0})
  unfolding update_ingress
  upgrade_workspace_gateway_ingress name selector = select selector >>= λ spaces.
      each (λ space. list_in space >>= λ items. dropping (update_ingress update items name)) spaces

  unfoldable pub upgrade_cluster_gateway_ingress : Action W (Unit {0})
  unfolding update_ingress
  upgrade_cluster_gateway_ingress =
      list_all >>= λ items. update_ingress update items new_cluster_gateway_name

  -- By the scope of the gateway; each error is dropped.
  unfoldable pub upgrade_scope : String → Scope → Action W (Unit {0})
  unfolding upgrade_project_gateway_ingress upgrade_workspace_gateway_ingress
      upgrade_cluster_gateway_ingress
  upgrade_scope name scope =
      if scope.enabled
      then (if not (scope.namespace == "")
          then dropping (upgrade_project_gateway_ingress name scope.namespace)
          else pure tt)
      else (if not (scope.namespace_selector == "")
          then dropping (upgrade_workspace_gateway_ingress name scope.namespace_selector)
          else dropping upgrade_cluster_gateway_ingress)

  unfoldable pub upgrade_found :
      {Spec : Type 0} → Option (Object (GatewaySpec Spec)) → Action W (Unit {0})
  unfolding upgrade_scope
  upgrade_found none = pure tt
  upgrade_found (some o) = upgrade_scope o.meta.name o.spec.controller.scope

  unfoldable pub upgrade_ingress :
      {Spec : Type 0} → Action W (List (Object (GatewaySpec Spec))) → String → Action W (Unit {0})
  unfolding upgrade_found find_named
  upgrade_ingress load name = load >>= λ items. upgrade_found (find_named name items)
