-- ===== src/Jobs/Gateway/Ingress/Laws.antt =====
-- The errors of the upgrade of ingresses, none of which comes out.
use ks_upgrade.Base.{
  String, ◌≡◌, Bool, true, false, if◌then◌else◌, not, inl, inr, Option, none, some, List, Error,
  Result, ok, err, panic, ◌==◌,
}
use ks_upgrade.Base.Action.{Action, pure, on_result, bind-eq-err}
use ks_upgrade.Jobs.Objects.{Object}
use ks_upgrade.Jobs.Gateway.Objects.{Scope, GatewaySpec}
use ks_upgrade.Jobs.Gateway.Convert.{find_named}
use ks_upgrade.Jobs.Gateway.Ingress.{
  IngressSpec, dropping, upgrade_project_gateway_ingress, upgrade_workspace_gateway_ingress,
  upgrade_cluster_gateway_ingress, upgrade_scope, upgrade_found, upgrade_ingress,
}

dropping_no_error :
    {W : Type 0} (m : Action W (Unit {0})) (u w : W) (e : Error) → ¬ (dropping m u ≡ (err e, w))
dropping_no_error {W} m u w e h = go (m u) h
  where
    go :
        (p : Result (Unit {0}) × W)
        → ¬ (◌≡◌ {A = Result (Unit {0}) × W} (on_result p.0 pure (λ e. pure tt) p.1) (err e, w))
    go (ok x, v) h = cc
    go (err f, v) h = cc
    go (panic, v) h = cc

module _ {W Raw : Type 0} (update : Object (IngressSpec Raw) → Action W (Unit {0}))
    (list_in : String → Action W (List (Object (IngressSpec Raw))))
    (list_all : Action W (List (Object (IngressSpec Raw))))
    (select : String → Action W (List String)) where
  upgrade_scope_no_error :
      (name : String) (scope : Scope) (u w : W) (e : Error)
      → ¬ (upgrade_scope update list_in list_all select name scope u ≡ (err e, w))
  unfolding upgrade_scope
  upgrade_scope_no_error name scope u w e h =
      go scope.enabled (not (scope.namespace == "")) (not (scope.namespace_selector == "")) h
    where
      project : Action W (Unit {0})
      project = upgrade_project_gateway_ingress update list_in list_all select name scope.namespace

      workspace : Action W (Unit {0})
      workspace =
          upgrade_workspace_gateway_ingress update list_in list_all select name
            scope.namespace_selector

      cluster : Action W (Unit {0})
      cluster = upgrade_cluster_gateway_ingress update list_in list_all select

      go :
          (a b c : Bool)
          → ¬ (
              ◌≡◌ {A = Result (Unit {0}) × W}
                ((if a
                    then (if b then dropping project else pure tt)
                    else (if c then dropping workspace else dropping cluster))
                  u)
                (err e, w))
      go true true c h = dropping_no_error project u w e h
      go true false c h = cc
      go false b true h = dropping_no_error workspace u w e h
      go false b false h = dropping_no_error cluster u w e h

  -- The only error of the upgrade of the ingresses is that of loading the gateways: where they
  -- were loaded, no error of a list or of an update comes out.
  pub upgrade_ingress_err :
      {Spec : Type 0} (load : Action W (List (Object (GatewaySpec Spec)))) (name : String) (u w : W)
      (e : Error)
      → upgrade_ingress update list_in list_all select load name u ≡ (err e, w)
      → load u ≡ (err e, w)
  unfolding upgrade_ingress upgrade_found
  upgrade_ingress_err {Spec} load name u w e h =
      elim (bind-eq-err load
        (λ items. upgrade_found update list_in list_all select (find_named name items)) h) [
          | inl failed ↦ failed
          | inr (items, v, loaded, k) ↦ absurd (go (find_named name items) v k)
        ]
    where
      go :
          (o : Option (Object (GatewaySpec Spec))) (v : W)
          → ¬ (upgrade_found update list_in list_all select o v ≡ (err e, w))
      go none v k = cc
      go (some o) v k = upgrade_scope_no_error o.meta.name o.spec.controller.scope v w e k
