-- ===== src/Jobs/Gateway/Convert/Laws.antt =====
-- What a gateway is in version 4.
use ks_upgrade.Base.{
  ◌≢◌, ◌⊎◌, inl, inr, ◌↔◌, refl, Option, none, some-eq, eq_iff, Bool-cases, String, ◌≡◌, ap, sym,
  ◌∙◌, Bool, true, false, if◌then◌else◌, some, Result, ok, ok-injective, ◌==◌, subst, arith,
}
use ks_upgrade.Base.Action.{Action, pure, ◌>>=◌, bind-eq-ok, lift-bind-ok}
use ks_upgrade.Base.Dict
use ks_upgrade.Base.Dict.{Dict}
use ks_upgrade.Base.Text.{remove_all, trim_prefix}
use ks_upgrade.Jobs.Objects.{Object, Api, entries, text_of}
use ks_upgrade.Jobs.Gateway.Objects.{GatewaySpec, NewGatewaySpec}
use ks_upgrade.Jobs.Gateway.Convert.{
  old_cluster_gateway_name, is_cluster_labelled, label_gateway_type, workspace_label_key,
  kubesphere_router_prefix, workspace_gateway_prefix, new_name, gateway_type, with_controller,
  labelled_with, labelled_by_name, new_gateway, typed_labels, gateway_labels, convert_gateway,
}

-- The name in version 4: that of the new cluster gateway for one with the label of a cluster
-- gateway, and else the old one.
abbrev pub NewName : {S : Type 0} → Object S → String → Type 0
NewName o n =
    ((Dict.lookup "kubesphere.io/gateway-type" (entries o.meta.labels) ≡ some "cluster")
      × (n ≡ "kubesphere-router-cluster"))
    ⊎ ((Dict.lookup "kubesphere.io/gateway-type" (entries o.meta.labels) ≢ some "cluster")
        × (n ≡ o.meta.name))

text_of-cluster : (o : Option String) → ((text_of o == "cluster") ≡ true) ↔ (o ≡ some "cluster")
text_of-cluster none = (λ h. cc, λ h. cc)
text_of-cluster (some s) =
    (λ h. ap some ((eq_iff s "cluster").0 h), λ h. (eq_iff s "cluster").1 (some-eq h))

pub new_name-NewName : {S : Type 0} (o : Object S) → NewName o (new_name o)
new_name-NewName {S} o = elim (Bool-cases (is_cluster_labelled o)) [
  | inl cluster ↦ inl ((text_of-cluster label).0 cluster, rw (cluster) refl)
  | inr other ↦ inr (λ h. let k = (text_of-cluster label).1 h in cc, rw (other) refl)
]
  where
    label : Option String
    label = Dict.lookup label_gateway_type (entries o.meta.labels)

-- The type in version 4: only the gateway with the old name of the cluster gateway is one.
abbrev pub IsTyped : String → String → Type 0
IsTyped name t =
    ((name ≡ "kubesphere-router-kubesphere-system") × (t ≡ "cluster"))
    ⊎ ((name ≢ "kubesphere-router-kubesphere-system") × (t ≡ "project"))

gateway_type-IsTyped : (name : String) → IsTyped name (gateway_type name)
gateway_type-IsTyped name = elim (Bool-cases (name == old_cluster_gateway_name)) [
  | inl cluster ↦ inl ((eq_iff name old_cluster_gateway_name).0 cluster, rw (cluster) refl)
  | inr other ↦ inr (λ h. let k = (eq_iff name old_cluster_gateway_name).1 h in cc, rw (other) refl)
]

-- What the template is given: the old specification with another name and repository.
abbrev pub Filled : {Raw : Type 0} → GatewaySpec Raw → String → String → GatewaySpec Raw → Type 0
Filled old name repository new =
    (new.controller.fullname_override ≡ name)
    × (new.controller.repository ≡ repository)
    × (new.controller.scope ≡ old.controller.scope)
    × (new.controller.others ≡ old.controller.others)
    × (new.service ≡ old.service)
    × (new.deployment ≡ old.deployment)

-- A label that no conversion writes, or the type, is left by the labels of a workspace.
labelled_with-lookup :
    (workspace key : String) (labels : Dict String)
    → (workspace_label_key == key) ≡ false
    → Dict.lookup key (labelled_with workspace labels) ≡ Dict.lookup key labels
labelled_with-lookup workspace key labels h =
    ground (arith, Dict.lookup-insert workspace_label_key key workspace labels)

labelled_by_name-lookup :
    (name key : String) (labels : Dict String)
    → (workspace_label_key == key) ≡ false
    → Dict.lookup key (labelled_by_name name labels) ≡ Dict.lookup key labels
labelled_by_name-lookup name key labels h = ground (
  arith,
  Dict.lookup-insert workspace_label_key key (trim_prefix name workspace_gateway_prefix) labels,
)

module _ {W Raw : Type 0} (template : GatewaySpec Raw → Result String)
    (namespaces : Api W (Unit {0})) where
  -- The labels of a gateway that its workspace does not touch: its type, and the old ones.
  gateway_labels-lookup :
      (o : Object (GatewaySpec Raw)) (labels : Dict String) (key : String) (u w : W)
      → (workspace_label_key == key) ≡ false
      → gateway_labels template namespaces o u ≡ (ok labels, w)
      → Dict.lookup key labels ≡ (
          if label_gateway_type == key
          then some (gateway_type o.meta.name)
          else Dict.lookup key (entries o.meta.labels))
  unfolding gateway_labels
  gateway_labels-lookup o labels key u w h k = go (gateway_type o.meta.name == "project") k
    where
      typed : Dict String
      typed = typed_labels template namespaces o

      inserted : Dict.lookup key typed ≡ (
          if label_gateway_type == key
          then some (gateway_type o.meta.name)
          else Dict.lookup key (entries o.meta.labels))
      inserted =
          Dict.lookup-insert label_gateway_type key (gateway_type o.meta.name)
            (entries o.meta.labels)

      found : Action W (Object (Unit {0}))
      found = namespaces.get "kubesphere-system" (remove_all o.meta.name kubesphere_router_prefix)

      with_workspace : Object (Unit {0}) → Dict String
      with_workspace ns =
          labelled_with (text_of (Dict.lookup workspace_label_key (entries ns.meta.labels))) typed

      same : (d : Dict String) → ok d ≡ ok labels → Dict.lookup key d ≡ Dict.lookup key labels
      same d e = ap (Dict.lookup key) (ok-injective e)

      go :
          (project : Bool)
          → ◌≡◌ {A = Result (Dict String) × W}
              ((if project then (found >>= λ ns. pure (with_workspace ns)) else pure typed) u)
              (ok labels, w)
          → Dict.lookup key labels ≡ (
              if label_gateway_type == key
              then some (gateway_type o.meta.name)
              else Dict.lookup key (entries o.meta.labels))
      go false k = sym (same typed (ap (λ (p : Result (Dict String) × W). p.0) k)) ∙ inserted
      go true k =
          let (ns, v, got, k') = bind-eq-ok found (λ ns. pure (with_workspace ns)) k in
          sym (same (with_workspace ns) (ap (λ (p : Result (Dict String) × W). p.0) k'))
          ∙ labelled_with-lookup
              (text_of (Dict.lookup workspace_label_key (entries ns.meta.labels))) key typed h
          ∙ inserted

  -- If a gateway is converted, it has the new name of the cluster gateway if its label says that it
  -- is one, and its old name if not; its values are what the template gives for its specification
  -- with that name and the repository; its label says that its type is cluster if its old name is
  -- that of the old cluster gateway, and project if not; and every label but those of its type and
  -- its workspace is as before.
  pub convert_gateway-ok :
      (repository : String) (o : Object (GatewaySpec Raw)) (o' : Object NewGatewaySpec)
      (key : String) (u w : W)
      → (workspace_label_key == key) ≡ false
      → convert_gateway template namespaces repository o u ≡ (ok o', w)
      → NewName o o'.meta.name
        × ((spec : GatewaySpec Raw) × Filled o.spec o'.meta.name repository spec
            × (template spec ≡ ok o'.spec.values))
        × ((t : String) × IsTyped o.meta.name t
            × (Dict.lookup "kubesphere.io/gateway-type" (entries o'.meta.labels) ≡ some t))
        × (("kubesphere.io/gateway-type" == key) ≡ false
            → Dict.lookup key (entries o'.meta.labels) ≡ Dict.lookup key (entries o.meta.labels))
  unfolding convert_gateway
  convert_gateway-ok repository o o' key u w h k =
      let (values, templated, k1) = lift-bind-ok (template (with_controller repository o)) _ k in
      let (labels, v, labelled, k2) = bind-eq-ok (gateway_labels template namespaces o) _ k1 in
      let same : new_gateway o labels values ≡ o' =
        ok-injective (ap (λ (p : Result (Object NewGatewaySpec) × W). p.0) k2) in
      let named = ap (λ x. x.meta.name) same in
      let looked : (k : String)
          → (workspace_label_key == k) ≡ false
          → Dict.lookup k (entries o'.meta.labels) ≡ (
              if label_gateway_type == k
              then some (gateway_type o.meta.name)
              else Dict.lookup k (entries o.meta.labels)) =
        λ k e.
          sym (ap (λ x. Dict.lookup k (entries x.meta.labels)) same)
          ∙ labelled_by_name-lookup o.meta.name k labels e
          ∙ gateway_labels-lookup o labels k u v e labelled in
      (
        subst (NewName o) named (new_name-NewName o),
        (
          with_controller repository o,
          (named, refl, refl, refl, refl, refl),
          subst (λ x. template (with_controller repository o) ≡ ok x.spec.values) same templated,
        ),
        (
          gateway_type o.meta.name,
          gateway_type-IsTyped o.meta.name,
          looked label_gateway_type refl,
        ),
        λ other. let k = looked key h in rw (other) at k,
      )
