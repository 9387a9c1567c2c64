-- ===== src/Jobs/Core/Prepare/Laws.antt =====
-- What is scaled down when the preparation goes on, and the configuration that is kept.
use ks_upgrade.Jobs.Objects.{Object, Api}
use ks_upgrade.Base.{
  String, ◌≡◌, refl, ap, ◌∙◌, inl, inr, Bool, true, ◌||◌, ◌==◌, contains, All, select, Option, none,
  some, List, [], ◌∷◌, Error, Result, ok, err, is_backup_key_not_found, ok-injective, arith,
}
use ks_upgrade.Base.Action.{Action, lift, bind-eq-ok, attempt-eq-ok, lift-bind-ok}
use ks_upgrade.Base.Dict
use ks_upgrade.Base.Dict.{Dict}
use ks_upgrade.Base.Loops.{each, Ran, each-ok, Ran-select}
use ks_upgrade.Config.Merge.{Fields}
use ks_upgrade.Storage.{Bytes, Storage, Keeps}
use ks_upgrade.Store.{load_raw, save_raw}
use ks_upgrade.Jobs.Core.Objects.{Deployment}
use ks_upgrade.Jobs.Core.Prepare.{
  config_store_key, save_config, backup_kube_sphere_config, need_scale_down, all_scaled_down,
  scale_down_one, scaled_down_now, scale_down_deployments,
}

-- The deployments of the API server, the controller manager, the console and the installer.
abbrev pub is_needed : Object Deployment → Bool
is_needed o =
    ("ks-apiserver" == o.meta.name)
    || (("ks-controller-manager" == o.meta.name)
        || (("ks-console" == o.meta.name) || ("ks-installer" == o.meta.name)))

contains-is_needed : (o : Object Deployment) → contains need_scale_down o.meta.name ≡ is_needed o
unfolding contains
contains-is_needed o = ground arith

-- A deployment is written with no replicas, and with nothing else changed.
abbrev pub write_scaled_down :
    {W : Type 0} → Api W Deployment → Object Deployment → Action W (Unit {0})
write_scaled_down deployments o = deployments.create_or_update o (λ x. record {
  meta = x.meta;
  spec = record { replicas = some 0; available_replicas = x.spec.available_replicas };
})

-- A deployment that is scaled down, if it is one of those that have to be.
abbrev pub IsDown : Object Deployment → Type 0
IsDown o = is_needed o ≡ true → o.spec.available_replicas ≡ 0

all_scaled_down-IsDown :
    (items : List (Object Deployment)) → all_scaled_down items ≡ true → All IsDown items
unfolding all_scaled_down
all_scaled_down-IsDown [] h = tt
all_scaled_down-IsDown (o ∷ items) h =
    (λ needed. ground (arith, contains-is_needed o), all_scaled_down-IsDown items (ground arith))

module _ {W : Type 0} (deployments : Api W Deployment) where
  scaled_down_now-true :
      (v w : W)
      → scaled_down_now deployments v ≡ (ok true, w)
      → (items : List (Object Deployment)) × (deployments.list v ≡ (ok items, w)) × All IsDown items
  unfolding scaled_down_now
  scaled_down_now-true v w h = elim (attempt-eq-ok deployments.list _ _ h) [
    | inr (e, v', failed, k) ↦ cc
    | inl (items, v', listed, k) ↦ (
      items,
      listed ∙ ap (λ (p : Result Bool × W). (ok items, p.1)) k,
      all_scaled_down-IsDown items (ok-injective (ap (λ (p : Result Bool × W). p.0) k)),
    )
  ]

  -- If a poll returns without an error only when its condition held last, then where the
  -- deployments were scaled down without an error, those that have to be were each set to no
  -- replicas, in the order of the list, and a list that was read last shows none of them with a
  -- replica that is available.
  pub scale_down_deployments-ok :
      (poll_immediate : Action W Bool → Action W (Unit {0})) (u w : W)
      → ((condition : Action W Bool) (u w : W)
          → poll_immediate condition u ≡ (ok tt, w)
          → (v : W) × (condition v ≡ (ok true, w)))
      → scale_down_deployments deployments poll_immediate u ≡ (ok tt, w)
      → (items last : List (Object Deployment)) × (v v' v2 : W) × (deployments.list u
          ≡ (ok items, v))
        × Ran (write_scaled_down deployments) (select is_needed items) v v'
        × (deployments.list v2 ≡ (ok last, w))
        × All IsDown last
  unfolding scale_down_deployments scale_down_one
  scale_down_deployments-ok poll_immediate u w polls h =
      let (items, v, listed, h1) = bind-eq-ok deployments.list _ h in
      let (x, v', scaled, h2) = bind-eq-ok (each (scale_down_one deployments) items) _ h1 in
      let (v2, condition) = polls (scaled_down_now deployments) v' w h2 in
      let (last, read, down) = scaled_down_now-true v2 w condition in
      (
        items,
        last,
        v,
        v',
        v2,
        listed,
        Ran-select is_needed (scale_down_one deployments) (write_scaled_down deployments)
            (λ o y z e k.
              ap (λ (q : Result (Unit {0}) × W). q.1) (rw (contains-is_needed o, e) at k))
            (λ o y z e k. rw (contains-is_needed o, e) at k)
            (each-ok (scale_down_one deployments) items v v' scaled),
        read,
        down,
      )

module _ {W : Type 0} (s : Storage W) (keeps : Keeps s) (get_config_map : Action W (Dict String))
    (unmarshal : String → Result Fields) (marshal : Fields → Result Bytes) where
  -- What was found under the key, or was saved under it: the document of the configuration map,
  -- parsed and printed again.
  abbrev pub Saved : W → W → Type 0
  Saved v w =
      (config : Dict String) × (text : String) × (fields : Fields) × (raw : Bytes) × (v' : W)
      × (get_config_map v ≡ (ok config, v'))
      × (Dict.lookup "kubesphere.yaml" config ≡ some text)
      × (unmarshal text ≡ ok fields)
      × (marshal fields ≡ ok raw)
      × (load_raw s config_store_key w ≡ (ok raw, w))

  -- If the storage keeps what was put and no configuration was found in it, then behind a backup
  -- of the configuration that succeeded, a load of its key gives what Marshal prints of the
  -- document of the configuration map.
  pub backup_kube_sphere_config-load_raw :
      (u v w : W) (e : Error)
      → load_raw s config_store_key u ≡ (err e, v)
      → is_backup_key_not_found e ≡ true
      → backup_kube_sphere_config s get_config_map unmarshal marshal u ≡ (ok tt, w)
      → Saved v w
  unfolding backup_kube_sphere_config save_config save_raw load_raw
  backup_kube_sphere_config-load_raw u v w e missing not_found h =
      let k = rw (missing, not_found) at h in
      let (config, v', got, k1) = bind-eq-ok get_config_map _ k in
      go config v' got (Dict.lookup "kubesphere.yaml" config) refl k1
    where
      go :
          (config : Dict String) (v' : W)
          → get_config_map v ≡ (ok config, v')
          → (o : Option String) → Dict.lookup "kubesphere.yaml" config ≡ o
          → save_config s get_config_map unmarshal marshal o v' ≡ (ok tt, w)
          → Saved v w
      go config v' got none found k = cc
      go config v' got (some text) found k = elim (attempt-eq-ok (lift (unmarshal text)) _ _ k) [
        | inr (f, x, failed, k1) ↦ cc
        | inl (fields, x, parsed, k1) ↦
            let (raw, printed, put) = lift-bind-ok (marshal fields) _ k1 in
            (
              config,
              text,
              fields,
              raw,
              v',
              got,
              found,
              ap (λ (p : Result Fields × W). p.0) parsed,
              printed,
              keeps config_store_key raw x w put,
            )
      ]
