-- ===== src/Examples/Routing.antt =====
-- The gateway job: one gateway, its ingresses and a run behind one that is done.
use ks_upgrade.Base.{
  String, ◌<>◌, ◌≡◌, refl, true, false, none, some, List, [], ◌∷◌, message, release_not_found,
  Result, ok, err, ◌==◌,
}
use ks_upgrade.Base.Action.{Action}
use ks_upgrade.Base.Dict
use ks_upgrade.Base.Dict.{Dict}
use ks_upgrade.Storage.{Bytes}
use ks_upgrade.Store.{load_raw, save_raw}
use ks_upgrade.Jobs.Objects.{Object, Api, entries}
use ks_upgrade.Jobs.Done.{clear_done, load_done, unless_done, save_done}
use ks_upgrade.Jobs.Gateway.Objects.{GatewayOptions, GatewaySpec, NewGatewaySpec}
use ks_upgrade.Jobs.Gateway.Convert.{convert_gateway, gateway_labels, find_named}
use ks_upgrade.Jobs.Gateway.Convert.Laws.{NewName, Filled, IsTyped, convert_gateway-ok}
use ks_upgrade.Jobs.Gateway.Ingress.{upgrade_ingress, IngressSpec}
use ks_upgrade.Jobs.Gateway.Ingress.Laws.{upgrade_ingress_err}
use ks_upgrade.Jobs.Gateway.Clean.{Release, release_ready}
use ks_upgrade.Jobs.Gateway.Phases.{
  Steps, gateway_pre_upgrade, gateway_post_upgrade, upgrade_found_gateway, gateway_dynamic_upgrade,
}
use ks_upgrade.Jobs.Gateway.Phases.Laws.{
  gateway_phases_again, Target, Upgraded, gateway_dynamic_upgrade-ok,
}
use ks_upgrade.Examples.Memory.{memory, memory-Keeps, memory-Rereads}
use ks_upgrade.Examples.Upgrading.{Log, note, api_of, meta, named, poll_once, poll_once-ok}

abbrev nothing : Action (Dict Bytes) (Unit {0})
nothing w = (ok tt, w)

abbrev broken : Action (Dict Bytes) (Unit {0})
broken w = (err (message "boom"), w)

abbrev gateway_steps : Action (Dict Bytes) (Unit {0}) → Steps (Dict Bytes)
gateway_steps m = record {
  backup_config = m;
  backup_ingress = m;
  backup_gateways = m;
  backup_nginxes = m;
  backup_crds = m;
  clean_prometheus_rule = m;
  create_install_plan = m;
  clean_gateways = m;
  apply_crd = m;
  wait_for_crd = m;
  sync_helm_chart = m;
}

abbrev once : GatewayOptions
once = record { gateway_name = "kubesphere-router-demo"; rerun = false }

abbrev finished : Dict Bytes
finished = ("gateway-done", 17 ∷ []) ∷ []

gateway_phases_again_example :
    (gateway_pre_upgrade memory (λ w. 17 ∷ []) once (gateway_steps broken) finished
      ≡ (ok tt, finished))
    × (gateway_post_upgrade memory (λ w. 17 ∷ []) once (gateway_steps broken) finished
        ≡ (ok tt, finished))
unfolding gateway_post_upgrade unless_done clear_done load_done save_done load_raw save_raw
    Dict.lookup Dict.insert
gateway_phases_again_example =
    gateway_phases_again memory memory-Keeps memory-Rereads (λ w. 17 ∷ []) (λ w. refl) once once
      (gateway_steps nothing) (gateway_steps broken) [] finished refl refl

abbrev demo : Object (GatewaySpec String)
demo = record {
  meta = meta "kubesphere-router-demo" (some (("app", "nginx") ∷ []));
  spec = record {
    controller = record {
      fullname_override = "";
      repository = "";
      scope = record { enabled = true; namespace = "demo"; namespace_selector = "" };
      others = "";
    };
    service = record { annotations = none; type = "ClusterIP" };
    deployment = "";
  };
}

abbrev template : GatewaySpec String → Result String
template spec = ok (spec.controller.fullname_override <> "@" <> spec.controller.repository)

abbrev namespaces : Api Log (Unit {0})
namespaces = api_of [] (ok (named "demo" tt))

abbrev converted : Object NewGatewaySpec
converted = record {
  meta =
      meta "kubesphere-router-demo"
        (some (("app", "nginx") ∷ ("kubesphere.io/gateway-type", "project") ∷ []));
  spec = record {
    app_version = "kubesphere-nginx-ingress-4.12.1";
    values = "kubesphere-router-demo@repo";
  };
}

convert_gateway-ok_example :
    NewName demo converted.meta.name
    × ((spec : GatewaySpec String) × Filled demo.spec converted.meta.name "repo" spec
        × (template spec ≡ ok converted.spec.values))
    × ((t : String) × IsTyped demo.meta.name t
        × (Dict.lookup "kubesphere.io/gateway-type" (entries converted.meta.labels) ≡ some t))
    × (("kubesphere.io/gateway-type" == "app") ≡ false
        → Dict.lookup "app" (entries converted.meta.labels)
          ≡ Dict.lookup "app" (entries demo.meta.labels))
unfolding convert_gateway gateway_labels Dict.lookup Dict.insert
convert_gateway-ok_example =
    convert_gateway-ok template namespaces "repo" demo converted "app" [] [] refl refl

abbrev unloaded : Action Log (List (Object (GatewaySpec String)))
unloaded w = (err (message "no backup"), w)

abbrev no_ingresses : Action Log (List (Object (IngressSpec String)))
no_ingresses w = (ok [], w)

upgrade_ingress_err_example : unloaded [] ≡ (err (message "no backup"), [])
unfolding upgrade_ingress
upgrade_ingress_err_example =
    upgrade_ingress_err (λ o. note o.meta.name) (λ space. no_ingresses) no_ingresses
      (λ selector w. (ok [], w)) unloaded "kubesphere-router-demo" [] [] (message "no backup") refl

abbrev loaded : Action Log (List (Object (GatewaySpec String)))
loaded w = (ok (demo ∷ []), w)

abbrev gateways : Api Log (GatewaySpec String)
gateways = api_of (demo ∷ []) (ok demo)

abbrev no_release : String → String → Action Log (Unit {0})
no_release space name w = (err release_not_found, w)

-- The old version, with the status of a deployed release.
abbrev old_release : String → String → Action Log Release
old_release space name w = (ok (record { app_version = "1.4.0"; status = "deployed" }), w)

abbrev renewed : Log
renewed = "ingress kubesphere-router-demo" ∷ "gateway kubesphere-router-demo" ∷ []

gateway_dynamic_upgrade-ok_example :
    ((once.gateway_name == "") ≡ false)
    × ((items : List (Object (GatewaySpec String))) × (v : Log) × (loaded [] ≡ (ok items, v))
        × ((space release : String) × Target once.gateway_name items space release
            × Upgraded loaded no_release old_release poll_once
                (λ n. note ("gateway " <> n))
                (λ n. note ("ingress " <> n))
                poll_once-ok
                once.gateway_name
                (space, release)
                v
                renewed))
unfolding gateway_dynamic_upgrade upgrade_found_gateway release_ready find_named
gateway_dynamic_upgrade-ok_example =
    gateway_dynamic_upgrade-ok loaded no_release old_release poll_once (λ n. note ("gateway " <> n))
      (λ n. note ("ingress " <> n)) poll_once-ok once [] renewed refl
