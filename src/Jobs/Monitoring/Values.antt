-- ===== src/Jobs/Monitoring/Values.antt =====
-- pkg/jobs/monitoring/monitoring.go: values of the configuration of the cluster that are set in those
-- of an extension. A nil value is `none`.
pub mod Laws
use ks_upgrade.Base.{
  String, ◌<>◌, Bool, true, false, if◌then◌else◌, not, Option, none, some, List, [], ◌∷◌, Result,
  ok, err, panic, and_then,
}
use ks_upgrade.Config.Merge.{Value, Fields, Items, flag, str, array, object, field, end, nil, cons}
use ks_upgrade.Jobs.Objects.{is_set}

abbrev pub ValueConverter : Type 0
ValueConverter = Option Value → Result (Option Value)

abbrev pub value_converter_with_default : Value → ValueConverter
value_converter_with_default default none = ok (some default)
value_converter_with_default default (some v) = ok (some v)

pub record TransPath : Type 0 where
  pub to_path : String
  pub from_path : String
  pub value_converter : Option ValueConverter

-- What is done with JSON: a value at a path, as gjson reads it and sjson sets it, the two ways
-- between YAML and JSON, and the equality of two values by `reflect.DeepEqual`. A value that is there
-- may be a nil one.
pub record JsonPaths (Json : Type 0) : Type 0 where
  pub get_path : Json → String → Option (Option Value)
  pub set_path : Json → String → Option Value → Result Json
  pub from_yaml : String → Result Json
  pub to_yaml : Json → Result String
  pub deep_equal : Option Value → Option Value → Bool

abbrev pub converted : Option ValueConverter → ValueConverter
converted none v = ok v
converted (some f) v = f v

-- `nested` is `NestedFieldCopy` at a path that dots separate.
module _ {Json : Type 0} (paths : JsonPaths Json) (nested : String → Result (Option Value)) where
  abbrev pub value_of : TransPath → Result (Option Value)
  value_of tp = and_then (nested tp.from_path) (converted tp.value_converter)

  abbrev pub fill : TransPath → Json → Option Value → Result Json
  fill tp values none = ok values
  fill tp values (some v) =
      if is_set (paths.get_path values tp.to_path)
      then ok values
      else paths.set_path values tp.to_path (some v)

  -- The loop of `SetExtensionValues`.
  unfoldable pub fill_all : List TransPath → Json → Result Json
  fill_all [] values = ok values
  fill_all (tp ∷ trans) values =
      and_then (value_of tp) λ v. and_then (fill tp values v) λ values'. fill_all trans values'

  unfoldable pub set_extension_values : String → List TransPath → Result String
  unfolding fill_all
  set_extension_values text trans =
      and_then (paths.from_yaml text) λ values. and_then (fill_all trans values) paths.to_yaml

  -- The value of the extension at a path, if there is one.
  abbrev pub referred : Option (Option Value) → Option Value
  referred none = none
  referred (some v) = v

  -- Only a value that differs from that of the extension is set.
  abbrev pub override_value : Json → TransPath → Json → Option Value → Result Json
  override_value extension tp values v =
      if is_set (paths.get_path values tp.to_path)
      then ok values
      else (if not (paths.deep_equal v (referred (paths.get_path extension tp.to_path)))
          then paths.set_path values tp.to_path v
          else ok values)

  unfoldable pub override_all : Json → List TransPath → Json → Result Json
  override_all extension [] values = ok values
  override_all extension (tp ∷ trans) values = and_then (value_of tp) λ v.
      and_then (override_value extension tp values v)
        λ values'. override_all extension trans values'

  unfoldable pub set_override_values : String → List TransPath → String → Result String
  unfolding override_all
  set_override_values text trans refer = and_then (paths.from_yaml text) λ values.
      and_then (paths.from_yaml refer)
        λ extension. and_then (override_all extension trans values) paths.to_yaml

abbrev defaulted : String → String → Value → TransPath
defaulted to from default = record {
  to_path = to;
  from_path = from;
  value_converter = some (value_converter_with_default default);
}

abbrev storage_of : String → String
storage_of template =
    "whizard.service." <> template
    <> ".dataVolume.persistentVolumeClaim.spec.resources.requests.storage"

abbrev pub whizard_trans_paths : List TransPath
whizard_trans_paths =
    defaulted "whizardMonitoringHelper.enabled" "spec.monitoring.whizard.enabled" (flag false)
    ∷ defaulted "whizard-monitoring-helper.whizardHelper.enabled" "spec.monitoring.whizard.enabled"
        (flag false)
    ∷ defaulted "whizard.enabled" "spec.monitoring.whizard.enabled" (flag false)
    ∷ defaulted (storage_of "compactorTemplateSpec") "spec.monitoring.whizard.server.volumeSize"
        (str "20Gi")
    ∷ defaulted (storage_of "ingesterTemplateSpec") "spec.monitoring.whizard.server.volumeSize"
        (str "20Gi")
    ∷ defaulted (storage_of "storeTemplateSpec") "spec.monitoring.whizard.server.volumeSize"
        (str "20Gi")
    ∷ defaulted "whizardAgentProxy.enabled" "spec.monitoring.whizard.enabled" (flag false)
    ∷ defaulted "kube-prometheus-stack.prometheus.agentMode" "spec.monitoring.whizard.enabled"
        (flag false)
    ∷ []

abbrev resources_of : String → String → Value
resources_of cpu memory = object (field "cpu" (str cpu) (field "memory" (str memory) end))

abbrev pub stack_trans_paths : List TransPath
stack_trans_paths =
    defaulted "kube-prometheus-stack.prometheus.prometheusSpec.resources"
      "spec.monitoring.prometheus.resources"
      (object (
        field "requests" (resources_of "200m" "400Mi")
          (field "limits" (resources_of "4" "16Gi") end)))
    ∷ defaulted
        ("kube-prometheus-stack.prometheus.prometheusSpec.storageSpec.volumeClaimTemplate"
          <> ".spec.resources.requests.storage")
        "spec.monitoring.prometheus.volumeSize" (str "20Gi")
    ∷ defaulted "kube-prometheus-stack.prometheus-node-exporter.ProcessExporter.enabled"
        "spec.monitoring.process_exporter.enabled" (flag false)
    ∷ defaulted "kube-prometheus-stack.prometheus-node-exporter.CalicoExporter.enabled"
        "spec.monitoring.calico_exporter.enabled" (flag false)
    ∷ []

-- `endpoints` is a text that is trimmed and split at its commas.
abbrev pub endpoints_converter : (String → Items) → ValueConverter
endpoints_converter endpoints (some (str s)) = ok (some (array (endpoints s)))
endpoints_converter endpoints _ = ok (some (array nil))

abbrev pub secrets_converter : ValueConverter
secrets_converter (some (flag true)) = ok (some (array (cons (str "kube-etcd-client-certs") nil)))
secrets_converter _ = ok (some (array nil))

abbrev pub etcd_trans_paths : (String → Items) → List TransPath
etcd_trans_paths endpoints =
    defaulted "whizard-monitoring-helper.etcdMonitoringHelper.enabled" "spec.etcd.monitoring"
      (flag false)
    ∷ defaulted "kube-prometheus-stack.kubeEtcd.enabled" "spec.etcd.monitoring" (flag false)
    ∷ record {
      to_path = "kube-prometheus-stack.kubeEtcd.endpoints";
      from_path = "spec.etcd.endpointIps";
      value_converter = some (endpoints_converter endpoints);
    }
    ∷ record {
      to_path = "kube-prometheus-stack.prometheus.prometheusSpec.secrets";
      from_path = "spec.etcd.tlsEnable";
      value_converter = some secrets_converter;
    }
    ∷ []
