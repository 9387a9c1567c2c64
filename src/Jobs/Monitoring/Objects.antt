-- ===== src/Jobs/Monitoring/Objects.antt =====
-- pkg/jobs/monitoring/monitoring.go: the resources of the monitoring stack of version 3, by their
-- names.
use ks_upgrade.Base.{String, List, [], ◌∷◌, map}

pub record Resource : Type 0 where
  pub group : String
  pub version : String
  pub resource : String
  -- namespaces and names
  pub objects : List (String × String)

abbrev resource_of : String → String → String → List (String × String) → Resource
resource_of group version resource objects = record {
  group = group;
  version = version;
  resource = resource;
  objects = objects;
}

-- Names in the namespace of the monitoring stack, and names of objects without a namespace.
abbrev monitored : List String → List (String × String)
monitored names = map (λ n. ("kubesphere-monitoring-system", n)) names

abbrev unspaced : List String → List (String × String)
unspaced names = map (λ n. ("", n)) names

abbrev pub prometheusesv1 : Resource
prometheusesv1 = resource_of "monitoring.coreos.com" "v1" "prometheuses" (monitored ("k8s" ∷ []))

abbrev pub alertmanagersv1 : Resource
alertmanagersv1 = resource_of "monitoring.coreos.com" "v1" "alertmanagers" (monitored ("main" ∷ []))

abbrev pub thanosrulersv1 : Resource
thanosrulersv1 =
    resource_of "monitoring.coreos.com" "v1" "thanosrulers" (monitored ("kubesphere" ∷ []))

abbrev pub servicemonitorsv1 : Resource
servicemonitorsv1 = resource_of "monitoring.coreos.com" "v1" "servicemonitors" (
    monitored (
      "alertmanager-main" ∷ "coredns" ∷ "etcd" ∷ "ks-apiserver" ∷ "ks-controller-manager"
      ∷ "kube-apiserver" ∷ "kube-controller-manager" ∷ "kube-scheduler" ∷ "kube-state-metrics"
      ∷ "kubelet" ∷ "node-exporter" ∷ "prometheus-k8s" ∷ "prometheus-operator"
      ∷ "thanos-ruler-service" ∷ []))

abbrev pub prometheusrulesv1 : Resource
prometheusrulesv1 = resource_of "monitoring.coreos.com" "v1" "prometheusrules" (
    monitored (
      "alertmanager-main-rules" ∷ "kube-prometheus-rules" ∷ "kube-state-metrics-rules"
      ∷ "node-exporter-rules" ∷ "prometheus-k8s-etcd-rules" ∷ "prometheus-k8s-prometheus-rules"
      ∷ "prometheus-k8s-rules" ∷ "prometheus-operator-rules" ∷ "thanos-ruler-kubesphere-rules"
      ∷ []))

abbrev pub configmaps : Resource
configmaps = resource_of "" "v1" "configmaps" (
    monitored (
      "grafana-dashboard-alertmanager-overview" ∷ "grafana-dashboard-apiserver"
      ∷ "grafana-dashboard-cluster-total" ∷ "grafana-dashboard-controller-manager"
      ∷ "grafana-dashboard-k8s-resources-cluster" ∷ "grafana-dashboard-k8s-resources-namespace"
      ∷ "grafana-dashboard-k8s-resources-node" ∷ "grafana-dashboard-k8s-resources-pod"
      ∷ "grafana-dashboard-k8s-resources-workload"
      ∷ "grafana-dashboard-k8s-resources-workloads-namespace" ∷ "grafana-dashboard-kubelet"
      ∷ "grafana-dashboard-namespace-by-pod" ∷ "grafana-dashboard-namespace-by-workload"
      ∷ "grafana-dashboard-node-cluster-rsrc-use" ∷ "grafana-dashboard-node-rsrc-use"
      ∷ "grafana-dashboard-nodes" ∷ "grafana-dashboard-persistentvolumesusage"
      ∷ "grafana-dashboard-pod-total" ∷ "grafana-dashboard-prometheus-remote-write"
      ∷ "grafana-dashboard-prometheus" ∷ "grafana-dashboard-proxy" ∷ "grafana-dashboard-scheduler"
      ∷ "grafana-dashboard-workload-total" ∷ []))

abbrev pub secrets : Resource
secrets = resource_of "" "v1" "secrets" (
    monitored (
      "alertmanager-main" ∷ "grafana-config" ∷ "grafana-datasources" ∷ "prometheus-k8s-tls"
      ∷ "prometheus-operator" ∷ "thanos-ruler-kubesphere" ∷ []))

abbrev pub clusterroles : Resource
clusterroles = resource_of "rbac.authorization.k8s.io" "v1" "clusterroles" (
    unspaced (
      "kubesphere-kube-state-metrics" ∷ "kubesphere-prometheus-operator"
      ∷ "kubesphere-node-exporter" ∷ "kubesphere-prometheus-k8s" ∷ []))

abbrev pub clusterrolebindings : Resource
clusterrolebindings = resource_of "rbac.authorization.k8s.io" "v1" "clusterrolebindings" (
    unspaced (
      "kubesphere-kube-state-metrics" ∷ "kubesphere-prometheus-operator"
      ∷ "kubesphere-node-exporter" ∷ "kubesphere-prometheus-k8s" ∷ []))

abbrev pub serviceaccounts : Resource
serviceaccounts = resource_of "" "v1" "serviceaccounts" (
    monitored (
      "alertmanager-main" ∷ "kube-state-metrics" ∷ "node-exporter" ∷ "prometheus-k8s"
      ∷ "prometheus-operator" ∷ []))

abbrev pub services : Resource
services = resource_of "" "v1" "services" (
    ("kubesphere-monitoring-system", "alertmanager-main")
    ∷ ("kubesphere-monitoring-system", "grafana")
    ∷ ("kubesphere-monitoring-system", "kube-state-metrics")
    ∷ ("kubesphere-monitoring-system", "node-exporter")
    ∷ ("kubesphere-monitoring-system", "prometheus-k8s")
    ∷ ("kubesphere-monitoring-system", "prometheus-operator")
    ∷ ("kubesphere-monitoring-system", "whizard-agent-proxy")
    ∷ ("kube-system", "kube-controller-manager-svc")
    ∷ ("kube-system", "kube-scheduler-svc")
    ∷ [])

abbrev pub daemonsets : Resource
daemonsets = resource_of "" "v1" "daemonsets" (monitored ("node-exporter" ∷ []))

abbrev pub statefulsets : Resource
statefulsets = resource_of "" "v1" "statefulsets" []

abbrev pub deployments : Resource
deployments = resource_of "" "v1" "deployments" (
    monitored
      ("kube-state-metrics" ∷ "prometheus-operator" ∷ "grafana" ∷ "whizard-agent-proxy" ∷ []))

abbrev pub poddisruptionbudgetsv1 : Resource
poddisruptionbudgetsv1 =
    resource_of "policy" "v1" "poddisruptionbudgets"
      (monitored ("alertmanager-main" ∷ "prometheus-k8s" ∷ "thanos-ruler-kubesphere" ∷ []))

abbrev pub poddisruptionbudgetsv1beta1 : Resource
poddisruptionbudgetsv1beta1 =
    resource_of "policy" "v1beta1" "poddisruptionbudgets"
      (monitored ("alertmanager-main" ∷ "prometheus-k8s" ∷ "thanos-ruler-kubesphere" ∷ []))

-- The order of the backup, and of the deletion.
abbrev pub stack_resources : List Resource
stack_resources =
    thanosrulersv1 ∷ alertmanagersv1 ∷ prometheusesv1 ∷ daemonsets ∷ statefulsets ∷ deployments
    ∷ services ∷ configmaps ∷ secrets ∷ prometheusrulesv1 ∷ servicemonitorsv1 ∷ clusterrolebindings
    ∷ clusterroles ∷ serviceaccounts ∷ poddisruptionbudgetsv1 ∷ poddisruptionbudgetsv1beta1 ∷ []
