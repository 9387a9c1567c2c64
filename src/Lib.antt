-- ===== src/Lib.antt =====
-- ks-upgrade: the program that upgrades KubeSphere from version 3 to version 4.
--
-- A subcommand (cmd/ks-upgrade.go, Command) loads the configuration (pkg/executor/config.go,
-- Config), builds an executor (pkg/executor/executor.go, Executor.Registry and Executor.Order) and
-- runs one phase of it (Executor): the validators (pkg/executor/validator.go, Executor.Validation,
-- Executor.KsVersion and Executor.Museum) decide whether the phase runs, and then every job does its
-- part, in the order of its priority. The jobs keep what they need between two runs in a resource
-- store (pkg/store/store.go, Store) over a storage (pkg/storage, Storage: a local directory in
-- Storage.Local, an object store in Storage.ObjectStore). Store also has the cached client
-- configuration of pkg/model/factory.go. What jobs do with extensions of version 4 is in
-- pkg/model/core/core.go (Core: install plans, the check for a host cluster and the sync of charts;
-- Core.Scheduling: the clusters of an extension). The jobs that are modelled are iam, core, gateway,
-- monitoring, events, logging and servicemesh. What they share is in Jobs.Objects (objects of the API
-- and the clients of them), Jobs.Done (the record of a job that is done) and Jobs.Plans (what goes
-- before an install plan).
--
-- Jobs.Iam (pkg/jobs/iam):
--   Objects, Convert, Filters   the objects, their conversions and what is stored of them (types.go)
--   Snapshot                    the lists of objects with their times (iam.go)
--   Status, Phases              the record of a phase that is done, and the phases (upgrade.go, iam.go)
--   Cluster                     single objects and definitions of resources (upgrade.go)
--   Migration                   StoreObject and DataMigration (iam.go)
--   ObjectHelper                the versions that a resource has (helper/object.go)
--   Cleanup, KubeFed            what is removed (iam.go, kubefed.go)
--   Wiring                      the job, with the steps of its phases (iam.go)
--   Roles, Helm, Providers      custom roles, the release of ks-core, identity providers (iam.go)
--
-- Jobs.Core (pkg/jobs/core/core.go):
--   Objects      the objects, and the names of those that are kept or removed
--   Backup       what is kept before the upgrade, removed, and restored by a rollback
--   Prepare      the deployments that are scaled down, and the volumes that are retained
--   Namespaces   the owners of namespaces (the loop over references)
--   Workspaces   the system workspace, and the validation of the role of the cluster
--   Clusters     the conditions and labels of member clusters
--   Phases, Wiring   the four phases, and the job with its steps
--
-- Jobs.Gateway (pkg/jobs/gateway/gateway.go):
--   Objects, Convert   the gateways of version 3 and what they become
--   Backup, Clean      what is kept, and what is removed
--   Ingress            the classes of the ingresses of a gateway
--   Phases, Wiring     the phases and the upgrade of one gateway, and the job with its steps
--
-- Jobs.Monitoring (pkg/jobs/monitoring/monitoring.go):
--   Objects    the resources of the monitoring stack of version 3
--   Stack      the releases and objects that are kept and then removed
--   Values     SetExtensionValues and SetOverrideValues, with the paths that are set
--   Clusters   the values and the overrides of the extension, cluster by cluster
--   Phases     the phases and the job
--
-- Jobs.Events (pkg/jobs/events/events.go), Jobs.Logging (pkg/jobs/logging/logging.go) and
-- Jobs.Servicemesh (pkg/jobs/servicemesh/servicemesh.go) have one file each.
--
-- Conventions. Code that changes anything is an action on a world of any type, W → Result A × W: a
-- result is a value, an error or a panic, and what was changed before an error stays changed
-- (Base.Failure, Base.Action; the loops over actions are in Base.Loops). Libraries that are not part of
-- the repository, such as the API client, helm, the AWS SDK, the codecs and the clock, are parameters:
-- records of actions, with what is relied on as named hypotheses (Storage.Keeps,
-- Storage.Local.Laws.FileLaws, Store.Laws.KubeConfigLaws, Jobs.Iam.Snapshot.Laws.Reads,
-- Storage.Rereads, Jobs.Monitoring.Values.Laws.PathLaws). Names, keys and labels are texts, a Go
-- map is an association list (Base.Dict), a nil map is none, int and int64 are integers (Base.Int)
-- that are compared and subtracted only, but for the size of an upload, which is divided.
--
-- Loops go over lists, and one has fuel: that over the references of a namespace, which raises an
-- index and also removes elements, has the number of references as its fuel
-- (Jobs.Core.Namespaces), since each round raises the index. The wait for a repository goes over
-- the events that arrive, and where none is left the code still waits; the wait for pods goes over
-- the rounds that its timeout of 30 seconds allows, and returns behind the last. A poll of a
-- condition (wait.PollImmediate) is a parameter, and what is relied on is that a poll without an
-- error ends with a condition that holds. A call of klog.Fatalf is a panic.
--
-- Not modelled: logging, flags and the construction of clients, which are I/O; the calls of the
-- AWS SDK behind the S3 client, the helm client and the downloads; the application of the
-- definitions of a chart; templates (text/template), JSON paths (gjson, sjson) and YAML, which are
-- parameters; and the other jobs (devops, notification, network, kubeedge and the smaller ones).
-- The modules below Examples run the definitions on small inputs and apply theorems to concrete
-- ones.
pub mod Base
pub mod Config
pub mod Storage
pub mod Store
pub mod Executor
pub mod Core
pub mod Jobs
pub mod Command
mod Examples
