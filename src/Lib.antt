-- ===== src/Lib.antt =====
-- A model of the hyper infrastructure provider for the cluster API: four controllers that keep
-- clusters and machines in step with pools of SSH machines and IPs, and what they call.
--
-- The parts and where they are:
-- - Base: Go's control flow (`Outcome`: a call returns, panics or ends the process; deferred calls
--   run on a panic and not on `log.Fatal`), byte strings (Base.Strings), `strings.Split` and
--   `strings.ReplaceAll` (Base.Split), `strconv.Atoi` and `Itoa` on a 64-bit int (Base.Decimal).
-- - Api: the objects of apis/infrastructure/v1alpha3 and apis/exp.infrastructure/v1alpha3
--   (Api.Objects), the label map that carries the pools' state and utils/const.go (Api.LabelMap), and
--   the API server as the controllers see it (Api.Interface).
-- - Scope: utils/scope/machine.go and utils/scope/cluster.go. The object that a scope wraps is part of
--   the state (`Scoped`), since the handler changes it and the deferred close writes it.
-- - Utils: utils/sshClient.go (Utils.Ssh, and Utils.Ssh.Script for `remoteScript`),
--   utils/cloudConfig.go (Utils.CloudInit) and utils/provisioning.go (Utils.Provisioning, and
--   Utils.Priority for `hipNum2Pri`). The two provisioning functions are one definition, with what
--   they differ in as a record; its run as one list of steps is in Utils.Provisioning.Plan.
-- - MachineController: controllers/infrastructure/hypermachine_controller.go; getHyperMachinePool and
--   adoptOrphan (Acquire), doCleanHyperMachinePool and reconcileMachineDelete (Release), the rest
--   (Handler).
-- - ClusterController: controllers/infrastructure/hypercluster_controller.go; the endpoint (Endpoint)
--   and the handler (Handler).
-- - PoolController: controllers/exp.infrastructure; hyperippool_controller.go (Ips) and
--   hypermachinepool_controller.go (Validation, Handler).
-- - Ownership: the controllers together, as steps of a system in which machines take entries, give them
--   back, and clusters set entries aside; a machine holds an entry from an adoption that the server
--   accepts to its own release of it. After a refused adoption, or after a release that is reconciled
--   again, a machine refers to an entry that it does not hold; its deletion, while another machine holds
--   that entry, is not one of the steps.
-- - Turns: the four controllers together, as whole reconciles of any of them one after another, from
--   the request to the deferred close and with whatever outcome (`Turn`, `Turns`), and what becomes of
--   the cluster label of an entry.
-- - Manager: main.go and the `SetupWithManager` of the four controllers: the update filters, with
--   `reflect.DeepEqual` on the objects written out (Filters), and the set-up in its order (Start). The
--   manager library is the parameter `Runtime`; that it runs the mapping of a watch on both objects of
--   an update is the hypothesis `IsMappingBoth`. The registration of the API types, by the files in apis
--   and `init` of main.go, is in Schemes, with the scheme library as the parameter `SchemeLibrary`.
-- - Tests: a small system in memory that meets the laws asked of the API server.
--
-- The components meet in the labels of the pool entries. The machine pool controller labels an entry
-- valid; the machine controller selects valid entries with an empty cluster label, writes the cluster
-- there and takes it away on deletion; the cluster controller takes an IP with an empty counter, and
-- provisioning counts the control-plane machines there.
--
-- Parameters: the API client (`Client`), of which `IsConsistent` asks that reads and lists see the
-- objects that are stored, each at its own key, that an accepted patch changes the labels of one
-- object as a merge patch does, and that a refused patch changes nothing; the SSH library and the
-- local files (`Remote`), of which `IsSilent` asks, where a theorem names it, that no call of it
-- changes what the API server stores. `IsApart` asks that a write to an object of another kind leaves
-- the entries of the machine pool alone, and `IsMerging` that the patch helper writes the labels that
-- differ between the object that it remembers and the object that it is given. `IsScheme` asks that
-- what is added to the scheme without error is known there, and that nothing is forgotten. An
-- operation on them takes the state of the world and returns the next. Errors that the source drops
-- are dropped in the model, with the zero object in place of what was not read. A cache of the API
-- server that is behind is not modelled.
--
-- Bounds: the reader of cloud configs runs on as many rounds as there are lines, and each round reads
-- one. All other loops are over lists. `int` wraps at 64 bits.
--
-- Not modelled: logs, generated deep copies (values are copied), the shell scripts, and what
-- utils/sshClient.go prints.
pub mod Base
pub mod Api
pub mod Scope
pub mod Utils
pub mod MachineController
pub mod ClusterController
pub mod PoolController
pub mod Ownership
pub mod Turns
pub mod Manager
pub mod Tests
