-- ===== src/MachineController/Handler.antt =====
-- `Reconcile`, `reconcileMachineNormal`, `doProvisioning` and the mapping of machine events. A handler
-- returns its error; the `ctrl.Result` is the zero value on every path.
pub mod Outcomes
pub mod Closing
pub mod Invariant
pub mod Unowned
pub mod Whole
pub mod Returned
use cluster_api_provider_hyp.Base.{
  Bytes, codes, ◌==◌, ◌++◌, Bool, true, false, not, ◌&&◌, ◌||◌, List, [], ◌∷◌, Option, none, some,
  M, pure, call, must, read, with_defer, in_scope, on_world, with_object, ◌>>=◌, ◌>>◌, Scoped,
  get_elem?, if◌then◌else◌,
}
use cluster_api_provider_hyp.Base.Split.{split}
use cluster_api_provider_hyp.Api.{
  Client, Fault, Result, not_found, failure, value, fault, message, Key, HyperMachine, Machine,
  Cluster, HyperCluster, HyperMachinePool, label?, label_cluster_role_master,
  hyper_machine_finalizer, zero_machine, value_or,
}
use cluster_api_provider_hyp.Scope.{
  MachineScope, new_machine_scope, get_bootstrap_data, set_ready, set_provider_id, set_address,
  close_machine_scope,
}
use cluster_api_provider_hyp.Utils.{Remote}
use cluster_api_provider_hyp.Utils.Provisioning.{Report, ubuntu_provisioning, centos_provisioning}
use cluster_api_provider_hyp.MachineController.Acquire.{get_hyper_machine_pool}
use cluster_api_provider_hyp.MachineController.Release.{reconcile_machine_delete}

-- `Status.Ready || *Spec.ProviderID != ""`, where a nil `ProviderID` panics.
unfoldable pub is_settled : HyperMachine → Option Bool
is_settled hm = elim hm.status.ready [
  | true ↦ some true
  | false ↦ elim hm.spec.provider_id [ none ↦ none | some id ↦ some (not (id == [])) ]
]

unfoldable pub is_master : Machine → Bool
is_master machine = elim (label? label_cluster_role_master machine.meta.labels) [
  | none ↦ false
  | some _ ↦ true
]

unfoldable pub add_machine_finalizer : {World : Type 0} → Client World → HyperMachine → HyperMachine
add_machine_finalizer client hm = record hm {
  meta = record (hm.meta) {
    finalizers = client.finalizer_ops.add_finalizer hm.meta.finalizers hyper_machine_finalizer;
  };
}

module _ {World Conn Session : Type 0} (remote : Remote World Conn Session) where
  module _ (scope : MachineScope World) where
    -- Any other operating system is reported as provisioned.
    unfoldable pub do_provisioning : HyperMachinePool → Bytes → Bool → M World Report
    do_provisioning hmp contents master =
        if hmp.status.os == codes "ubuntu"
        then ubuntu_provisioning remote scope hmp contents master
        else if hmp.status.os == codes "centos"
        then centos_provisioning remote scope hmp contents master
        else pure none

    -- The three setters after a provisioning without error.
    unfoldable pub mark_provisioned : HyperMachinePool → M (Scoped World HyperMachine) (Unit {0})
    mark_provisioned hmp = do
      with_object set_ready
      with_object (set_provider_id hmp.status.host_name)
      ssh_info ← must hmp.spec.ssh
      host ← must (get_elem? (split ssh_info.address (codes ":")) 0)
      with_object (set_address host)

    -- What the report of a provisioning leads to.
    unfoldable pub conclude :
        HyperMachinePool → Report → M (Scoped World HyperMachine) (Option Fault)
    conclude hmp (some (e, output)) = pure (some e)
    conclude hmp none = do mark_provisioned hmp; pure none

    -- A missing bootstrap secret is no error.
    unfoldable pub provision_with :
        HyperMachinePool → Result Bytes → M (Scoped World HyperMachine) (Option Fault)
    unfolding conclude
    provision_with hmp (fault e) = pure none
    provision_with hmp (value contents) = do
      report ← on_world (do_provisioning hmp contents (is_master scope.machine))
      conclude hmp report

    unfoldable pub provision_found :
        Option HyperMachinePool → M (Scoped World HyperMachine) (Option Fault)
    unfolding provision_with
    provision_found none = pure none
    provision_found (some hmp) = do
      cloud_config ← read λ s. get_bootstrap_data scope s.object s.world
      provision_with hmp cloud_config

    -- From the list of the pool on.
    unfoldable pub provision_machine : M (Scoped World HyperMachine) (Option Fault)
    unfolding provision_found
    provision_machine = do found ← get_hyper_machine_pool scope; provision_found found

    unfoldable pub reconcile_machine_normal : M (Scoped World HyperMachine) (Option Fault)
    unfolding is_settled
    reconcile_machine_normal = do
      settled ← read λ s. is_settled s.object
      skip ← must settled
      if skip || not (scope.machine.phase == codes "Provisioning")
          then pure none
          else provision_machine

  -- What runs while the scope is open; it is closed on every way out, also by a panic.
  unfoldable pub reconcile_in_scope :
      MachineScope World → M (Scoped World HyperMachine) (Option Fault)
  unfolding add_machine_finalizer
  reconcile_in_scope scope = with_defer (close_machine_scope scope >>= λ _. pure tt) (do
    hm ← read λ s. s.object
    if scope.client.finalizer_ops.contains_finalizer hm.meta.finalizers hyper_machine_finalizer
        then reconcile_machine_normal scope
        else (do with_object (add_machine_finalizer scope.client); pure none))

  -- With the scope that was made.
  unfoldable pub reconcile_opened :
      HyperMachine → Result (MachineScope World) → M World (Option Fault)
  unfolding reconcile_in_scope
  reconcile_opened hm (fault e) =
      pure (some (failure (codes "failed to create scope: " ++ message e)))
  reconcile_opened hm (value scope) = in_scope hm (reconcile_in_scope scope)

  module _ (client : Client World) where
    -- With the hyper cluster that was read.
    unfoldable pub reconcile_between :
        HyperMachine → Machine → Cluster → Result HyperCluster → M World (Option Fault)
    unfolding reconcile_opened
    reconcile_between hm machine cluster (fault e) = pure (some e)
    reconcile_between hm machine cluster (value hc) = do
      scope ← call λ w. (
        new_machine_scope
            (record {
              client = some client;
              cluster = some cluster;
              hyper_cluster = some hc;
              machine = some machine;
              hyper_machine = some hm;
            })
            w,
        w,
      )
      reconcile_opened hm scope

    -- With the cluster that was read. `cluster.Spec.InfrastructureRef` may be nil.
    unfoldable pub reconcile_inside :
        HyperMachine → Machine → Result Cluster → M World (Option Fault)
    unfolding reconcile_between
    reconcile_inside hm machine (fault e) = pure (some e)
    reconcile_inside hm machine (value cluster) = do
      ref ← must cluster.infrastructure_ref
      let key : Key = record { namespace = ref.namespace; name = ref.name }
      hyper_cluster ← call λ w. (client.hyper_clusters.get w key, w)
      reconcile_between hm machine cluster hyper_cluster

    -- With the owner machine that was read.
    unfoldable pub reconcile_owned : HyperMachine → Result (Option Machine) → M World (Option Fault)
    unfolding reconcile_inside
    reconcile_owned hm (fault e) = pure (some e)
    reconcile_owned hm (value none) = pure none
    reconcile_owned hm (value (some machine)) = do
      found ← call λ w. (client.get_cluster_from_metadata w machine.meta, w)
      reconcile_inside hm machine found

    -- With the machine that was read.
    unfoldable pub reconcile_read : Result HyperMachine → M World (Option Fault)
    unfolding reconcile_owned
    reconcile_read (fault (not_found text)) = pure none
    reconcile_read (fault (failure text)) = pure (some (failure text))
    reconcile_read (value hm) = elim hm.meta.deletion_timestamp [
      | some _ ↦ in_scope hm (reconcile_machine_delete remote client)
      | none ↦ do
        owner ← call λ w. (client.get_owner_machine w hm.meta, w)
        reconcile_owned hm owner
    ]

    unfoldable pub reconcile : Key → M World (Option Fault)
    unfolding reconcile_read
    reconcile key = do
      read_hm ← call λ w. (client.hyper_machines.get w key, w)
      reconcile_read read_hm

-- `requeueHyperMachinesForBootStrapData`: the requests for an event on a machine. The error of `Get` is
-- dropped.
unfoldable pub requeue_hyper_machines : {World : Type 0} → Client World → Machine → World → List Key
requeue_hyper_machines client m w =
    let key : Key = record { namespace = m.meta.namespace; name = m.infrastructure_ref.name } in
    elim m.meta.deletion_timestamp [
      | some _ ↦ []
      | none ↦
          if not (m.infrastructure_ref.kind == codes "HyperMachine")
          then []
          else if (value_or (client.hyper_machines.get w key) zero_machine).status.ready
          then []
          else key ∷ []
    ]

-- The update predicate of the watch on machines.
unfoldable pub is_provisioning_event : Machine → Machine → Bool
is_provisioning_event old new = old.phase == codes "Pending" && new.phase == codes "Provisioning"
