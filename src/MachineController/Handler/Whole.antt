-- ===== src/MachineController/Handler/Whole.antt =====
-- A whole reconcile of a machine, from the request to the object that is written.
use cluster_api_provider_hyp.Base.{
  Bytes, codes, ◌≡◌, refl, ◌∙◌, ap, ==_refl, true, false, ◌++◌, none, some, done, Scoped, in_scope,
  arith,
}
use cluster_api_provider_hyp.Api.{
  Client, Key, Labels, value, ObjectReference, SshInfo, Machine, Cluster, HyperCluster,
  HyperMachine, HyperMachineStatus, HyperMachinePool, hyper_machine_finalizer,
}
use cluster_api_provider_hyp.Scope.{MachineScope, new_machine_scope, get_bootstrap_data}
use cluster_api_provider_hyp.Utils.{Remote}
use cluster_api_provider_hyp.MachineController.Acquire.{choose_pool}
use cluster_api_provider_hyp.MachineController.Handler.{
  is_settled, is_master, do_provisioning, provision_machine, reconcile_machine_normal,
  reconcile_in_scope, reconcile_opened, reconcile_between, reconcile_inside, reconcile_owned,
  reconcile_read, reconcile,
}
use cluster_api_provider_hyp.MachineController.Handler.Closing.{reconcile_in_scope-closes}
use cluster_api_provider_hyp.MachineController.Handler.Outcomes.{
  provisioned, after_adoption, provision_machine-IsReady, reconcile_machine_normal-skips,
}

-- What the server answers about a machine that is not deleted: the object, its owner, their cluster and
-- the cluster's own object, for which a patch helper can be made.
pub record IsAnswered {World : Type 0} (client : Client World) (w : World) (key : Key)
    (hm : HyperMachine) (machine : Machine) (cluster : Cluster) (hc : HyperCluster) : Type 0 where
  pub infrastructure : ObjectReference
  pub found : client.hyper_machines.get w key ≡ value hm
  pub lives : hm.meta.deletion_timestamp ≡ none
  pub owned : client.get_owner_machine w hm.meta ≡ value (some machine)
  pub clustered : client.get_cluster_from_metadata w machine.meta ≡ value cluster
  pub referred : cluster.infrastructure_ref ≡ some infrastructure
  pub served :
      client.hyper_clusters.get w
        (record { namespace = infrastructure.namespace; name = infrastructure.name })
      ≡ value hc
  pub helped : client.hyper_machines.new_helper w hm ≡ none

module _ {World Conn Session : Type 0} (remote : Remote World Conn Session)
    (client : Client World) where
  -- The scope of a machine that was read with its owner and its cluster.
  abbrev pub scope_of : HyperMachine → Machine → Cluster → HyperCluster → MachineScope World
  scope_of hm machine cluster hc = record {
    client = client;
    cluster = cluster;
    machine = machine;
    hyper_cluster = hc;
    helper = hm;
  }

  opened :
      (key : Key) (w : World) {hm : HyperMachine} {machine : Machine} {cluster : Cluster}
      {hc : HyperCluster}
      → IsAnswered client w key hm machine cluster hc
      → reconcile remote client key w
        ≡ in_scope hm (reconcile_in_scope remote (scope_of hm machine cluster hc)) w
  unfolding reconcile reconcile_read reconcile_owned reconcile_inside reconcile_between
      reconcile_opened new_machine_scope
  opened key w a = simp (a.found, a.lives, a.owned, a.clustered, a.referred, a.served, a.helped)

  -- The handler of a machine that was read, and its last write.
  closed :
      (key : Key) (w : World) {hm hm' : HyperMachine} {machine : Machine} {cluster : Cluster}
      {hc : HyperCluster} {w' : World}
      → IsAnswered client w key hm machine cluster hc
      → client.finalizer_ops.contains_finalizer hm.meta.finalizers hyper_machine_finalizer ≡ true
      → reconcile_machine_normal remote
          (scope_of hm machine cluster hc)
          (record { world = w; object = hm })
        ≡ (done none, record { world = w'; object = hm' })
      → reconcile remote client key w ≡ (done none, (client.hyper_machines.persist w' hm hm').1)
  closed key w {hm} {hm'} {machine} {cluster} {hc} {w'} a has ran =
      opened key w a
      ∙ ap (λ r. (r.0, r.1.world))
          (reconcile_in_scope-closes remote (scope_of hm machine cluster hc)
            (record { world = w; object = hm }) _ _ has ran (λ e. ground arith))

  ready_settled : (hm : HyperMachine) → hm.status.ready ≡ true → is_settled hm ≡ some true
  unfolding is_settled
  ready_settled hm ready = rw (ready, is_settled) refl

  waits :
      (scope : MachineScope World) (s : Scoped World HyperMachine)
      → is_settled s.object ≡ some false
      → scope.machine.phase ≡ codes "Provisioning"
      → reconcile_machine_normal remote scope s ≡ provision_machine remote scope s
  unfolding reconcile_machine_normal
  waits scope s unsettled phase = simp (unsettled, phase, ==_refl (codes "Provisioning"))

  -- A whole reconcile of a machine that waits provisions it on a free entry and gives the ready machine
  -- to the patch helper, with the entry's host name in its provider id; and where the machine is read
  -- later with the status that it was given and with the finalizer, whatever else the server has changed
  -- in it, such as its resource version, a whole reconcile provisions nothing and gives it to the patch
  -- helper as it was read. The machine has the finalizer and no provider id, its owner is in the phase
  -- "Provisioning", the bootstrap data is there, and the provisioning ends without error.
  pub reconcile-IsProvisioned :
      (key : Key) (w w' later : World) (contents : Bytes) (m : Labels) {hm seen : HyperMachine}
      {machine machine' : Machine} {cluster cluster' : Cluster} {hc hc' : HyperCluster}
      {p : HyperMachinePool} {info : SshInfo}
      → IsAnswered client w key hm machine cluster hc
      → client.finalizer_ops.contains_finalizer hm.meta.finalizers hyper_machine_finalizer ≡ true
      → is_settled hm ≡ some false
      → machine.phase ≡ codes "Provisioning"
      → choose_pool client w ≡ some p
      → p.meta.labels ≡ some m
      → p.spec.ssh ≡ some info
      → let scope = scope_of hm machine cluster hc in
        let adoption = after_adoption remote scope (record { world = w; object = hm }) p m in
        get_bootstrap_data scope adoption.object adoption.world ≡ value contents
        → do_provisioning remote scope p contents (is_master machine) adoption.world
          ≡ (done none, w')
        → let given = provisioned remote scope p info hm in
          IsAnswered client later key seen machine' cluster' hc'
          → seen.status ≡ given.status
          → client.finalizer_ops.contains_finalizer seen.meta.finalizers hyper_machine_finalizer
            ≡ true
          → (reconcile remote client key w
              ≡ (done none, (client.hyper_machines.persist w' hm given).1))
            × (given.status.ready ≡ true)
            × (given.spec.provider_id ≡ some (codes "hyper:///" ++ p.status.host_name))
            × (reconcile remote client key later
                ≡ (done none, (client.hyper_machines.persist later seen seen).1))
  reconcile-IsProvisioned key w w' later contents m {hm} {seen} {machine} {machine'} {cluster}
        {cluster'} {hc} {hc'} {p} {info} a has unsettled phase chosen labels ssh text ran again kept
        still =
      let scope = scope_of hm machine cluster hc in
      let (provision, ready, provider, address, refers, settled) =
        provision_machine-IsReady remote scope (record { world = w; object = hm }) w' contents m
          chosen labels ssh text ran in
      (
        closed key w a has
            (waits scope (record { world = w; object = hm }) unsettled phase ∙ provision),
        ready,
        provider,
        closed key later again still (
            reconcile_machine_normal-skips remote (scope_of seen machine' cluster' hc')
              (record { world = later; object = seen }) true
              (ready_settled seen (ap (λ (x : HyperMachineStatus). x.ready) kept ∙ ready)) refl),
      )
