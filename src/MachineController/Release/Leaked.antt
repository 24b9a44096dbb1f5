-- ===== src/MachineController/Release/Leaked.antt =====
-- A machine that is deleted while its pool entry cannot be reached.
use cluster_api_provider_hyp.Base.{◌≡◌, ◌≢◌, ap, ◌∙◌, [], Option, none, some, done, Scoped}
use cluster_api_provider_hyp.Api.{
  Client, Fault, value, fault, Key, HyperMachine, HyperMachinePool, SshInfo, IsConsistent, IsApart,
}
use cluster_api_provider_hyp.Utils.{Remote}
use cluster_api_provider_hyp.Utils.Ssh.{ssh_connect}
use cluster_api_provider_hyp.Utils.Ssh.Silent.{IsSilent, ssh_connect_same}
use cluster_api_provider_hyp.MachineController.Release.{
  clean_at, do_clean_hyper_machine_pool, remove_machine_finalizer, reconcile_machine_delete,
}
use cluster_api_provider_hyp.MachineController.Release.Freed.{ref_key, clean_named}

module _ {World Conn Session : Type 0} (remote : Remote World Conn Session)
    (client : Client World) where
  clean_unreachable :
      (key : Key) (w w1 : World) {p : HyperMachinePool} {info : SshInfo} {e : Fault}
      → client.pools.get w key ≡ value p
      → p.spec.ssh ≡ some info
      → ssh_connect remote info.address info.ssh_id info.ssh_pw w ≡ (done (fault e), w1)
      → clean_at remote client key w ≡ (done tt, w1)
  unfolding clean_at
  clean_unreachable key w w1 got ssh dialled = simp (got, ssh, dialled)

  delete_after :
      (s : Scoped World HyperMachine) (w1 : World)
      → client.hyper_machines.new_helper s.world s.object ≡ none
      → do_clean_hyper_machine_pool remote client s.object s.world ≡ (done tt, w1)
      → reconcile_machine_delete remote client s ≡ (
        done none,
        record {
          world =
              (client.hyper_machines.persist w1 s.object
                (remove_machine_finalizer remote client s.object)).1;
          object = remove_machine_finalizer remote client s.object;
        },
      )
  unfolding reconcile_machine_delete
  delete_after s w1 helped ran = simp (helped, ran)

module _ {World Conn Session : Type 0} (remote : Remote World Conn Session) (client : Client World)
    (stored : World → Key → Option HyperMachinePool)
    (consistent : IsConsistent (λ (x : HyperMachinePool). x.meta) client.pools stored)
    (silent : IsSilent remote stored) (apart : IsApart client stored) where
  -- Where SSH does not connect to the entry of a machine that is deleted, the deletion ends without
  -- error and gives the machine without its finalizer to the patch helper, and after that last write
  -- the entry is stored as it was before, the cluster's name among its labels.
  pub reconcile_machine_delete-IsLeaked :
      (s : Scoped World HyperMachine) (w1 : World) {p : HyperMachinePool} {info : SshInfo}
      {e : Fault}
      → client.hyper_machines.new_helper s.world s.object ≡ none
      → s.object.spec.hyper_machine_pool_ref.name ≢ []
      → stored s.world (ref_key s.object) ≡ some p
      → p.spec.ssh ≡ some info
      → ssh_connect remote info.address info.ssh_id info.ssh_pw s.world ≡ (done (fault e), w1)
      → (reconcile_machine_delete remote client s ≡ (
        done none,
        record {
          world =
              (client.hyper_machines.persist w1 s.object
                (remove_machine_finalizer remote client s.object)).1;
          object = remove_machine_finalizer remote client s.object;
        },
      ))
        × (stored (reconcile_machine_delete remote client s).1.world (ref_key s.object) ≡ some p)
  reconcile_machine_delete-IsLeaked s w1 {p} {info} helped named here ssh dialled =
      let run = delete_after remote client s w1 helped (
        rw (clean_named remote client s.object named) (
          clean_unreachable remote client (ref_key s.object) s.world w1
            (consistent.get_stored s.world _ here) ssh dialled)) in
      (
        run,
        ap (λ r. stored r.1.world (ref_key s.object)) run
            ∙ ap (λ f. f (ref_key s.object))
                (apart.machine_persist w1 s.object
                  (remove_machine_finalizer remote client s.object))
            ∙ ap (λ f. f (ref_key s.object))
                (rw dialled at (
                  ssh_connect_same remote stored silent info.address info.ssh_id info.ssh_pw
                    s.world))
            ∙ here,
      )
