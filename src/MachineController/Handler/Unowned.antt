-- ===== src/MachineController/Handler/Unowned.antt =====
-- A machine whose adoption of a pool entry was refused.
use cluster_api_provider_hyp.Base.{Bytes, ◌≡◌, ◌∙◌, Option, none, some, true, done, Scoped}
use cluster_api_provider_hyp.Api.{
  Fault, value, fault, Key, Labels, HyperMachine, HyperMachinePool, SshInfo, IsConsistent, key_of,
}
use cluster_api_provider_hyp.Scope.{MachineScope, get_bootstrap_data}
use cluster_api_provider_hyp.Utils.{Remote}
use cluster_api_provider_hyp.MachineController.Acquire.{choose_pool}
use cluster_api_provider_hyp.MachineController.Acquire.Free.{IsFree, choose_pool-IsFree}
use cluster_api_provider_hyp.MachineController.Acquire.Exclusive.{adopted}
use cluster_api_provider_hyp.MachineController.Handler.{
  is_master, do_provisioning, provision_machine,
}
use cluster_api_provider_hyp.MachineController.Handler.Outcomes.{
  after_adoption, provisioned, provision_machine-IsReady,
}

module _ {World Conn Session : Type 0} (remote : Remote World Conn Session)
    (scope : MachineScope World) (stored : World → Key → Option HyperMachinePool)
    (consistent : IsConsistent (λ (p : HyperMachinePool). p.meta) scope.client.pools stored) where
  -- The error of the adoption is dropped: where the server refuses it, the machine is provisioned all
  -- the same and becomes ready, and the entry that it now runs on is stored as a free one, where the
  -- provisioning leaves the stored entry alone.
  pub provision_machine-IsUnowned :
      (s : Scoped World HyperMachine) (w' : World) (contents : Bytes) (m : Labels)
      {p : HyperMachinePool} {info : SshInfo} {e : Fault} {w1 : World}
      → choose_pool scope.client s.world ≡ some p
      → p.meta.labels ≡ some m
      → p.spec.ssh ≡ some info
      → scope.client.pools.patch s.world p (adopted scope p m) ≡ (fault e, w1)
      → get_bootstrap_data scope
          (after_adoption remote scope s p m).object
          (after_adoption remote scope s p m).world
        ≡ value contents
      → do_provisioning remote scope p contents
          (is_master scope.machine)
          (after_adoption remote scope s p m).world
        ≡ (done none, w')
      → stored w' (key_of p.meta) ≡ stored w1 (key_of p.meta)
      → (provision_machine remote scope s
          ≡ (done none, record { world = w'; object = provisioned remote scope p info s.object }))
        × ((provisioned remote scope p info s.object).status.ready ≡ true)
        × (stored w' (key_of p.meta) ≡ some p)
        × IsFree p
  provision_machine-IsUnowned s w' contents m {p} chosen labels ssh refused text ran kept =
      let ready =
        provision_machine-IsReady remote scope s w' contents m chosen labels ssh text ran in
      let (at_key, free) = choose_pool-IsFree scope.client stored consistent s.world chosen in
      (
        ready.0,
        ready.1,
        kept
            ∙ consistent.patch_refused s.world p (adopted scope p m) refused (key_of p.meta)
            ∙ at_key,
        free,
      )
