-- ===== src/MachineController/Handler/Outcomes.antt =====
-- What a reconcile of a machine that is not deleted comes to.
use mathlib.Core.List.{cons-ne-nil}
use cluster_api_provider_hyp.Base.{
  pure, ◌>>=◌, Bytes, codes, ◌==◌, ==_ne, ◌++◌, ◌≡◌, ◌≢◌, refl, ◌∙◌, Bool, true, not, ◌||◌, [], ◌∷◌,
  Option, none, some, done, Scoped,
}
use cluster_api_provider_hyp.Base.Split.{before, get_elem?-split_zero}
use cluster_api_provider_hyp.Api.{
  Fault, value, fault, Key, Labels, HyperMachine, HyperMachinePool, SshInfo, IsConsistent,
  stored_label, key_of, label_cluster_name,
}
use cluster_api_provider_hyp.Scope.{
  MachineScope, get_bootstrap_data, set_ready, set_provider_id, set_address,
}
use cluster_api_provider_hyp.Utils.{Remote}
use cluster_api_provider_hyp.MachineController.Acquire.{
  choose_pool, get_hyper_machine_pool, refer_to, reference_to,
}
use cluster_api_provider_hyp.MachineController.Acquire.Exclusive.{
  adopted, get_hyper_machine_pool-some, get_hyper_machine_pool-IsExclusive,
}
use cluster_api_provider_hyp.MachineController.Handler.{
  is_settled, is_master, do_provisioning, mark_provisioned, provision_machine,
  reconcile_machine_normal,
}

colon : codes ":" ≢ []
unfolding codes
colon = cons-ne-nil _ _

module _ {World Conn Session : Type 0} (remote : Remote World Conn Session)
    (scope : MachineScope World) where
  -- A machine that is settled, or whose owner is not in the phase "Provisioning", is left alone, and
  -- so is the world.
  pub reconcile_machine_normal-skips :
      (s : Scoped World HyperMachine) (settled : Bool)
      → is_settled s.object ≡ some settled
      → (settled || not (scope.machine.phase == codes "Provisioning")) ≡ true
      → reconcile_machine_normal remote scope s ≡ (done none, s)
  unfolding reconcile_machine_normal
  reconcile_machine_normal-skips s settled e skip = simp (e, skip)

  -- The machine as the setters leave it.
  abbrev pub provisioned : HyperMachinePool → SshInfo → HyperMachine → HyperMachine
  provisioned p info hm =
      set_address (before info.address (codes ":"))
        (set_provider_id p.status.host_name (set_ready (refer_to p hm)))

  marked :
      (t : Scoped World HyperMachine) (p : HyperMachinePool) {info : SshInfo}
      → p.spec.ssh ≡ some info
      → mark_provisioned remote scope p t ≡ (
        done tt,
        record t {
          object =
              set_address
                (before info.address (codes ":"))
                (set_provider_id p.status.host_name (set_ready t.object));
        },
      )
  unfolding mark_provisioned
  marked t p {info} ssh = simp (ssh, get_elem?-split_zero info.address (codes ":") colon)

  provision_machine-done :
      (s s1 : Scoped World HyperMachine) (w' : World) (contents : Bytes) {p : HyperMachinePool}
      → get_hyper_machine_pool scope s ≡ (done (some p), s1)
      → get_bootstrap_data scope s1.object s1.world ≡ value contents
      → do_provisioning remote scope p contents (is_master scope.machine) s1.world ≡ (done none, w')
      → provision_machine remote scope s
        ≡ (mark_provisioned remote scope p >>= λ _. pure none) (record s1 { world = w' })
  unfolding provision_machine
  provision_machine-done s s1 w' contents got text ran = simp (got, text, ran)

  provision_machine-fault :
      (s s1 : Scoped World HyperMachine) {p : HyperMachinePool} {e : Fault}
      → get_hyper_machine_pool scope s ≡ (done (some p), s1)
      → get_bootstrap_data scope s1.object s1.world ≡ fault e
      → provision_machine remote scope s ≡ (done none, s1)
  unfolding provision_machine
  provision_machine-fault s s1 got text = simp (got, text)

  provision_machine-error :
      (s s1 : Scoped World HyperMachine) (w' : World) (contents output : Bytes)
      {p : HyperMachinePool} {e : Fault}
      → get_hyper_machine_pool scope s ≡ (done (some p), s1)
      → get_bootstrap_data scope s1.object s1.world ≡ value contents
      → do_provisioning remote scope p contents (is_master scope.machine) s1.world
        ≡ (done (some (e, output)), w')
      → provision_machine remote scope s ≡ (done (some e), record s1 { world = w' })
  unfolding provision_machine
  provision_machine-error s s1 w' contents output got text ran = simp (got, text, ran)

  nothing_done :
      (p : HyperMachinePool) (contents : Bytes) (master : Bool) (w : World)
      → p.status.os ≢ codes "ubuntu"
      → p.status.os ≢ codes "centos"
      → do_provisioning remote scope p contents master w ≡ (done none, w)
  unfolding do_provisioning
  nothing_done p contents master w not_ubuntu not_centos =
      simp (
        ==_ne p.status.os (codes "ubuntu") not_ubuntu,
        ==_ne p.status.os (codes "centos") not_centos,
      )

  -- The state in which an adopted entry leaves the handler.
  abbrev pub after_adoption :
      Scoped World HyperMachine → HyperMachinePool → Labels → Scoped World HyperMachine
  after_adoption s p m = record {
    world = (scope.client.pools.patch s.world p (adopted scope p m)).1;
    object = refer_to p s.object;
  }

  -- Where a free entry with SSH data is chosen, the bootstrap data is there and the provisioning
  -- ends without error, the machine becomes ready: its provider id is the entry's host name behind
  -- "hyper:///", its only address is the part of the entry's SSH address before the colon, it
  -- refers to the entry, and the test by which later reconciles skip a machine holds.
  pub provision_machine-IsReady :
      (s : Scoped World HyperMachine) (w' : World) (contents : Bytes) (m : Labels)
      {p : HyperMachinePool} {info : SshInfo}
      → choose_pool scope.client s.world ≡ some p
      → p.meta.labels ≡ some m
      → p.spec.ssh ≡ some info
      → get_bootstrap_data scope (after_adoption s p m).object (after_adoption s p m).world
        ≡ value contents
      → do_provisioning remote scope p contents
          (is_master scope.machine)
          (after_adoption s p m).world
        ≡ (done none, w')
      → let hm = provisioned p info s.object in
        (provision_machine remote scope s ≡ (done none, record { world = w'; object = hm }))
        × (hm.status.ready ≡ true)
        × (hm.spec.provider_id ≡ some (codes "hyper:///" ++ p.status.host_name))
        × (hm.status.addresses
            ≡ record {
              address_type = codes "InternalIP";
              address = before info.address (codes ":");
            }
              ∷ [])
        × (hm.spec.hyper_machine_pool_ref ≡ reference_to p)
        × (is_settled hm ≡ some true)
  unfolding set_ready set_provider_id set_address is_settled
  provision_machine-IsReady s w' contents m {p} e labels ssh text ran = (
    provision_machine-done s (after_adoption s p m) w' contents
          (get_hyper_machine_pool-some scope s e labels) text ran
        ∙ simp (marked (record (after_adoption s p m) { world = w' }) p ssh),
    refl,
    refl,
    refl,
    refl,
    refl,
  )

  -- A chosen entry with SSH data and another operating system than "ubuntu" and "centos" makes the
  -- machine ready, once the bootstrap data is there, although nothing is done on it: the world is
  -- as the adoption left it.
  pub provision_machine-unknown_os :
      (s : Scoped World HyperMachine) (contents : Bytes) (m : Labels) {p : HyperMachinePool}
      {info : SshInfo}
      → choose_pool scope.client s.world ≡ some p
      → p.meta.labels ≡ some m
      → p.spec.ssh ≡ some info
      → get_bootstrap_data scope (after_adoption s p m).object (after_adoption s p m).world
        ≡ value contents
      → p.status.os ≢ codes "ubuntu"
      → p.status.os ≢ codes "centos"
      → (provision_machine remote scope s ≡ (
        done none,
        record { world = (after_adoption s p m).world; object = provisioned p info s.object },
      ))
        × (is_settled (provisioned p info s.object) ≡ some true)
  provision_machine-unknown_os s contents m {p} e labels ssh text not_ubuntu not_centos =
      let r =
        provision_machine-IsReady s (after_adoption s p m).world contents m e labels ssh text (
          nothing_done p contents (is_master scope.machine) (after_adoption s p m).world not_ubuntu
            not_centos) in
      (r.0, r.5)

module _ {World Conn Session : Type 0} (remote : Remote World Conn Session)
    (scope : MachineScope World) (stored : World → Key → Option HyperMachinePool)
    (consistent : IsConsistent (λ (p : HyperMachinePool). p.meta) scope.client.pools stored) where
  -- An entry is lost when a named cluster adopts it, the server accepts the patch, and the
  -- bootstrap data cannot be read yet: the entry stays stored under the cluster's name, the
  -- handler returns no error, the machine is as settled as before, and the entry that is chosen
  -- next is another one.
  pub provision_machine-IsLost :
      (s : Scoped World HyperMachine) (m : Labels) {p q r : HyperMachinePool} {w' : World}
      {e : Fault}
      → choose_pool scope.client s.world ≡ some p
      → p.meta.labels ≡ some m
      → scope.cluster.meta.name ≢ []
      → scope.client.pools.patch s.world p (adopted scope p m) ≡ (value r, w')
      → get_bootstrap_data scope (refer_to p s.object) w' ≡ fault e
      → choose_pool scope.client w' ≡ some q
      → (provision_machine remote scope s
          ≡ (done none, record { world = w'; object = refer_to p s.object }))
        × (is_settled (refer_to p s.object) ≡ is_settled s.object)
        × (stored_label
              (λ (x : HyperMachinePool). x.meta)
              (stored w' (key_of p.meta))
              label_cluster_name
            ≡ some scope.cluster.meta.name)
        × (key_of q.meta ≢ key_of p.meta)
  unfolding is_settled
  provision_machine-IsLost s m {p} {q = q} {w' = w'} found labels named patched text again =
      let run : get_hyper_machine_pool scope s
          ≡ (done (some p), record { world = w'; object = refer_to p s.object }) =
        (get_hyper_machine_pool-some scope s found labels ∙ rw patched refl) in
      let facts =
        get_hyper_machine_pool-IsExclusive scope stored consistent s {q = q} found labels named
          patched (rw run again) in
      (
        provision_machine-fault remote scope s (record { world = w'; object = refer_to p s.object })
            run text,
        refl,
        rw run at facts.1,
        facts.2,
      )
