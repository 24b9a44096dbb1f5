-- ===== src/MachineController/Handler/Invariant.antt =====
-- What a machine that is ready has.
use cluster_api_provider_hyp.Base.{
  if◌then◌else◌, done, panicked, arith, true, false, Bool, Bytes, codes, ◌==◌, ◌++◌, ◌≡◌, refl, not,
  ◌||◌, Option, none, some, pure, must, read, on_world, ◌>>=◌, Scoped, get_elem?, Option-cases, inl,
  inr,
}
use cluster_api_provider_hyp.Base.Preserved.{
  Preserves, >>=-Preserves, pure-Preserves, read-Preserves, must-Preserves, with_defer-Preserves,
}
use cluster_api_provider_hyp.Base.Split.{split}
use cluster_api_provider_hyp.Api.{
  Client, Result, value, fault, HyperMachine, HyperMachinePool, set_label?, label_cluster_name,
}
use cluster_api_provider_hyp.Scope.{
  MachineScope, get_bootstrap_data, set_ready, set_provider_id, set_address,
}
use cluster_api_provider_hyp.Utils.{Remote}
use cluster_api_provider_hyp.Utils.Provisioning.{Report}
use cluster_api_provider_hyp.MachineController.Acquire.{
  adopt_orphan, get_hyper_machine_pool, choose_pool, refer_to, reference_to,
}
use cluster_api_provider_hyp.MachineController.Acquire.Exclusive.{
  get_hyper_machine_pool-some, get_hyper_machine_pool-none, get_hyper_machine_pool-nil,
}
use cluster_api_provider_hyp.MachineController.Handler.{
  is_settled, is_master, do_provisioning, mark_provisioned, conclude, provision_with,
  provision_found, provision_machine, reconcile_machine_normal,
}

-- A machine that is ready is named after the entry that was chosen, and refers to it.
abbrev pub IsNamed : {World : Type 0} → Client World → World → HyperMachine → Type 0
IsNamed client w hm =
    hm.status.ready ≡ true
    → (p : HyperMachinePool) × (choose_pool client w ≡ some p)
      × (hm.spec.provider_id ≡ some (codes "hyper:///" ++ p.status.host_name))
      × (hm.spec.hyper_machine_pool_ref ≡ reference_to p)

module _ {World Conn Session : Type 0} (remote : Remote World Conn Session)
    (scope : MachineScope World) where
  -- Not ready, as when the reconcile begins.
  abbrev Waits : Scoped World HyperMachine → Type 0
  Waits s = s.object.status.ready ≡ false

  adopt_orphan_object :
      (hmp : HyperMachinePool) (s : Scoped World HyperMachine)
      → (adopt_orphan scope (some hmp) s).1.object ≡ refer_to hmp s.object
  unfolding adopt_orphan
  adopt_orphan_object hmp s =
      elim (Option-cases (set_label? label_cluster_name scope.cluster.meta.name hmp.meta.labels)) [
        | inl e ↦ simp e
        | inr (m, e) ↦ simp e
      ]

  adopt_orphan-Waits : (hmp : Option HyperMachinePool) → Preserves Waits (adopt_orphan scope hmp)
  adopt_orphan-Waits none = unfold adopt_orphan in pure-Preserves Waits none
  adopt_orphan-Waits (some hmp) = record { keeps = λ s h. rw (adopt_orphan_object hmp s) h }

  get_hyper_machine_pool-Waits : Preserves Waits (get_hyper_machine_pool scope)
  unfolding get_hyper_machine_pool
  get_hyper_machine_pool-Waits =
      >>=-Preserves Waits (read λ s. choose_pool scope.client s.world) _
        (read-Preserves Waits λ s. choose_pool scope.client s.world)
        (λ hmp.
          with_defer-Preserves Waits (adopt_orphan scope hmp >>= λ _. pure tt) (pure hmp)
            (>>=-Preserves Waits (adopt_orphan scope hmp) (λ _. pure tt) (adopt_orphan-Waits hmp)
              (λ _. pure-Preserves Waits tt))
            (pure-Preserves Waits hmp))

  -- From the entry on that was chosen in the world `w`.
  module _ (w : World) (hmp : HyperMachinePool)
      (chosen : choose_pool scope.client w ≡ some hmp) where
    abbrev InState : Scoped World HyperMachine → Type 0
    InState t =
        (t.object.spec.hyper_machine_pool_ref ≡ reference_to hmp) × IsNamed scope.client w t.object

    -- The provider id follows the flag with nothing in between that could fail.
    mark_provisioned-InState : Preserves InState (mark_provisioned remote scope hmp)
    unfolding mark_provisioned set_ready set_provider_id set_address
    mark_provisioned-InState = record {
      keeps = λ s (refers, h).
          (>>=-Preserves InState (must hmp.spec.ssh) _ (must-Preserves InState hmp.spec.ssh)
              (λ info.
                >>=-Preserves InState (must (get_elem? (split info.address (codes ":")) 0)) _
                  (must-Preserves InState (get_elem? (split info.address (codes ":")) 0))
                  (λ host. record { keeps = λ t k. k }))).keeps
            (record s { object = set_provider_id hmp.status.host_name (set_ready s.object) })
            (refers, λ _. (hmp, chosen, refl, refers));
    }

    conclude-InState : (report : Report) → Preserves InState (conclude remote scope hmp report)
    unfolding conclude
    conclude-InState (some (e, output)) = pure-Preserves InState (some e)
    conclude-InState none =
        >>=-Preserves InState (mark_provisioned remote scope hmp) (λ _. pure none)
          mark_provisioned-InState (λ _. pure-Preserves InState none)

    provision_with-InState :
        (cloud_config : Result Bytes)
        → Preserves InState (provision_with remote scope hmp cloud_config)
    unfolding provision_with
    provision_with-InState (fault e) = pure-Preserves InState none
    provision_with-InState (value contents) =
        >>=-Preserves InState
          (on_world (do_provisioning remote scope hmp contents (is_master scope.machine)))
          (conclude remote scope hmp) (record { keeps = λ t k. k }) conclude-InState

    provision_found-InState : Preserves InState (provision_found remote scope (some hmp))
    unfolding provision_found
    provision_found-InState =
        >>=-Preserves InState (read λ s. get_bootstrap_data scope s.object s.world)
          (provision_with remote scope hmp)
          (read-Preserves InState λ s. get_bootstrap_data scope s.object s.world)
          provision_with-InState

  waiting : (w : World) (hm : HyperMachine) → hm.status.ready ≡ false → IsNamed scope.client w hm
  waiting w hm waits ready = absurd (ground (arith, waits, ready))

  none_found :
      (s : Scoped World HyperMachine)
      → get_hyper_machine_pool scope s ≡ (done none, s)
      → provision_machine remote scope s ≡ (done none, s)
  unfolding provision_machine provision_found
  none_found s got = simp got

  panics :
      (s : Scoped World HyperMachine)
      → (get_hyper_machine_pool scope s).0 ≡ panicked
      → (provision_machine remote scope s).1 ≡ (get_hyper_machine_pool scope s).1
  unfolding provision_machine
  panics s got = simp got

  provision_machine-some :
      (s t : Scoped World HyperMachine) (p : HyperMachinePool)
      → get_hyper_machine_pool scope s ≡ (done (some p), t)
      → provision_machine remote scope s ≡ provision_found remote scope (some p) t
  unfolding provision_machine
  provision_machine-some s t p got = simp got

  provision_machine-IsNamed :
      (s : Scoped World HyperMachine) (found : Option HyperMachinePool)
      → choose_pool scope.client s.world ≡ found
      → Waits s
      → IsNamed scope.client s.world (provision_machine remote scope s).1.object
  provision_machine-IsNamed s none chosen waits =
      rw (none_found s (get_hyper_machine_pool-none scope s chosen))
        (waiting s.world s.object waits)
  provision_machine-IsNamed s (some p) chosen waits = elim (Option-cases p.meta.labels) [
    | inl nil ↦ rw (panics s (get_hyper_machine_pool-nil scope s chosen nil)) (
        waiting s.world (get_hyper_machine_pool scope s).1.object
          (get_hyper_machine_pool-Waits.keeps s waits))
    | inr (m, labels) ↦
        rw (provision_machine-some s _ p (get_hyper_machine_pool-some scope s chosen labels))
          ((provision_found-InState s.world p chosen).keeps _
            (refl, waiting s.world (refer_to p s.object) waits)).1
  ]

  branch :
      (skip : Bool) (s : Scoped World HyperMachine)
      → Waits s
      → IsNamed scope.client s.world
          ((if skip then pure none else provision_machine remote scope) s).1.object
  branch true s waits = waiting s.world s.object waits
  branch false s waits = provision_machine-IsNamed s _ refl waits

  decided :
      (settled : Option Bool) (s : Scoped World HyperMachine)
      → Waits s
      → IsNamed scope.client s.world
          ((must settled >>= λ skip.
              if skip || not (scope.machine.phase == codes "Provisioning")
              then pure none
              else provision_machine remote scope)
            s).1.object
  decided none s waits = waiting s.world s.object waits
  decided (some skip) s waits =
      branch (skip || not (scope.machine.phase == codes "Provisioning")) s waits

  -- Whatever a reconcile of a machine that is not ready comes to, also an error or a panic, if the
  -- machine is ready after it then it is named after the free entry that was chosen when it began, by
  -- the entry's host name behind "hyper:///", and refers to that entry.
  pub reconcile_machine_normal-IsNamed :
      (s : Scoped World HyperMachine)
      → s.object.status.ready ≡ false
      → (reconcile_machine_normal remote scope s).1.object.status.ready ≡ true
      → (p : HyperMachinePool) × (choose_pool scope.client s.world ≡ some p)
        × ((reconcile_machine_normal remote scope s).1.object.spec.provider_id
            ≡ some (codes "hyper:///" ++ p.status.host_name))
        × ((reconcile_machine_normal remote scope s).1.object.spec.hyper_machine_pool_ref
            ≡ reference_to p)
  unfolding reconcile_machine_normal
  reconcile_machine_normal-IsNamed s waits = decided (is_settled s.object) s waits
