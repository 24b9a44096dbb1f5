-- ===== src/MachineController/Handler/Closing.antt =====
-- The scope of a machine is closed on every way out of its handler.
use cluster_api_provider_hyp.Base.{
  ◌≡◌, ◌≢◌, refl, true, false, Option, none, done, panicked, exited, Outcome, Scoped,
}
use cluster_api_provider_hyp.Api.{Fault, HyperMachine, hyper_machine_finalizer}
use cluster_api_provider_hyp.Scope.{MachineScope, close_machine_scope}
use cluster_api_provider_hyp.Utils.{Remote}
use cluster_api_provider_hyp.MachineController.Handler.{
  reconcile_machine_normal, reconcile_in_scope, add_machine_finalizer,
}

module _ {World Conn Session : Type 0} (remote : Remote World Conn Session)
    (scope : MachineScope World) where
  -- The state with the machine written to the server.
  abbrev pub persisted : Scoped World HyperMachine → Scoped World HyperMachine
  persisted s = record s {
    world = (scope.client.hyper_machines.persist s.world scope.helper s.object).1;
  }

  -- A machine with the finalizer is handled, and whatever its handler did to it is given to the
  -- patch helper, also if the handler returned an error or panicked; only the end of the process
  -- prevents it.
  pub reconcile_in_scope-closes :
      (s s' : Scoped World HyperMachine) (o : Outcome (Option Fault))
      → scope.client.finalizer_ops.contains_finalizer s.object.meta.finalizers
          hyper_machine_finalizer
        ≡ true
      → reconcile_machine_normal remote scope s ≡ (o, s')
      → o ≢ exited
      → reconcile_in_scope remote scope s ≡ (o, persisted s')
  unfolding reconcile_in_scope close_machine_scope
  reconcile_in_scope-closes s s' (done e) has ran alive = simp (has, ran)
  reconcile_in_scope-closes s s' panicked has ran alive = simp (has, ran)
  reconcile_in_scope-closes s s' exited has ran alive = absurd (alive refl)

  -- A machine without the finalizer gets it, the machine is given to the patch helper, and nothing
  -- else happens.
  pub reconcile_in_scope-begins :
      (s : Scoped World HyperMachine)
      → scope.client.finalizer_ops.contains_finalizer s.object.meta.finalizers
          hyper_machine_finalizer
        ≡ false
      → reconcile_in_scope remote scope s
        ≡ (done none, persisted (record s { object = add_machine_finalizer scope.client s.object }))
  unfolding reconcile_in_scope close_machine_scope
  reconcile_in_scope-begins s lacks = simp lacks
