-- ===== src/Scope/MachineDefs/Given.antt =====
-- What `NewMachineScope` asks for.
use cluster_api_provider_hyp.Base.{
  ◌≡◌, ◌↔◌, refl, sym, Option, none, some, arith, Option-cases, inl, inr,
}
use cluster_api_provider_hyp.Api.{value, Client, Machine, Cluster, HyperMachine, HyperCluster}
use cluster_api_provider_hyp.Scope.MachineDefs.{MachineScopeParams, MachineScope, new_machine_scope}

-- The parts of a scope are the parameters, and the patch helper was made for the machine.
pub record IsGiven {World : Type 0} (params : MachineScopeParams World) (w : World)
    (scope : MachineScope World) : Type 0 where
  pub client : params.client ≡ some scope.client
  pub machine : params.machine ≡ some scope.machine
  pub cluster : params.cluster ≡ some scope.cluster
  pub hyper_machine : params.hyper_machine ≡ some scope.helper
  pub hyper_cluster : params.hyper_cluster ≡ some scope.hyper_cluster
  pub helped : scope.client.hyper_machines.new_helper w scope.helper ≡ none

abbrev params_of :
    {World : Type 0}
    → Option (Client World)
    → Option Machine
    → Option Cluster
    → Option HyperMachine
    → Option HyperCluster
    → MachineScopeParams World
params_of client machine cluster hm hc = record {
  client = client;
  cluster = cluster;
  hyper_cluster = hc;
  machine = machine;
  hyper_machine = hm;
}

scope-injective : {World : Type 0} (a b : MachineScope World) → value a ≡ value b → a ≡ b
scope-injective a b e = cc

helped :
    {World : Type 0} (client : Client World) (machine : Machine) (cluster : Cluster)
    (hm : HyperMachine) (hc : HyperCluster) (w : World) (scope : MachineScope World)
    → client.hyper_machines.new_helper w hm ≡ none
    → record {
      client = client;
      cluster = cluster;
      machine = machine;
      hyper_cluster = hc;
      helper = hm;
    }
      ≡ scope
    → IsGiven (params_of (some client) (some machine) (some cluster) (some hm) (some hc)) w scope
helped client machine cluster hm hc w scope ok same = rw (sym same) (record {
  client = refl;
  machine = refl;
  cluster = refl;
  hyper_machine = refl;
  hyper_cluster = refl;
  helped = ok;
})

given :
    {World : Type 0} (client : Option (Client World)) (machine : Option Machine)
    (cluster : Option Cluster) (hm : Option HyperMachine) (hc : Option HyperCluster) (w : World)
    (scope : MachineScope World)
    → new_machine_scope (params_of client machine cluster hm hc) w ≡ value scope
    → IsGiven (params_of client machine cluster hm hc) w scope
unfolding new_machine_scope
given none machine cluster hm hc w scope e = absurd (ground arith)
given (some client) none cluster hm hc w scope e = absurd (ground arith)
given (some client) (some machine) none hm hc w scope e = absurd (ground arith)
given (some client) (some machine) (some cluster) none hc w scope e = absurd (ground arith)
given (some client) (some machine) (some cluster) (some hm) none w scope e = absurd (ground arith)
given (some client) (some machine) (some cluster) (some hm) (some hc) w scope e =
    elim (Option-cases (client.hyper_machines.new_helper w hm)) [
      | inl ok ↦
          helped client machine cluster hm hc w scope ok (scope-injective _ scope (rw ok at e))
      | inr (f, failed) ↦ absurd (ground arith)
    ]

-- A machine scope is made exactly where the client, both machines and both clusters are given and the
-- patch helper is made for the machine, and its parts are those that were given.
pub new_machine_scope-IsGiven :
    {World : Type 0} (params : MachineScopeParams World) (w : World) (scope : MachineScope World)
    → (new_machine_scope params w ≡ value scope) ↔ IsGiven params w scope
unfolding new_machine_scope
new_machine_scope-IsGiven params w scope = (
  λ e.
      given params.client params.machine params.cluster params.hyper_machine params.hyper_cluster w
        scope e,
  λ g. simp (g.client, g.machine, g.cluster, g.hyper_machine, g.hyper_cluster, g.helped),
)
