-- ===== src/Scope/MachineDefs.antt =====
-- utils/scope/machine.go. The `HyperMachine` of the scope is changed in place, so it is kept in the
-- state of the handlers (`Scoped`) and not in the scope; `helper` is the object that the patch helper
-- remembers.
pub mod Given
use cluster_api_provider_hyp.Base.{
  Bool, if◌then◌else◌, Bytes, codes, true, false, [], ◌∷◌, ◌++◌, Option, none, some, M, pure,
  Scoped,
}
use cluster_api_provider_hyp.Api.{
  Client, Fault, failure, Result, value, fault, lookup, Cluster, Machine, HyperCluster,
  HyperMachine, message,
}

-- The fields are nil where they are `none`.
pub record MachineScopeParams (World : Type 0) : Type 0 where
  pub client : Option (Client World)
  pub cluster : Option Cluster
  pub hyper_cluster : Option HyperCluster
  pub machine : Option Machine
  pub hyper_machine : Option HyperMachine

pub record MachineScope (World : Type 0) : Type 0 where
  pub client : Client World
  pub cluster : Cluster
  pub machine : Machine
  pub hyper_cluster : HyperCluster
  pub helper : HyperMachine

-- `if x == nil { return nil, errors.New(text) }`
abbrev pub required : {A : Type 0} → Option A → Bytes → Result A
required none text = fault (failure text)
required (some a) text = value a

-- An error that is returned at once.
abbrev pub and_then : {A B : Type 0} → Result A → (A → Result B) → Result B
and_then (value a) f = f a
and_then (fault e) f = fault e

-- `NewMachineScope`, in the world in which it is called.
unfoldable pub new_machine_scope :
    {World : Type 0} → MachineScopeParams World → World → Result (MachineScope World)
new_machine_scope params w =
    and_then (required params.client (codes "client is required when creating a MachineScope"))
      λ client.
        and_then
          (required params.machine (codes "machine is required when creating a MachineScope"))
          λ machine.
            and_then
              (required params.cluster (codes "cluster is required when creating a MachineScope"))
              λ cluster.
                and_then
                  (required params.hyper_machine
                    (codes "hyper machine is required when creating a MachineScope"))
                  λ hm.
                    and_then
                      (required params.hyper_cluster
                        (codes "hyper cluster is required when creating a MachineScope"))
                      λ hc. elim (client.hyper_machines.new_helper w hm) [
                        | some e ↦
                            fault (failure (codes "failed to init patch helper: " ++ message e))
                        | none ↦ value (record {
                          client = client;
                          cluster = cluster;
                          machine = machine;
                          hyper_cluster = hc;
                          helper = hm;
                        })
                      ]

-- `Name` and `Namespace`, which are the machine's.
unfoldable pub machine_name : HyperMachine → Bytes
machine_name hm = hm.meta.name

unfoldable pub machine_namespace : HyperMachine → Bytes
machine_namespace hm = hm.meta.namespace

-- With the cluster API's `util.IsControlPlaneMachine`.
module _ {World : Type 0} (is_control_plane_machine : Machine → Bool)
    (scope : MachineScope World) where
  unfoldable pub is_control_plane : Bool
  is_control_plane = is_control_plane_machine scope.machine

  unfoldable pub role : Bytes
  role = if is_control_plane_machine scope.machine then codes "master" else codes "worker"

unfoldable pub get_provider_id : HyperMachine → Bytes
get_provider_id hm = elim hm.spec.provider_id [ none ↦ [] | some id ↦ id ]

unfoldable pub set_provider_id : Bytes → HyperMachine → HyperMachine
set_provider_id hmp_name hm = record hm {
  spec = record (hm.spec) { provider_id = some (codes "hyper:///" ++ hmp_name) };
}

unfoldable pub set_address : Bytes → HyperMachine → HyperMachine
set_address address hm = record hm {
  status = record (hm.status) {
    addresses = record { address_type = codes "InternalIP"; address = address } ∷ [];
  };
}

unfoldable pub set_ready : HyperMachine → HyperMachine
set_ready hm = record hm { status = record (hm.status) { ready = true } }

unfoldable pub set_not_ready : HyperMachine → HyperMachine
set_not_ready hm = record hm { status = record (hm.status) { ready = false } }

module _ {World : Type 0} (scope : MachineScope World) where
  -- `GetRawBootstrapData`, which `GetBootstrapData` passes on.
  unfoldable pub get_bootstrap_data : HyperMachine → World → Result Bytes
  get_bootstrap_data hm w = elim scope.machine.data_secret_name [
    | none ↦ fault (
        failure (
          codes
            "error retrieving bootstrap data: linked Machine's bootstrap.dataSecretName is nil"))
    | some secret_name ↦
        elim (scope.client.get_secret w
          (record { namespace = hm.meta.namespace; name = secret_name })) [
            | fault e ↦ fault (
                failure (
                  codes "failed to retrieve bootstrap data secret for HyperMachine "
                  ++ (hm.meta.namespace
                      ++ (codes "/" ++ (hm.meta.name ++ (codes ": " ++ message e))))))
            | value contents ↦
                required (lookup "value" contents)
                  (codes "error retrieving bootstrap data: secret value key is missing")
          ]
  ]

  -- `PatchObject`, and `Close`, which only calls it; the caller logs the error and drops it.
  unfoldable pub close_machine_scope : M (Scoped World HyperMachine) (Option Fault)
  close_machine_scope s =
      let (err, w) = scope.client.hyper_machines.persist s.world scope.helper s.object in
      pure err (record s { world = w })
