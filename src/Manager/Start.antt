-- ===== src/Manager/Start.antt =====
-- `main` of main.go, and the `SetupWithManager` of the four controllers. The manager library
-- (controller-runtime) is a parameter. What the command line says is an argument.
pub mod Gate
use cluster_api_provider_hyp.Base.{
  ℕ, Bytes, codes, Bool, false, List, [], ◌∷◌, Option, none, some, M, pure, exit, call, ◌>>=◌, ◌>>◌,
}
use cluster_api_provider_hyp.Api.{Fault, Result, value, fault}

-- The kinds that are registered with the manager as a controller's own, or watched by one.
pub data ObjectKind : Type 0 where
  hyper_machine_pool hyper_cluster hyper_machine hyper_ip_pool cluster_machine : ObjectKind

pub record Flags : Type 0 where
  pub metrics_addr : Bytes
  pub enable_leader_election : Bool

-- `ctrl.Options`, with the scheme that `init` fills.
pub record Options (Scheme : Type 0) : Type 0 where
  pub scheme : Scheme
  pub metrics_bind_address : Bytes
  pub port : ℕ
  pub leader_election : Bool
  pub leader_election_id : Bytes

-- The manager library. `build` is `NewControllerManagedBy(mgr).For(...).Build(r)` with the update filter
-- of the kind, and `complete` is the same without its controller.
pub record Runtime (World Config Manager Controller Scheme : Type 0) : Type 0 where
  pub get_config : World → Result Config × World
  pub new_manager : World → Config → Options Scheme → Result Manager × World
  pub build : World → Manager → ObjectKind → Result Controller × World
  pub complete : World → Manager → ObjectKind → Option Fault × World
  pub watch : World → Controller → ObjectKind → Option Fault × World
  pub start : World → Manager → Option Fault × World

-- The values of the flags that are not on the command line.
abbrev pub default_flags : Flags
default_flags = record { metrics_addr = codes ":8080"; enable_leader_election = false }

abbrev pub manager_options : {Scheme : Type 0} → Scheme → Flags → Options Scheme
manager_options scheme flags = record {
  scheme = scheme;
  metrics_bind_address = flags.metrics_addr;
  port = 9443;
  leader_election = flags.enable_leader_election;
  leader_election_id = codes "02de9665.cluster.x-k8s.io";
}

-- `if err != nil { os.Exit(1) }`
abbrev pub or_exit : {World : Type 0} → M World (Option Fault) → M World (Unit {0})
or_exit m = m >>= λ err. elim err [ some e ↦ exit | none ↦ pure tt ]

module _ {World Config Manager Controller Scheme : Type 0}
    (runtime : Runtime World Config Manager Controller Scheme) where
  -- The machine controller also watches the machines of the cluster API.
  unfoldable pub set_up_machines : Manager → M World (Option Fault)
  set_up_machines mgr = do
    controller ← call λ w. runtime.build w mgr hyper_machine
    elim controller [
      | fault e ↦ pure (some e)
      | value c ↦ call λ w. runtime.watch w c cluster_machine
    ]

  unfoldable pub set_up_clusters : Manager → M World (Option Fault)
  set_up_clusters mgr = call λ w. runtime.complete w mgr hyper_cluster

  unfoldable pub set_up_pools : Manager → M World (Option Fault)
  set_up_pools mgr = call λ w. runtime.complete w mgr hyper_machine_pool

  unfoldable pub set_up_ip_pools : Manager → M World (Option Fault)
  set_up_ip_pools mgr = call λ w. runtime.complete w mgr hyper_ip_pool

  -- From the manager on.
  unfoldable pub run_with : Result Manager → M World (Unit {0})
  run_with (fault e) = exit
  run_with (value mgr) =
      or_exit (set_up_pools mgr)
      >> (or_exit (set_up_clusters mgr)
          >> (or_exit (set_up_machines mgr)
              >> (or_exit (set_up_ip_pools mgr) >> or_exit (call λ w. runtime.start w mgr))))

  -- `ctrl.GetConfigOrDie` ends the process where there is no configuration.
  unfoldable pub run_configured : Scheme → Flags → Result Config → M World (Unit {0})
  unfolding run_with
  run_configured scheme flags (fault e) = exit
  run_configured scheme flags (value config) =
      call (λ w. runtime.new_manager w config (manager_options scheme flags)) >>= run_with

  unfoldable pub main : Scheme → Flags → M World (Unit {0})
  unfolding run_configured
  main scheme flags = call (λ w. runtime.get_config w) >>= run_configured scheme flags
