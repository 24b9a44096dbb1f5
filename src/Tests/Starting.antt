-- ===== src/Tests/Starting.antt =====
-- A manager that records what is set up, and updates of objects.
use cluster_api_provider_hyp.Base.{
  codes, ◌≡◌, ◌↔◌, ◌⊎◌, inl, inr, refl, true, false, List, [], ◌∷◌, Option, none, done, exited,
  call, Bytes, ◌==◌,
}
use cluster_api_provider_hyp.Api.{
  Fault, value, HyperMachinePool, HyperMachineStatus, Machine, Key, zero_meta, zero_ref,
}
use cluster_api_provider_hyp.Manager.Filters.{
  machine_update, pool_update, MachineEvent, updated, created, deleted, generic, machine_event,
}
use cluster_api_provider_hyp.Manager.Filters.Equality.{IsSameMeta}
use cluster_api_provider_hyp.Manager.Filters.Seen.{pool_update-IsSame, machine_update-status}
use cluster_api_provider_hyp.Manager.Filters.Woken.{IsDue, IsMappingBoth, machine_event-IsDue}
use cluster_api_provider_hyp.MachineController.Handler.{
  requeue_hyper_machines, is_provisioning_event,
}
use cluster_api_provider_hyp.Manager.Start.{
  Runtime, ObjectKind, default_flags, manager_options, or_exit, main, set_up_pools, set_up_clusters,
  set_up_machines, set_up_ip_pools,
}
use cluster_api_provider_hyp.Manager.Start.Gate.{IsSetUp, starting_by, main-IsGated}
use cluster_api_provider_hyp.Tests.System.{memory, free_pool, client, owner_machine}

abbrev recording : Runtime (List ObjectKind) (Unit {0}) (Unit {0}) (Unit {0}) (Unit {0})
recording = record {
  get_config = λ w. (value tt, w);
  new_manager = λ w c o. (value tt, w);
  build = λ w m k. (value tt, k ∷ w);
  complete = λ w m k. (none, k ∷ w);
  watch = λ w c k. (none, k ∷ w);
  start = λ w m. (none, w);
}

abbrev registered : List ObjectKind
registered =
    ObjectKind.hyper_ip_pool ∷ ObjectKind.cluster_machine ∷ ObjectKind.hyper_machine
    ∷ ObjectKind.hyper_cluster ∷ ObjectKind.hyper_machine_pool ∷ []

main-IsGated_example :
    ((config : Unit {0}) × (mgr : Unit {0}) × (w0 : List ObjectKind) × (w1 : List ObjectKind)
      × (w6 : List ObjectKind) × (recording.get_config [] ≡ (value config, w0))
      × (recording.new_manager w0 config (manager_options tt default_flags) ≡ (value mgr, w1))
      × IsSetUp recording mgr w1 w6
      × (main recording tt default_flags [] ≡ or_exit (call λ t. recording.start t mgr) w6))
    ⊎ ((start : List ObjectKind → Unit {0} → Option Fault × List ObjectKind)
        → main (starting_by start recording) tt default_flags []
          ≡ (exited, (main recording tt default_flags []).1))
main-IsGated_example = main-IsGated recording tt default_flags []

main_registers : main recording tt default_flags [] ≡ (done tt, registered)
unfolding main set_up_pools set_up_clusters set_up_machines set_up_ip_pools
main_registers = refl

abbrev kind_pool : HyperMachinePool
kind_pool = record (free_pool (codes "a")) {
  meta = record ((free_pool (codes "a")).meta) { kind = codes "HyperMachinePool" };
}

abbrev other_status : HyperMachinePool
other_status = record kind_pool { status = record (kind_pool.status) { kernel = codes "5.4" } }

pool_update-IsSame_example :
    (pool_update kind_pool other_status ≡ false)
    ↔ (IsSameMeta kind_pool.meta other_status.meta × (kind_pool.spec.ssh ≡ other_status.spec.ssh))
pool_update-IsSame_example = pool_update-IsSame kind_pool other_status refl

abbrev ready_status : HyperMachineStatus
ready_status = record { ready = true; addresses = [] }

machine_update-status_example :
    machine_update memory.machine (record (memory.machine) {
      meta = record (memory.machine.meta) { resource_version = codes "2" };
      status = ready_status;
    })
    ≡ true
machine_update-status_example =
    machine_update-status memory.machine ready_status (codes "2") (unfold codes in λ e. cc e)

-- The owner of the machine "m".
abbrev owner_in : Bytes → Machine
owner_in phase = record owner_machine {
  meta = record zero_meta { name = codes "owner"; namespace = codes "ns" };
  infrastructure_ref = record zero_ref { kind = codes "HyperMachine"; name = codes "m" };
  phase = phase;
}

abbrev provisioning_starts : MachineEvent
provisioning_starts = updated (owner_in (codes "Pending")) (owner_in (codes "Provisioning"))

abbrev machine_key : Key
machine_key = record { namespace = codes "ns"; name = codes "m" }

-- The mapping runs on every object of an event.
abbrev BothMapped : MachineEvent → Machine → Type 0
BothMapped (updated old new) m = (m ≡ old) ⊎ (m ≡ new)
BothMapped (created n) m = m ≡ n
BothMapped (deleted n) m = m ≡ n
BothMapped (generic n) m = m ≡ n

BothMapped-IsMappingBoth : IsMappingBoth BothMapped
BothMapped-IsMappingBoth = record {
  both = λ old new. (inl refl, inr refl);
  only = λ old new m at. at;
}

machine_event-IsDue_example :
    ((machine_event provisioning_starts ≡ true)
      × ((m : Machine) × BothMapped provisioning_starts m
          × (requeue_hyper_machines client m memory ≡ machine_key ∷ [])))
    ↔ ((old : Machine) × (new : Machine) × (provisioning_starts ≡ updated old new)
        × (old.phase ≡ codes "Pending")
        × (new.phase ≡ codes "Provisioning")
        × (IsDue client memory old machine_key ⊎ IsDue client memory new machine_key))
machine_event-IsDue_example =
    machine_event-IsDue client BothMapped BothMapped-IsMappingBoth provisioning_starts memory
      machine_key

due_passes : machine_event provisioning_starts ≡ true
unfolding machine_event is_provisioning_event codes ◌==◌
due_passes = refl
