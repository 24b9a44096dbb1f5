-- ===== src/Tests/Entries.antt =====
-- Entries of the machine pool.
use cluster_api_provider_hyp.Base.{codes, ◌==◌, ◌≡◌, ◌≢◌, refl, false, [], ◌∷◌, none, some, done}
use cluster_api_provider_hyp.Api.{
  Labels, HyperMachinePool, lookup, matches, value_eq, key_of, value, fault, failure, text_or_empty,
  label_hyper_machine_pool_valid, label_cluster_name, label_cluster_role_master, pool_with_labels,
  zero_pool, message,
}
use cluster_api_provider_hyp.MachineController.Acquire.{
  free_selector, free_master_selector, choose_pool,
}
use cluster_api_provider_hyp.MachineController.Acquire.Free.{
  IsFree, IsMaster, choose_pool-ne-none, choose_pool-IsMaster,
}
use cluster_api_provider_hyp.PoolController.Validation.{init_hyper_machine_pool}
use cluster_api_provider_hyp.PoolController.Handler.{parse_bool, init_unlabelled, validate}
use cluster_api_provider_hyp.PoolController.Handler.Validity.{refused, validate-IsRefused}
use cluster_api_provider_hyp.Utils.Ssh.{ssh_connect}
use cluster_api_provider_hyp.Tests.Memory.{Memory, stored_pool, pool_store-IsConsistent}
use cluster_api_provider_hyp.Tests.System.{client, remote, memory, free_pool, free_info}

-- The entry "b" is set aside for the control plane.
abbrev master_labels : Labels
master_labels =
    (label_hyper_machine_pool_valid, codes "true")
    ∷ (label_cluster_role_master, [])
    ∷ (label_cluster_name, [])
    ∷ []

abbrev master_pool : HyperMachinePool
master_pool = pool_with_labels (free_pool (codes "b")) master_labels

abbrev master_memory : Memory
master_memory = record memory { pool_b = master_pool }

master_stored : stored_pool master_memory (key_of master_pool.meta) ≡ some master_pool
unfolding stored_pool codes ◌==◌
master_stored = refl

master-IsFree : IsFree master_pool
unfolding lookup
master-IsFree = (refl, refl)

master_pool-IsMaster : IsMaster master_pool
unfolding lookup
master_pool-IsMaster = refl

masters_listed : client.pools.list master_memory free_master_selector ≡ value (master_pool ∷ [])
unfolding codes ◌==◌ matches value_eq lookup
masters_listed = refl

others_listed :
    client.pools.list master_memory free_selector ≡ value (free_pool (codes "a") ∷ master_pool ∷ [])
unfolding codes ◌==◌ matches value_eq lookup
others_listed = refl

master_chosen : choose_pool client master_memory ≡ some master_pool
unfolding choose_pool codes ◌==◌ matches value_eq lookup
master_chosen = refl

choose_pool-ne-none_example : choose_pool client master_memory ≢ none
choose_pool-ne-none_example =
    choose_pool-ne-none client stored_pool pool_store-IsConsistent master_memory
      (key_of master_pool.meta) others_listed master_stored master-IsFree

choose_pool-IsMaster_example : IsMaster master_pool
choose_pool-IsMaster_example =
    choose_pool-IsMaster client stored_pool pool_store-IsConsistent master_memory
      (key_of master_pool.meta) (master_pool ∷ []) masters_listed master_stored master-IsFree
      master_pool-IsMaster master_chosen

-- An entry at an address that is down.
abbrev down_pool : HyperMachinePool
down_pool = record zero_pool {
  spec = record { ssh = some (record free_info { address = codes "down" }) };
}

abbrev down_labels : Labels
down_labels = (label_hyper_machine_pool_valid, codes "false") ∷ (label_cluster_name, []) ∷ []

down_initial : (init_unlabelled down_pool).meta.labels ≡ some down_labels
unfolding init_unlabelled init_hyper_machine_pool
down_initial = refl

down_unparsed :
    parse_bool (text_or_empty (lookup label_hyper_machine_pool_valid down_labels)) ≡ false
unfolding parse_bool codes ◌==◌ lookup
down_unparsed = refl

down_info :
    (init_unlabelled down_pool).spec.ssh ≡ some (record free_info { address = codes "down" })
unfolding init_unlabelled init_hyper_machine_pool
down_info = refl

down_refused :
    ssh_connect remote (codes "down") free_info.ssh_id free_info.ssh_pw memory
    ≡ (done (fault (failure (codes "refused"))), memory)
unfolding ssh_connect codes ◌==◌
down_refused = refl

validate-IsRefused_example :
    let hmp =
      refused remote client (init_unlabelled down_pool) down_labels (failure (codes "refused")) in
    (validate remote client (record { world = memory; object = down_pool })
      ≡ (done tt, record { world = memory; object = hmp }))
    × (hmp.status.error ≡ message (failure (codes "refused")))
    × (matches free_selector hmp.meta.labels ≡ false)
validate-IsRefused_example =
    validate-IsRefused remote client (record { world = memory; object = down_pool }) down_labels
      down_initial down_unparsed down_info down_refused
