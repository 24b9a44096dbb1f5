-- ===== src/Tests/Deletions.antt =====
-- Machines and clusters that are deleted.
use cluster_api_provider_hyp.Base.{
  Bytes, codes, ◌==◌, ◌≡◌, ◌≢◌, refl, [], ◌∷◌, none, some, done, panicked, Scoped,
}
use cluster_api_provider_hyp.Api.{
  Key, matches, value_eq, hyper_machine_finalizer, Labels, HyperMachine, HyperMachinePool,
  HyperCluster, label?, lookup, insert, erase, key_of, value, fault, not_found,
  label_hyper_machine_pool_valid, label_cluster_name, label_cluster_role_master,
  label_hyper_ip_pool_name, pool_with_labels,
}
use cluster_api_provider_hyp.Scope.{ClusterScope}
use cluster_api_provider_hyp.MachineController.Acquire.{refer_to, free_selector, choose_pool}
use cluster_api_provider_hyp.MachineController.Release.{
  released_labels, reset_machine, reconcile_machine_delete,
}
use cluster_api_provider_hyp.MachineController.Release.Freed.{
  ref_key, reconcile_machine_delete-panics,
}
use cluster_api_provider_hyp.MachineController.Acquire.Free.{IsFree}
use cluster_api_provider_hyp.MachineController.Handler.{reconcile}
use cluster_api_provider_hyp.MachineController.Handler.Returned.{written_off, reconcile-IsReturned}
use cluster_api_provider_hyp.ClusterController.Handler.{reconcile_cluster_delete}
use cluster_api_provider_hyp.ClusterController.Handler.Deletion.{
  ip_key, reconcile_cluster_delete-panics,
}
use cluster_api_provider_hyp.Utils.Ssh.{ssh_connect, send_commands, send, close}
use cluster_api_provider_hyp.Tests.Memory.{
  Memory, stored_pool, pool_store-IsConsistent, same_labels,
}
use cluster_api_provider_hyp.Tests.Owners.{silent}
use cluster_api_provider_hyp.Tests.Turning.{apart}
use cluster_api_provider_hyp.Tests.Ips.{stored_ip}
use cluster_api_provider_hyp.Tests.System.{
  client, remote, memory, free_pool, free_info, owner_cluster,
}

-- An entry in use by a control-plane machine of the cluster "c1".
abbrev used_labels : Labels
used_labels =
    (label_hyper_machine_pool_valid, codes "true")
    ∷ (label_cluster_name, codes "c1")
    ∷ (label_cluster_role_master, [])
    ∷ []

abbrev used_pool : HyperMachinePool
used_pool = pool_with_labels (free_pool (codes "a")) used_labels

-- The machine that uses it, which is deleted.
abbrev user : HyperMachine
user = refer_to used_pool (record (memory.machine) {
  meta = record (memory.machine.meta) {
    finalizers = hyper_machine_finalizer ∷ [];
    deletion_timestamp = some 1;
  };
})

abbrev machine_key : Key
machine_key = record { namespace = codes "ns"; name = codes "m" }

abbrev used_memory : Memory
used_memory = record memory { pool_a = used_pool; machine = user }

still_valid : lookup label_hyper_machine_pool_valid used_labels ≡ some (codes "true")
unfolding lookup
still_valid = refl

abbrev reset_memory : Memory
reset_memory = (reset_machine remote client tt used_pool used_memory).1

abbrev freed_labels : Labels
freed_labels = (label_hyper_machine_pool_valid, codes "true") ∷ (label_cluster_name, []) ∷ []

freed : released_labels (some used_labels) ≡ some freed_labels
unfolding released_labels lookup insert erase codes
freed = refl

connected :
    ssh_connect remote free_info.address free_info.ssh_id free_info.ssh_pw used_memory
    ≡ (done (value tt), used_memory)
unfolding ssh_connect codes ◌==◌
connected = refl

commands_end : reset_machine remote client tt used_pool used_memory ≡ (done tt, reset_memory)
unfolding reset_machine send send_commands close codes ◌==◌
commands_end = refl

first_stored : stored_pool used_memory (key_of used_pool.meta) ≡ some used_pool
unfolding stored_pool codes ◌==◌
first_stored = refl

release_accepted :
    client.pools.patch reset_memory used_pool (pool_with_labels used_pool freed_labels) ≡ (
      value (pool_with_labels used_pool freed_labels),
      record reset_memory { pool_a = pool_with_labels used_pool freed_labels },
    )
unfolding reset_machine send send_commands close codes ◌==◌ same_labels
release_accepted = refl

abbrev last : Memory
last =
    written_off remote client user
      (record reset_memory { pool_a = pool_with_labels used_pool freed_labels })

all_listed :
    client.pools.list last free_selector
    ≡ value (pool_with_labels used_pool freed_labels ∷ free_pool (codes "b") ∷ [])
unfolding reset_machine send send_commands close codes ◌==◌ matches value_eq lookup
all_listed = refl

reconcile-IsReturned_example :
    (reconcile remote client machine_key used_memory ≡ (done none, last))
    × (choose_pool client last ≢ none)
    × (p : HyperMachinePool) × (stored_pool last (ref_key user) ≡ some p)
    × IsFree p
    × (label? label_cluster_role_master p.meta.labels ≡ none)
reconcile-IsReturned_example =
    reconcile-IsReturned remote client stored_pool pool_store-IsConsistent silent apart machine_key
      used_memory used_memory reset_memory tt used_labels freed_labels 1 refl refl refl
      (unfold codes in λ e. cc e) refl first_stored refl refl still_valid freed connected
      commands_end release_accepted all_listed

-- A machine whose entry was deleted.
abbrev orphan : Scoped Memory HyperMachine
orphan = record { world = memory; object = refer_to (free_pool (codes "gone")) memory.machine }

gone : client.pools.get memory (ref_key orphan.object) ≡ fault (not_found (codes "not found"))
unfolding stored_pool codes ◌==◌
gone = refl

reconcile_machine_delete-panics_example :
    reconcile_machine_delete remote client orphan ≡ (panicked, orphan)
reconcile_machine_delete-panics_example =
    reconcile_machine_delete-panics remote client orphan refl (unfold codes in λ e. cc e) gone

-- A cluster whose IP was deleted.
abbrev cluster_scope : ClusterScope Memory
cluster_scope = record { client = client; cluster = owner_cluster; helper = memory.cluster }

abbrev holder : Bytes → HyperCluster
holder name = record (memory.cluster) {
  meta = record (memory.cluster.meta) { labels = some ((label_hyper_ip_pool_name, name) ∷ []) };
}

abbrev without_ip : Scoped Memory HyperCluster
without_ip = record { world = memory; object = holder (codes "gone") }

names_gone : label? label_hyper_ip_pool_name without_ip.object.meta.labels ≡ some (codes "gone")
unfolding lookup
names_gone = refl

ip_gone :
    client.ip_pools.get memory (ip_key cluster_scope (codes "gone"))
    ≡ fault (not_found (codes "not found"))
unfolding stored_ip codes ◌==◌
ip_gone = refl

reconcile_cluster_delete-panics_example :
    reconcile_cluster_delete cluster_scope without_ip ≡ (panicked, without_ip)
reconcile_cluster_delete-panics_example =
    reconcile_cluster_delete-panics cluster_scope without_ip (codes "gone") names_gone ip_gone
