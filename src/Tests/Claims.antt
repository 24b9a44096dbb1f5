-- ===== src/Tests/Claims.antt =====
-- Control-plane machines that count on the IP of their cluster, and the scope of a machine.
use cluster_api_provider_hyp.Base.{
  ℕ, codes, ◌==◌, ◌≡◌, ◌↔◌, ◌-◌, ◌+◌, refl, arith, true, [], ◌∷◌, none, some, done, Scoped,
}
use cluster_api_provider_hyp.Base.Decimal.{pos, itoa}
use cluster_api_provider_hyp.Api.{
  Labels, HyperMachine, HyperCluster, HyperIpPool, label?, lookup, insert, key_of, value,
  stored_label, label_hyper_ip_pool, label_hyper_ip_pool_name, ip_pool_with_labels,
  hyper_machine_finalizer,
}
use cluster_api_provider_hyp.MachineController.Handler.{
  reconcile_in_scope, reconcile_machine_normal, is_settled,
}
use cluster_api_provider_hyp.MachineController.Handler.Closing.{
  persisted, reconcile_in_scope-closes,
}
use cluster_api_provider_hyp.Utils.Priority.{hip_num2_pri}
use cluster_api_provider_hyp.Utils.Priority.Order.{counted, hip_num2_pri-IsNext}
use cluster_api_provider_hyp.Tests.Memory.{Memory, same_labels}
use cluster_api_provider_hyp.Tests.Ips.{stored_ip, ip_store-IsConsistent}
use cluster_api_provider_hyp.Tests.System.{
  client, remote, memory, owner_cluster, machine_scope, contains_text,
}

-- The third control-plane machine of the cluster that holds the IP.
abbrev two_labels : Labels
two_labels = (label_hyper_ip_pool, itoa (pos 2)) ∷ []

abbrev counting : HyperIpPool
counting = ip_pool_with_labels memory.ip two_labels

abbrev count_memory : Memory
count_memory = record memory { ip = counting }

abbrev holder : HyperCluster
holder = record (memory.cluster) {
  meta = record (memory.cluster.meta) {
    labels = some ((label_hyper_ip_pool_name, codes "ip") ∷ []);
  };
}

holder_named : label? label_hyper_ip_pool_name holder.meta.labels ≡ some (codes "ip")
unfolding lookup
holder_named = refl

counting_stored : stored_ip count_memory (key_of counting.meta) ≡ some counting
unfolding stored_ip codes ◌==◌
counting_stored = refl

counter : lookup label_hyper_ip_pool two_labels ≡ some (itoa (pos 2))
unfolding lookup
counter = refl

abbrev third : HyperIpPool
third = counted client owner_cluster holder counting two_labels 2

count_accepted :
    client.ip_pools.patch count_memory counting third ≡ (value third, record memory { ip = third })
unfolding codes ◌==◌ same_labels lookup insert itoa
count_accepted = refl

hip_num2_pri-IsNext_example :
    (hip_num2_pri client owner_cluster holder count_memory
      ≡ (done (itoa (pos (100 - 2))), record memory { ip = third }))
    × ((itoa (pos (100 - 2)) ≡ codes "100") ↔ (◌≡◌ {A = ℕ} 2 0))
    × (stored_label
          (λ (x : HyperIpPool). x.meta)
          (stored_ip (record memory { ip = third }) (key_of counting.meta))
          label_hyper_ip_pool
        ≡ some (itoa (pos (2 + 1))))
hip_num2_pri-IsNext_example =
    hip_num2_pri-IsNext client owner_cluster holder stored_ip ip_store-IsConsistent count_memory 2
      (codes "ip") holder_named refl counting_stored refl counter (ground arith) count_accepted

-- A machine that has the finalizer.
abbrev finalized : HyperMachine
finalized = record (memory.machine) {
  meta = record (memory.machine.meta) { finalizers = hyper_machine_finalizer ∷ [] };
  spec = record (memory.machine.spec) { provider_id = some (codes "hyper:///n") };
}

abbrev second_look : Scoped Memory HyperMachine
second_look = record { world = memory; object = finalized }

has_finalizer :
    client.finalizer_ops.contains_finalizer finalized.meta.finalizers hyper_machine_finalizer ≡ true
unfolding contains_text ◌==◌ hyper_machine_finalizer codes
has_finalizer = refl

nothing_to_do : reconcile_machine_normal remote machine_scope second_look ≡ (done none, second_look)
unfolding reconcile_machine_normal is_settled codes ◌==◌
nothing_to_do = refl

reconcile_in_scope-closes_example :
    reconcile_in_scope remote machine_scope second_look
    ≡ (done none, persisted remote machine_scope second_look)
reconcile_in_scope-closes_example =
    reconcile_in_scope-closes remote machine_scope second_look second_look (done none) has_finalizer
      nothing_to_do λ e. cc e
