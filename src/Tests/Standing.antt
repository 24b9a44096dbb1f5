-- ===== src/Tests/Standing.antt =====
-- What a machine and a cluster that are ready have, and the priorities of three control-plane machines.
use cluster_api_provider_hyp.Base.{
  ◌+◌, ◌%◌, ◌^◌, ◌++◌, codes, ◌==◌, ==_refl, ◌≡◌, refl, arith, true, [], ◌∷◌, Option, none, some,
  done, Scoped,
}
use text.Mathlib.TextEquality.{eq_iff}
use cluster_api_provider_hyp.Base.Decimal.{ℤ, pos, itoa, atoi, max_int}
use cluster_api_provider_hyp.Base.Decimal.Range.{word, IsInt}
use cluster_api_provider_hyp.Utils.Priority.{hip_num2_pri}
use cluster_api_provider_hyp.Utils.Priority.Range.{hip_num2_pri-IsInt}
use cluster_api_provider_hyp.Base.Distinct.{Distinct}
use cluster_api_provider_hyp.Api.{
  insert, Labels, label?, lookup, matches, value_eq, HyperMachine, HyperMachinePool, HyperCluster,
  HyperIpPool, value, key_of, label_hyper_ip_pool, label_hyper_ip_pool_name, ip_pool_with_labels,
}
use cluster_api_provider_hyp.Scope.{
  ClusterScope, get_bootstrap_data, set_ready, set_provider_id, set_address,
}
use cluster_api_provider_hyp.Base.Split.{split}
use cluster_api_provider_hyp.MachineController.Acquire.{
  get_hyper_machine_pool, choose_pool, reference_to,
}
use cluster_api_provider_hyp.MachineController.Handler.{
  reconcile_machine_normal, is_settled, provision_machine, do_provisioning, mark_provisioned,
}
use cluster_api_provider_hyp.MachineController.Handler.Invariant.{reconcile_machine_normal-IsNamed}
use cluster_api_provider_hyp.ClusterController.Handler.{reconcile_cluster_normal}
use cluster_api_provider_hyp.ClusterController.Handler.Invariant.{
  IsServed, reconcile_cluster_normal-IsServed,
}
use cluster_api_provider_hyp.Utils.Priority.Sequence.{
  descending, ask_all, ask_all-Distinct, counter_at,
}
use cluster_api_provider_hyp.Tests.Memory.{Memory, same_labels, same_label_map}
use cluster_api_provider_hyp.Tests.Ips.{stored_ip, ip_store-IsConsistent}
use cluster_api_provider_hyp.Tests.System.{client, remote, memory, owner_cluster, machine_scope}

abbrev start : Scoped Memory HyperMachine
start = record { world = memory; object = memory.machine }

became_ready : (reconcile_machine_normal remote machine_scope start).1.object.status.ready ≡ true
unfolding reconcile_machine_normal is_settled provision_machine get_hyper_machine_pool choose_pool
    codes ◌==◌ matches value_eq lookup insert same_labels do_provisioning mark_provisioned split
    get_bootstrap_data set_ready set_provider_id set_address
became_ready = refl

reconcile_machine_normal-IsNamed_example :
    (p : HyperMachinePool) × (choose_pool client memory ≡ some p)
    × ((reconcile_machine_normal remote machine_scope start).1.object.spec.provider_id
        ≡ some (codes "hyper:///" ++ p.status.host_name))
    × ((reconcile_machine_normal remote machine_scope start).1.object.spec.hyper_machine_pool_ref
        ≡ reference_to p)
reconcile_machine_normal-IsNamed_example =
    reconcile_machine_normal-IsNamed remote machine_scope start refl became_ready

abbrev cluster_scope : ClusterScope Memory
cluster_scope = record { client = client; cluster = owner_cluster; helper = memory.cluster }

abbrev cluster_start : Scoped Memory HyperCluster
cluster_start = record { world = memory; object = memory.cluster }

start-IsServed : IsServed cluster_start.object
start-IsServed e = absurd (ground arith)

reconcile_cluster_normal-IsServed_example :
    IsServed (reconcile_cluster_normal cluster_scope cluster_start).1.object
reconcile_cluster_normal-IsServed_example =
    reconcile_cluster_normal-IsServed cluster_scope cluster_start start-IsServed

-- The IP store accepts every patch of the object that is stored.
same_labels_refl : (l : Labels) → same_labels l l ≡ true
unfolding same_labels
same_labels_refl [] = refl
same_labels_refl ((k, v) ∷ l) = ground (arith, eq_iff k k, ==_refl v, same_labels_refl l)

same_label_map_refl : (o : Option Labels) → same_label_map o o ≡ true
same_label_map_refl none = refl
same_label_map_refl (some l) = same_labels_refl l

accepts :
    (w : Memory) (old new : HyperIpPool)
    → stored_ip w (key_of new.meta) ≡ some old
    → (r : HyperIpPool) × (w' : Memory) × (client.ip_pools.patch w old new ≡ (value r, w'))
unfolding stored_ip
accepts w old new e =
    (new, record w { ip = new }, ground (arith, same_label_map_refl w.ip.meta.labels))

abbrev counted_memory : Memory
counted_memory = record memory {
  ip = ip_pool_with_labels memory.ip ((label_hyper_ip_pool, codes "0") ∷ []);
}

abbrev holder : HyperCluster
holder = record (memory.cluster) {
  meta = record (memory.cluster.meta) {
    labels = some ((label_hyper_ip_pool_name, codes "ip") ∷ []);
  };
}

holder_named : label? label_hyper_ip_pool_name holder.meta.labels ≡ some (codes "ip")
unfolding lookup
holder_named = refl

counter :
    counter_at client owner_cluster holder stored_ip ip_store-IsConsistent
      (codes "ip")
      counted_memory
    ≡ some (codes "0")
unfolding lookup stored_ip codes ◌==◌
counter = refl

ask_all-Distinct_example :
    Distinct (descending 0 3)
    × ((w' : Memory) × (ask_all client owner_cluster holder 3 counted_memory
          ≡ (done (descending 0 3), w'))
        × (counter_at client owner_cluster holder stored_ip ip_store-IsConsistent (codes "ip") w'
            ≡ some (itoa (pos 3))))
ask_all-Distinct_example =
    ask_all-Distinct client owner_cluster holder stored_ip ip_store-IsConsistent 3 counted_memory
      (codes "ip") holder_named accepts counter (omega arith)

-- The largest counter.
abbrev full_labels : Labels
full_labels = (label_hyper_ip_pool, codes "9223372036854775807") ∷ []

abbrev full : HyperIpPool
full = ip_pool_with_labels memory.ip full_labels

abbrev full_memory : Memory
full_memory = record memory { ip = full }

full_read :
    client.ip_pools.get full_memory
      (record { namespace = owner_cluster.meta.namespace; name = codes "ip" })
    ≡ value full
unfolding stored_ip codes ◌==◌
full_read = refl

full_counter : lookup label_hyper_ip_pool full_labels ≡ some (codes "9223372036854775807")
unfolding lookup
full_counter = refl

full_number : atoi (codes "9223372036854775807") ≡ some (pos max_int)
unfolding atoi codes
full_number = refl

hip_num2_pri-IsInt_example :
    (priority : ℤ) × (counter : ℤ) × (hip_num2_pri client owner_cluster holder full_memory ≡ (
      done (itoa priority),
      (client.ip_pools.patch full_memory full
          (ip_pool_with_labels full (insert label_hyper_ip_pool (itoa counter) full_labels))).1,
    ))
    × IsInt priority
    × ((word priority + word (pos max_int)) % 2 ^ 64 ≡ 100)
    × IsInt counter
    × (word counter ≡ (word (pos max_int) + 1) % 2 ^ 64)
    × (atoi (itoa counter) ≡ some counter)
hip_num2_pri-IsInt_example =
    hip_num2_pri-IsInt client owner_cluster holder full_memory (codes "ip")
      (codes "9223372036854775807") (pos max_int) holder_named full_read refl full_counter
      full_number
