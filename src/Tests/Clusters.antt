-- ===== src/Tests/Clusters.antt =====
-- A cluster that takes the IP and is deleted later.
use cluster_api_provider_hyp.Base.{codes, ◌==◌, ◌≡◌, refl, true, [], ◌∷◌, none, some, done}
use cluster_api_provider_hyp.Api.{
  Labels, HyperCluster, HyperIpPool, Key, lookup, insert, matches, value_eq, key_of, value,
  stored_label, label_hyper_ip_pool, ip_pool_with_labels, hyper_cluster_finalizer,
}
use cluster_api_provider_hyp.ClusterController.Endpoint.{free_ip_selector, record_ip_pool}
use cluster_api_provider_hyp.ClusterController.Endpoint.Claims.{claimed}
use cluster_api_provider_hyp.ClusterController.Handler.{
  with_endpoint, remove_cluster_finalizer, reconcile,
}
use cluster_api_provider_hyp.ClusterController.Handler.Whole.{
  IsAnswered, scope_of, written, reconcile-IsFreed,
}
use cluster_api_provider_hyp.Tests.Memory.{Memory, same_labels}
use cluster_api_provider_hyp.Tests.Ips.{stored_ip, ip_store-IsConsistent}
use cluster_api_provider_hyp.Tests.System.{client, memory, owner_cluster, contains_text}

abbrev key : Key
key = record { namespace = codes "ns"; name = codes "c" }

-- A cluster that waits, with the finalizer.
abbrev waiting : HyperCluster
waiting = record (memory.cluster) {
  meta = record (memory.cluster.meta) { finalizers = hyper_cluster_finalizer ∷ [] };
}

abbrev before : Memory
before = record memory { cluster = waiting }

abbrev ip_labels : Labels
ip_labels = (label_hyper_ip_pool, []) ∷ []

abbrev taken : HyperIpPool
taken = claimed (scope_of client waiting owner_cluster) memory.ip ip_labels

abbrev served : HyperCluster
served = with_endpoint (codes "10.0.0.9") (record_ip_pool (codes "ip") waiting)

abbrev claimed_memory : Memory
claimed_memory = record before { ip = taken }

ip_listed : client.ip_pools.list before free_ip_selector ≡ value (memory.ip ∷ [])
unfolding codes ◌==◌ matches value_eq lookup
ip_listed = refl

ip_accepted : client.ip_pools.patch before memory.ip taken ≡ (value taken, claimed_memory)
unfolding codes ◌==◌ same_labels lookup insert
ip_accepted = refl

-- Two control-plane machines have counted on the IP since, and the cluster is deleted.
abbrev counted_labels : Labels
counted_labels = (label_hyper_ip_pool, codes "2") ∷ []

abbrev counted : HyperIpPool
counted = ip_pool_with_labels memory.ip counted_labels

abbrev deleted : HyperCluster
deleted = record served { meta = record (served.meta) { deletion_timestamp = some 1 } }

abbrev later : Memory
later = record (written client waiting served claimed_memory) { ip = counted; cluster = deleted }

abbrev free_ip : HyperIpPool
free_ip = ip_pool_with_labels counted (insert label_hyper_ip_pool [] counted_labels)

abbrev freed_memory : Memory
freed_memory = record later { ip = free_ip }

has_finalizer :
    client.finalizer_ops.contains_finalizer waiting.meta.finalizers hyper_cluster_finalizer ≡ true
unfolding contains_text hyper_cluster_finalizer codes ◌==◌
has_finalizer = refl

waiting-IsAnswered : IsAnswered client before key waiting owner_cluster
waiting-IsAnswered = record { found = refl; owned = refl; helped = refl; held = has_finalizer }

deleted-IsAnswered : IsAnswered client later key deleted owner_cluster
unfolding with_endpoint record_ip_pool
deleted-IsAnswered = record { found = refl; owned = refl; helped = refl; held = has_finalizer }

is_deleted : deleted.meta.deletion_timestamp ≡ some 1
is_deleted = refl

counted_stored : stored_ip later (key_of memory.ip.meta) ≡ some counted
unfolding stored_ip codes ◌==◌
counted_stored = refl

free_accepted : client.ip_pools.patch later counted free_ip ≡ (value free_ip, freed_memory)
unfolding codes ◌==◌ same_labels
free_accepted = refl

reconcile-IsFreed_example :
    (reconcile client key before ≡ (done none, written client waiting served claimed_memory))
    × (served.spec.control_plane_endpoint ≡ record { host = codes "10.0.0.9"; port = 6443 })
    × (served.status.ready ≡ true)
    × (stored_label
          (λ (x : HyperIpPool). x.meta)
          (stored_ip claimed_memory (key_of memory.ip.meta))
          label_hyper_ip_pool
        ≡ some (codes "0"))
    × (reconcile client key later ≡ (
      done none,
      written client deleted (remove_cluster_finalizer client deleted) freed_memory,
    ))
    × (stored_label
          (λ (x : HyperIpPool). x.meta)
          (stored_ip freed_memory (key_of memory.ip.meta))
          label_hyper_ip_pool
        ≡ some [])
reconcile-IsFreed_example =
    reconcile-IsFreed client stored_ip ip_store-IsConsistent key before claimed_memory later
      freed_memory [] ip_labels counted_labels 1 waiting-IsAnswered refl refl refl ip_listed refl
      ip_accepted refl (unfold codes in λ e. cc e) deleted-IsAnswered is_deleted refl refl
      counted_stored refl free_accepted
